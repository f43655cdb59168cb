-- ===== src/Syscall.antt =====
-- The checks of the pointers that an application passes to the kernel, and the system calls that
-- write through the pipe, kernel/proc/syscall.c. Memory is a function from addresses to bytes, and
-- the linker's bounds of an application's memory are parameters.
pub mod Pointers
pub mod Puts
mod Tests
use gannet_os.Base.{
  ℕ, zero, suc, ◌+◌, ◌-◌, ◌%◌, ◌^◌, Bool, true, false, not, ◌&&◌, ◌||◌, Option, none, some, ltb,
  leb, ◌==◌, if◌then◌else◌,
}
use gannet_os.Pipe.{Pipe, pipe_active, pipe_putchar}

-- `__appbuf_start` and the other three.
pub record Regions : Type 0 where
  pub appbuf_start : ℕ
  pub appbuf_end : ℕ
  pub appstack_start : ℕ
  pub appstack_end : ℕ

abbrev pub Memory : Type 0
Memory = ℕ → ℕ

unfoldable pub addr_range_in : (ptr len start end' : ℕ) → Bool
addr_range_in ptr len start end' =
    let span_end = (ptr + len) % 2 ^ 32 in
    if ltb span_end ptr then false else leb start ptr && leb span_end end'

-- `(uint32_t)-1`
abbrev pub refused : ℕ
refused = 2 ^ 32 - 1

module _ (r : Regions) where
  unfoldable pub user_range_ok : (ptr len : ℕ) → Bool
  user_range_ok ptr len =
      addr_range_in ptr len r.appbuf_start r.appbuf_end
      || addr_range_in ptr len r.appstack_start r.appstack_end

  -- The end of the region that holds an address, `none` where there is none.
  unfoldable pub region_end : ℕ → Option ℕ
  region_end ptr =
      if leb r.appbuf_start ptr && ltb ptr r.appbuf_end
      then some r.appbuf_end
      else if leb r.appstack_start ptr && ltb ptr r.appstack_end
      then some r.appstack_end
      else none

-- The loop of `user_str_ok` from address `p` on, with the number of addresses left.
unfoldable pub has_nul : (left p : ℕ) → Memory → Bool
has_nul zero p m = false
has_nul (suc left) p m = let rest = has_nul left (p + 1) m in if m p == 0 then true else rest

unfoldable pub user_str_ok : Regions → ℕ → Memory → Bool
user_str_ok r ptr m = elim (region_end r ptr) [
  | none ↦ false
  | some end' ↦ has_nul (end' - ptr) ptr m
]

-- `while (*s) pipe_putchar(*s++);` for at most the given number of rounds.
unfoldable pub puts_loop : (rounds s : ℕ) → Memory → Pipe → Pipe
puts_loop zero s m p = p
puts_loop (suc rounds) s m p =
    let rest = puts_loop rounds (s + 1) m (pipe_putchar (m s) p) in if m s == 0 then p else rest

-- `sys_puts` and `sys_putchar`, over any screen. The rounds of the loop are the addresses there
-- are.
module _ {Screen : Type 0} (terminal_puts : Memory → ℕ → Screen → Screen)
    (terminal_putchar : ℕ → Screen → Screen) where
  unfoldable pub sys_puts : Regions → ℕ → Memory → Pipe → Screen → ℕ × Pipe × Screen
  sys_puts r a1 m p t =
      if not (user_str_ok r a1 m)
      then (refused, p, t)
      else if pipe_active p
      then (0, puts_loop (2 ^ 32 - a1) a1 m p, t)
      else (0, p, terminal_puts m a1 t)

  unfoldable pub sys_putchar : ℕ → Pipe → Screen → ℕ × Pipe × Screen
  sys_putchar a1 p t =
      if pipe_active p
      then (0, pipe_putchar (a1 % 256) p, t)
      else (0, p, terminal_putchar (a1 % 256) t)
