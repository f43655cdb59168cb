-- ===== src/Syscall/Puts.antt =====
-- What `sys_puts` does with the pointer that it gets.
use gannet_os.Base.{
  ℕ, zero, suc, ◌+◌, ◌-◌, ◌^◌, ◌<◌, ◌≡◌, ◌≢◌, inl, inr, refl, sym, ap, ◌∙◌, true, false, List, [],
  ◌∷◌, arith, ◌==◌, ==_of_ne, Bool-cases,
}
use gannet_os.Pipe.{Pipe, pipe_active, pipe_putchar}
use gannet_os.Pipe.Capture.{put_all}
use gannet_os.Syscall.{Regions, Memory, user_str_ok, puts_loop, sys_puts, refused}
use gannet_os.Syscall.Pointers.{IsUser, IsAddressable, IsUserString, user_str_ok_lem}

-- The `n` bytes at an address.
abbrev pub bytes_at : Memory → (p n : ℕ) → List ℕ
bytes_at m p zero = []
bytes_at m p (suc n) = m p ∷ bytes_at m (p + 1) n

-- With more rounds than characters, the loop puts every character and stops at the terminator.
puts_loop_lem :
    (rounds p n : ℕ) (m : Memory) (q : Pipe)
    → n < rounds
    → m (p + n) ≡ 0
    → ((k : ℕ) → k < n → m (p + k) ≢ 0)
    → puts_loop rounds p m q ≡ put_all (bytes_at m p n) q
unfolding puts_loop put_all
puts_loop_lem zero p n m q h nul before = absurd (omega arith)
puts_loop_lem (suc rounds) p zero m q h nul before =
    let front : p ≡ p + 0 = omega arith in let stop : m p ≡ 0 = ap m front ∙ nul in rw stop refl
puts_loop_lem (suc rounds) p (suc n) m q h nul before =
    let front : p ≡ p + 0 = omega arith in
    let go_on : (m p == 0) ≡ false =
      ==_of_ne (m p) 0 (λ e. before 0 (omega arith) (sym (ap m front) ∙ e)) in
    rw go_on (
      puts_loop_lem rounds (p + 1) n m (pipe_putchar (m p) q) (omega arith)
        (sym (ap m (shift p n)) ∙ nul)
        (λ k l e. before (suc k) (omega arith) (ap m (shift p k) ∙ e)))
  where
    shift : (a b : ℕ) → a + suc b ≡ a + 1 + b
    shift a b = omega arith

short : (r : Regions) (a n : ℕ) → IsAddressable r → IsUser r a (suc n) → n < 2 ^ 32 - a
short r a n d (inl (lo, hi)) = omega (arith, d.appbuf_ok)
short r a n d (inr (lo, hi)) = omega (arith, d.appstack_ok)

-- A call refused for its pointer, with nothing done; or a string in the application's memory, which
-- went to the pipe while that captures, and else to the screen.
pub data PutsOutcome {Screen : Type 0} (terminal_puts : Memory → ℕ → Screen → Screen) (r : Regions)
    (a1 : ℕ) (m : Memory) (p : Pipe) (t : Screen) (result : ℕ × Pipe × Screen) : Type 0 where
  denied :
      user_str_ok r a1 m ≡ false
      → result ≡ (refused, p, t)
      → PutsOutcome terminal_puts r a1 m p t result
  captured :
      (n : ℕ)
      → IsUserString r m a1 n
      → pipe_active p ≡ true
      → result ≡ (0, put_all (bytes_at m a1 n) p, t)
      → PutsOutcome terminal_puts r a1 m p t result
  shown :
      (n : ℕ)
      → IsUserString r m a1 n
      → pipe_active p ≡ false
      → result ≡ (0, p, terminal_puts m a1 t)
      → PutsOutcome terminal_puts r a1 m p t result

-- With regions that end below 4 GB, `sys_puts` either refuses a pointer that `user_str_ok`
-- rejects, and does nothing then; or the pointer is to a string in the application's memory, and
-- while the pipe captures exactly its characters go into the pipe, and else the pointer goes to
-- the screen.
pub sys_puts_lem :
    {Screen : Type 0} (terminal_puts : Memory → ℕ → Screen → Screen)
    (terminal_putchar : ℕ → Screen → Screen) (r : Regions) (a1 : ℕ) (m : Memory) (p : Pipe)
    (t : Screen)
    → IsAddressable r
    → PutsOutcome terminal_puts r a1 m p t (sys_puts terminal_puts terminal_putchar r a1 m p t)
unfolding sys_puts
sys_puts_lem terminal_puts terminal_putchar r a1 m p t d = elim (Bool-cases (user_str_ok r a1 m)) [
  | inr bad ↦ PutsOutcome.denied bad (rw (sys_puts, bad) refl)
  | inl good ↦
      let (n, string) = user_str_ok_lem r a1 m good in
      elim (Bool-cases (pipe_active p)) [
        | inl on ↦ PutsOutcome.captured n string on (
            rw (sys_puts, good, on)
              (ap (λ q. (0, q, t))
                (puts_loop_lem (2 ^ 32 - a1) a1 n m p (short r a1 n d string.user) string.terminated
                  string.characters)))
        | inr off ↦ PutsOutcome.shown n string off (rw (sys_puts, good, off) refl)
      ]
]
