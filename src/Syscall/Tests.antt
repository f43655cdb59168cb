-- ===== src/Syscall/Tests.antt =====
-- The checks at the regions of the linker script.
use gannet_os.Base.{ℕ, ◌≡◌, ◌↔◌, refl, true, false, arith, ◌==◌, if◌then◌else◌}
use gannet_os.Pipe.{boot, pipe_begin}
use gannet_os.Syscall.{
  Regions, Memory, addr_range_in, user_range_ok, region_end, has_nul, user_str_ok, sys_puts,
}
use gannet_os.Syscall.Pointers.{
  IsUser, IsAddressable, IsUserString, user_range_ok_lem, user_str_ok_lem,
}
use gannet_os.Syscall.Puts.{PutsOutcome, sys_puts_lem}

abbrev regions : Regions
regions = record {
  appbuf_start = 0x200000;
  appbuf_end = 0x210000;
  appstack_start = 0x210000;
  appstack_end = 0x218000;
}

regions-IsAddressable : IsAddressable regions
regions-IsAddressable = record { appbuf_ok = omega arith; appstack_ok = omega arith }

user_range_ok_lem_example : (user_range_ok regions 0x20fffc 8 ≡ true) ↔ IsUser regions 0x20fffc 8
user_range_ok_lem_example =
    user_range_ok_lem regions 0x20fffc 8 regions-IsAddressable (omega arith) (omega arith)

-- A span over both regions is refused, and one that wraps around.
over_both : user_range_ok regions 0x20fffc 8 ≡ false
unfolding user_range_ok addr_range_in
over_both = refl

wrapped : user_range_ok regions 0x200000 0xffffffff ≡ false
unfolding user_range_ok addr_range_in
wrapped = refl

-- The end of a region passes with a length of 0.
empty_at_end : user_range_ok regions 0x218000 0 ≡ true
unfolding user_range_ok addr_range_in
empty_at_end = refl

-- "hi" at 0x20fff0.
abbrev memory : Memory
memory a = if a == 0x20fff0 then 0x68 else if a == 0x20fff1 then 0x69 else 0

hi_ok : user_str_ok regions 0x20fff0 memory ≡ true
unfolding user_str_ok region_end has_nul
hi_ok = refl

user_str_ok_lem_example : (n : ℕ) × IsUserString regions memory 0x20fff0 n
user_str_ok_lem_example = user_str_ok_lem regions 0x20fff0 memory hi_ok

abbrev show_nothing : Memory → ℕ → ℕ → ℕ
show_nothing m a t = t

abbrev put_nothing : ℕ → ℕ → ℕ
put_nothing c t = t

sys_puts_lem_example :
    let screen : ℕ = 0 in
    PutsOutcome show_nothing regions 0x20fff0 memory
      (pipe_begin boot)
      screen
      (sys_puts show_nothing put_nothing regions 0x20fff0 memory (pipe_begin boot) screen)
sys_puts_lem_example =
    sys_puts_lem show_nothing put_nothing regions 0x20fff0 memory (pipe_begin boot) 0
      regions-IsAddressable
