-- ===== src/Syscall/Pointers.antt =====
-- What the checks of an application's pointers accept.
use gannet_os.Base.{
  ℕ, zero, suc, ◌+◌, ◌-◌, ◌^◌, ◌≤◌, ◌<◌, ◌≡◌, ◌≢◌, ◌↔◌, ◌⊎◌, inl, inr, sym, ap, ◌∙◌, true, false,
  some, arith, ◌==◌, ==_iff, Bool-cases, Option-cases,
}
use gannet_os.Syscall.{
  Regions, Memory, addr_range_in, user_range_ok, region_end, has_nul, user_str_ok,
}

-- The span of `len` bytes from `ptr` on lies in one of the two regions.
abbrev pub IsUser : Regions → (ptr len : ℕ) → Type 0
IsUser r ptr len =
    ((r.appbuf_start ≤ ptr) × (ptr + len ≤ r.appbuf_end))
    ⊎ ((r.appstack_start ≤ ptr) × (ptr + len ≤ r.appstack_end))

-- The regions are of a 32-bit address space.
pub record IsAddressable (r : Regions) : Type 0 where
  pub appbuf_ok : r.appbuf_end < 2 ^ 32
  pub appstack_ok : r.appstack_end < 2 ^ 32

addr_range_in_lem :
    (ptr len start end' : ℕ)
    → ptr < 2 ^ 32
    → len < 2 ^ 32
    → end' < 2 ^ 32
    → (addr_range_in ptr len start end' ≡ true) ↔ ((start ≤ ptr) × (ptr + len ≤ end'))
unfolding addr_range_in
addr_range_in_lem ptr len start end' p l e =
    (λ h. (ground arith, ground arith), λ (lo, hi). ground arith)

-- With regions that end below 4 GB, `user_range_ok` accepts a 32-bit pointer and length exactly
-- when the whole span lies in one of the two regions of the application, with no wrap-around of
-- the addresses. The end counts as inside for a length of 0, so the address one past a region is
-- accepted with it.
pub user_range_ok_lem :
    (r : Regions) (ptr len : ℕ)
    → IsAddressable r
    → ptr < 2 ^ 32
    → len < 2 ^ 32
    → (user_range_ok r ptr len ≡ true) ↔ IsUser r ptr len
unfolding user_range_ok
user_range_ok_lem r ptr len d p l =
    let buf = addr_range_in_lem ptr len r.appbuf_start r.appbuf_end p l d.appbuf_ok in
    let stack = addr_range_in_lem ptr len r.appstack_start r.appstack_end p l d.appstack_ok in
    (
      λ h. elim (Bool-cases (addr_range_in ptr len r.appbuf_start r.appbuf_end)) [
        | inl inside ↦ inl (buf.0 inside)
        | inr outside ↦ inr (stack.0 (ground arith))
      ],
      λ u. elim u [
        | inl inside ↦ let e = buf.1 inside in ground arith
        | inr inside ↦ let e = stack.1 inside in ground arith
      ],
    )

-- A string of `n` characters and its terminator at `ptr`, all in one region of the application.
pub record IsUserString (r : Regions) (m : Memory) (ptr n : ℕ) : Type 0 where
  pub user : IsUser r ptr (suc n)
  pub terminated : m (ptr + n) ≡ 0
  pub characters : (k : ℕ) → k < n → m (ptr + k) ≢ 0

-- The first terminator among the bytes that are looked at.
record FirstNul (left p : ℕ) (m : Memory) (n : ℕ) : Type 0 where
  within : n < left
  nul : m (p + n) ≡ 0
  before : (k : ℕ) → k < n → m (p + k) ≢ 0

has_nul_lem : (left p : ℕ) (m : Memory) → has_nul left p m ≡ true → (n : ℕ) × FirstNul left p m n
unfolding has_nul
has_nul_lem zero p m h = cc
has_nul_lem (suc left) p m h = elim (Bool-cases (m p == 0)) [
  | inl here ↦
      let front : p + 0 ≡ p = omega arith in
      (
        0,
        record {
          within = omega arith;
          nul = ap m front ∙ (==_iff (m p) 0).0 here;
          before = λ k q. absurd (omega arith);
        },
      )
  | inr later ↦
      let (n, first) = has_nul_lem left (p + 1) m (ground arith) in
      (
        suc n,
        record {
          within = omega (arith, first.within);
          nul = ap m (shift p n) ∙ first.nul;
          before = λ k q. before_all later n first k q;
        },
      )
]
  where
    shift : (a b : ℕ) → a + suc b ≡ a + 1 + b
    shift a b = omega arith

    before_all :
        (m p == 0) ≡ false
        → (n : ℕ) → FirstNul left (p + 1) m n
        → (k : ℕ) → k < suc n
        → m (p + k) ≢ 0
    before_all later n first zero q e =
        let front : p + 0 ≡ p = omega arith in let same = ap m front in ground arith
    before_all later n first (suc k) q e = first.before k (omega arith) (sym (ap m (shift p k)) ∙ e)

region_end_lem :
    (r : Regions) (ptr end' n : ℕ)
    → region_end r ptr ≡ some end'
    → n < end' - ptr
    → IsUser r ptr (suc n)
unfolding region_end
region_end_lem r ptr end' n e h = ground arith

-- A string that `user_str_ok` accepts lies, with its terminator, in one region of the application.
pub user_str_ok_lem :
    (r : Regions) (ptr : ℕ) (m : Memory)
    → user_str_ok r ptr m ≡ true
    → (n : ℕ) × IsUserString r m ptr n
unfolding user_str_ok
user_str_ok_lem r ptr m h = elim (Option-cases (region_end r ptr)) [
  | inl outside ↦ absurd (ground arith)
  | inr (end', inside) ↦
      let (n, first) = has_nul_lem (end' - ptr) ptr m (ground arith) in
      (
        n,
        record {
          user = region_end_lem r ptr end' n inside first.within;
          terminated = first.nul;
          characters = first.before;
        },
      )
]
