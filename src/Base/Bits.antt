-- ===== src/Base/Bits.antt =====
-- Single bits of machine words: reading, setting and clearing one bit of a word.
use Prim.Native.Nat.{
  ℕ, zero, suc, ◌+◌, ◌-◌, ◌*◌, ◌/◌, ◌%◌, ◌^◌, ◌≤◌, ◌<◌, min, max, bit_and, bit_or, digits,
  bit_and-bitwise, bit_or-bitwise,
}
use mathlib.Core.Path.{◌≡◌, refl, ◌∙◌, sym, ap}
use mathlib.Core.Bool.{Bool, true, false}
use native.Mathlib.Nat.{pow-suc, pow-le-pow_right, div-div-eq-div-mul}
use native.Mathlib.Omega.{arith}
use gannet_os.Base.Tests.{◌==◌, if◌then◌else◌}

-- Both word operations are the digit recursion `digits u g`, whose fuel does not matter once it
-- reaches the first word.
module _ (u : ℕ → ℕ) (g : ℕ → ℕ → ℕ) where
  digits_enough : (f b k a : ℕ) → a ≤ f → a ≤ k → digits u g f a b ≡ digits u g k a b
  digits_enough zero b zero zero p q = refl
  digits_enough zero b (suc k) zero p q = refl
  digits_enough zero b k (suc a) p q = absurd (omega arith)
  digits_enough (suc f) b zero zero p q = refl
  digits_enough (suc f) b (suc k) zero p q = refl
  digits_enough (suc f) b zero (suc a) p q = absurd (omega arith)
  digits_enough (suc f) b (suc k) (suc a) p q =
      omega (arith, digits_enough f (b / 2) k (suc a / 2) (omega arith) (omega arith))

-- the digit of weight 2 ^ j
pub bit : ℕ → ℕ → ℕ
bit a zero = a % 2
bit a (suc j) = bit (a / 2) j

bit_and-halves : (a b : ℕ) → bit_and a b ≡ bit_and (a / 2) (b / 2) * 2 + min (a % 2) (b % 2)
bit_and-halves zero b = omega (arith, bit_and-bitwise 0 b, bit_and-bitwise 0 (b / 2))
bit_and-halves (suc a) b =
    let same =
      digits_enough (λ _. 0) min a (b / 2) (suc a / 2) (suc a / 2) (omega arith) (omega arith) in
    omega (arith, bit_and-bitwise (suc a) b, bit_and-bitwise (suc a / 2) (b / 2), same)

bit_or-halves : (a b : ℕ) → bit_or a b ≡ bit_or (a / 2) (b / 2) * 2 + max (a % 2) (b % 2)
bit_or-halves zero b = omega (arith, bit_or-bitwise 0 b, bit_or-bitwise 0 (b / 2))
bit_or-halves (suc a) b =
    let same =
      digits_enough (λ m. m) max a (b / 2) (suc a / 2) (suc a / 2) (omega arith) (omega arith) in
    omega (arith, bit_or-bitwise (suc a) b, bit_or-bitwise (suc a / 2) (b / 2), same)

pub bit-bit_and : (j a b : ℕ) → bit (bit_and a b) j ≡ min (bit a j) (bit b j)
unfolding bit
bit-bit_and zero a b = omega (arith, bit_and-halves a b)
bit-bit_and (suc j) a b =
    ap (λ c. bit c j) (omega (arith, bit_and-halves a b)) ∙ bit-bit_and j (a / 2) (b / 2)

pub bit-bit_or : (j a b : ℕ) → bit (bit_or a b) j ≡ max (bit a j) (bit b j)
unfolding bit
bit-bit_or zero a b = omega (arith, bit_or-halves a b)
bit-bit_or (suc j) a b =
    ap (λ c. bit c j) (omega (arith, bit_or-halves a b)) ∙ bit-bit_or j (a / 2) (b / 2)

pub bit-lt : (j a : ℕ) → bit a j < 2
unfolding bit
bit-lt zero a = omega arith
bit-lt (suc j) a = bit-lt j (a / 2)

pub bit-zero : (j : ℕ) → bit 0 j ≡ 0
unfolding bit
bit-zero zero = refl
bit-zero (suc j) = bit-zero j

-- The word 1 << k.
pub bit-pow : (k j : ℕ) → bit (2 ^ k) j ≡ (if k == j then 1 else 0)
unfolding bit
bit-pow zero zero = refl
bit-pow zero (suc j) = bit-zero j ∙ ground arith
bit-pow (suc k) zero = ground (arith, pow-suc 2 k)
bit-pow (suc k) (suc j) =
    ap (λ c. bit c j) (omega (arith, pow-suc 2 k)) ∙ bit-pow k j ∙ ground arith

-- `~m` in a word of n bits.
pub bit-complement : (n m j : ℕ) → m < 2 ^ n → j < n → bit (2 ^ n - 1 - m) j + bit m j ≡ 1
unfolding bit
bit-complement zero m j p q = absurd (omega arith)
bit-complement (suc n) m zero p q = omega (arith, pow-suc 2 n)
bit-complement (suc n) m (suc j) p q = omega (
  arith,
  ap (λ c. bit c j) half,
  bit-complement n (m / 2) j (omega (arith, pow-suc 2 n)) (omega arith),
)
  where
    half : (2 ^ suc n - 1 - m) / 2 ≡ 2 ^ n - 1 - m / 2
    half = omega (arith, pow-suc 2 n)

bit_or-nothing : (f a : ℕ) → a ≤ f → bit_or a 0 ≡ a
bit_or-nothing f zero p = refl
bit_or-nothing zero (suc a) p = absurd (omega arith)
bit_or-nothing (suc f) (suc a) p =
    omega (arith, bit_or-halves (suc a) 0, bit_or-nothing f (suc a / 2) (omega arith))

nothing-bit_or : (f b : ℕ) → b ≤ f → bit_or 0 b ≡ b
nothing-bit_or f zero p = refl
nothing-bit_or zero (suc b) p = absurd (omega arith)
nothing-bit_or (suc f) (suc b) p =
    omega (arith, bit_or-halves 0 (suc b), nothing-bit_or f (suc b / 2) (omega arith))

-- A word whose low k bits are free takes them from the other word.
pub bit_or-split :
    (k a c b : ℕ) → c < 2 ^ k → b < 2 ^ k → bit_or (a * 2 ^ k + c) b ≡ a * 2 ^ k + bit_or c b
bit_or-split zero a zero zero p q =
    omega (arith, bit_or-nothing (a * 1 + 0) (a * 1 + 0) (omega arith))
bit_or-split zero a (suc c) b p q = absurd (omega arith)
bit_or-split zero a zero (suc b) p q = absurd (omega arith)
bit_or-split (suc k) a c b p q = omega (
  arith,
  pow-suc 2 k,
  double,
  bit_or-halves (a * 2 ^ suc k + c) b,
  bit_or-halves c b,
  ap (λ x. bit_or x (b / 2)) halved,
  bit_or-split k a (c / 2) (b / 2) (omega (arith, pow-suc 2 k)) (omega (arith, pow-suc 2 k)),
)
  where
    double : a * 2 ^ suc k ≡ 2 * (a * 2 ^ k)
    double = ap (λ x. a * x) (pow-suc 2 k) ∙ omega arith

    halved : (a * 2 ^ suc k + c) / 2 ≡ a * 2 ^ k + c / 2
    halved = omega (arith, double)

pub bit_or-add : (k a b : ℕ) → b < 2 ^ k → bit_or (a * 2 ^ k) b ≡ a * 2 ^ k + b
bit_or-add k a b h =
    ap (λ x. bit_or x b) (omega arith)
    ∙ bit_or-split k a 0 b (omega (arith, h)) h
    ∙ ap (λ x. a * 2 ^ k + x) (nothing-bit_or b b (omega arith))

bit_and-zero : (f a : ℕ) → a ≤ f → bit_and a 0 ≡ 0
bit_and-zero f zero p = refl
bit_and-zero zero (suc a) p = absurd (omega arith)
bit_and-zero (suc f) (suc a) p =
    omega (arith, bit_and-halves (suc a) 0, bit_and-zero f (suc a / 2) (omega arith))

pub bit_and-one : (a : ℕ) → bit_and a 1 ≡ a % 2
bit_and-one a = omega (arith, bit_and-halves a 1, bit_and-zero (a / 2) (a / 2) (omega arith))

bit-shift : (j a : ℕ) → bit a j ≡ (a / 2 ^ j) % 2
unfolding bit
bit-shift zero a = omega arith
bit-shift (suc j) a =
    bit-shift j (a / 2)
    ∙ ap (λ c. c % 2)
        (div-div-eq-div-mul a 2 (2 ^ j) ∙ ap (λ c. a / c) (omega (arith, pow-suc 2 j)))

-- One bit of a 32-bit word: `(w >> k) & 1`, `w |= 1u << k` and `w &= ~(1u << k)`.
unfoldable pub test_bit : ℕ → ℕ → Bool
test_bit w k = bit_and (w / 2 ^ k) 1 == 1

unfoldable pub set_bit : ℕ → ℕ → ℕ
set_bit w k = bit_or w (2 ^ k)

unfoldable pub clear_bit : ℕ → ℕ → ℕ
clear_bit w k = bit_and w (2 ^ 32 - 1 - 2 ^ k)

test_bit-bit : (w k : ℕ) → test_bit w k ≡ (bit w k == 1)
unfolding test_bit
test_bit-bit w k = ap (λ c. c == 1) (bit_and-one (w / 2 ^ k) ∙ sym (bit-shift k w))

pub test_bit-zero : (k : ℕ) → test_bit 0 k ≡ false
test_bit-zero k = test_bit-bit 0 k ∙ ap (λ c. c == 1) (bit-zero k)

pub test_bit-set_bit :
    (w k j : ℕ) → test_bit (set_bit w k) j ≡ (if k == j then true else test_bit w j)
unfolding set_bit
test_bit-set_bit w k j = ground (
  arith,
  test_bit-bit (bit_or w (2 ^ k)) j,
  test_bit-bit w j,
  bit-bit_or j w (2 ^ k),
  bit-pow k j,
  bit-lt j w,
)

pow-lt-word : (k : ℕ) → k < 32 → 2 ^ k < 2 ^ 32
pow-lt-word k h =
    omega (arith, pow-le-pow_right {n = 2} (omega arith) {i = k} {j = 31} (omega arith))

pub test_bit-clear_bit :
    (w k j : ℕ)
    → k < 32
    → j < 32
    → test_bit (clear_bit w k) j ≡ (if k == j then false else test_bit w j)
unfolding clear_bit
test_bit-clear_bit w k j p q = ground (
  arith,
  test_bit-bit (bit_and w (2 ^ 32 - 1 - 2 ^ k)) j,
  test_bit-bit w j,
  bit-bit_and j w (2 ^ 32 - 1 - 2 ^ k),
  bit-complement 32 (2 ^ k) j (pow-lt-word k p) q,
  bit-pow k j,
  bit-lt j w,
)
