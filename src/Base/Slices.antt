-- ===== src/Base/Slices.antt =====
-- Parts of arrays of bytes, read place by place: a place past the end reads as 0.
use Prim.Native.Nat.{ℕ, zero, suc, ◌+◌, ◌-◌, ◌≤◌, ◌<◌, max}
use mathlib.Core.Path.{◌≡◌, refl, ap, ◌∙◌, sym}
use mathlib.Core.Logic.{◌⊎◌, inl, inr}
use mathlib.Core.Bool.{◌&&◌}
use mathlib.Core.List.{List, [], ◌∷◌, ◌++◌}
use native.Mathlib.Omega.{arith}
use gannet_os.Base.Tests.{ltb, leb, if◌then◌else◌}
use gannet_os.Base.Lists.{length, get_or, take, drop, length-append, length-take, length-drop}

pub get_or-past : (xs : List ℕ) (k : ℕ) → length xs ≤ k → get_or xs k 0 ≡ 0
get_or-past [] k h = refl
get_or-past (x ∷ xs) zero h = absurd (omega arith)
get_or-past (x ∷ xs) (suc k) h = get_or-past xs k (omega arith)

pub get_or-append :
    (xs ys : List ℕ) (k : ℕ)
    → get_or (xs ++ ys) k 0
      ≡ (if ltb k (length xs) then get_or xs k 0 else get_or ys (k - length xs) 0)
get_or-append [] ys k = ground arith
get_or-append (x ∷ xs) ys zero = ground arith
get_or-append (x ∷ xs) ys (suc k) = ground (arith, get_or-append xs ys k)

pub get_or-drop : (n : ℕ) (xs : List ℕ) (k : ℕ) → get_or (drop n xs) k 0 ≡ get_or xs (n + k) 0
get_or-drop zero xs k = ap (λ j. get_or xs j 0) (omega arith)
get_or-drop (suc n) [] k = refl
get_or-drop (suc n) (x ∷ xs) k =
    get_or-drop n xs k
    ∙ (let up : suc (n + k) ≡ suc n + k = omega arith in ap (λ j. get_or (x ∷ xs) j 0) up)

pub get_or-take_of :
    (n : ℕ) (xs : List ℕ) (k : ℕ) → get_or (take n xs) k 0 ≡ (if ltb k n then get_or xs k 0 else 0)
get_or-take_of zero xs k = ground arith
get_or-take_of (suc n) [] k = ground arith
get_or-take_of (suc n) (x ∷ xs) zero = ground arith
get_or-take_of (suc n) (x ∷ xs) (suc k) = ground (arith, get_or-take_of n xs k)

pub drop-prefix : (xs ys : List ℕ) → drop (length xs) (xs ++ ys) ≡ ys
drop-prefix [] ys = refl
drop-prefix (x ∷ xs) ys = drop-prefix xs ys

-- Arrays of one length with the same bytes are equal.
pub eq_of_get_or :
    (xs ys : List ℕ)
    → length xs ≡ length ys
    → ((k : ℕ) → k < length xs → get_or xs k 0 ≡ get_or ys k 0)
    → xs ≡ ys
eq_of_get_or [] [] e h = refl
eq_of_get_or [] (y ∷ ys) e h = absurd (omega arith)
eq_of_get_or (x ∷ xs) [] e h = absurd (omega arith)
eq_of_get_or (x ∷ xs) (y ∷ ys) e h =
    let first : x ≡ y = h 0 (omega arith) in
    let others : xs ≡ ys = eq_of_get_or xs ys (omega arith) (λ k p. h (suc k) (omega arith)) in cc

-- `mem_copy(d + off, s, n)` for the `n` bytes of `s`.
unfoldable pub mem_copy : List ℕ → ℕ → List ℕ → List ℕ
mem_copy d off s = take off d ++ (s ++ drop (off + length s) d)

module _ (d : List ℕ) (off : ℕ) (s : List ℕ) (fits : off + length s ≤ length d) where
  pub length-mem_copy : length (mem_copy d off s) ≡ length d
  unfolding mem_copy
  length-mem_copy = omega (
    arith,
    length-append (take off d) (s ++ drop (off + length s) d),
    length-append s (drop (off + length s) d),
    length-take off d,
    length-drop (off + length s) d,
  )

  pub get_or-mem_copy :
      (k : ℕ)
      → get_or (mem_copy d off s) k 0
        ≡ (if leb off k && ltb k (off + length s) then get_or s (k - off) 0 else get_or d k 0)
  unfolding mem_copy
  get_or-mem_copy k = ground (
    arith,
    length-take off d,
    get_or-append (take off d) (s ++ drop (off + length s) d) k,
    get_or-take_of off d k,
    get_or-append s (drop (off + length s) d) (k - length (take off d)),
    get_or-drop (off + length s) d (k - length (take off d) - length s),
    ap (λ j. get_or s j 0) index,
    ap (λ j. get_or d j 0) behind,
  )
    where
      index : k - length (take off d) ≡ k - off
      index = omega (arith, length-take off d)

      behind : off + length s + (k - length (take off d) - length s) ≡ max (off + length s) k
      behind = omega (arith, length-take off d)

-- The same where the bytes may reach past the end of the array, which then grows.
module _ (d : List ℕ) (off : ℕ) (s : List ℕ) (starts : off ≤ length d) where
  pub length-mem_copy_grow : length (mem_copy d off s) ≡ max (length d) (off + length s)
  unfolding mem_copy
  length-mem_copy_grow = omega (
    arith,
    length-append (take off d) (s ++ drop (off + length s) d),
    length-append s (drop (off + length s) d),
    length-take off d,
    length-drop (off + length s) d,
  )

  pub get_or-mem_copy_grow :
      (k : ℕ)
      → get_or (mem_copy d off s) k 0
        ≡ (if leb off k && ltb k (off + length s) then get_or s (k - off) 0 else get_or d k 0)
  unfolding mem_copy
  get_or-mem_copy_grow k = ground (
    arith,
    length-take off d,
    get_or-append (take off d) (s ++ drop (off + length s) d) k,
    get_or-take_of off d k,
    get_or-append s (drop (off + length s) d) (k - length (take off d)),
    get_or-drop (off + length s) d (k - length (take off d) - length s),
    ap (λ j. get_or s j 0) index,
    ap (λ j. get_or d j 0) behind,
  )
    where
      index : k - length (take off d) ≡ k - off
      index = omega (arith, length-take off d)

      behind : off + length s + (k - length (take off d) - length s) ≡ max (off + length s) k
      behind = omega (arith, length-take off d)

-- The part of an array from `off` on.
abbrev pub slice : ℕ → ℕ → List ℕ → List ℕ
slice off n xs = take n (drop off xs)

pub length-slice : (off n : ℕ) (xs : List ℕ) → off + n ≤ length xs → length (slice off n xs) ≡ n
length-slice off n xs h = omega (arith, length-take n (drop off xs), length-drop off xs)

pub get_or-slice :
    (off n : ℕ) (xs : List ℕ) (k : ℕ) → k < n → get_or (slice off n xs) k 0 ≡ get_or xs (off + k) 0
get_or-slice off n xs k h = ground (arith, get_or-take_of n (drop off xs) k, get_or-drop off xs k)

module _ (d : List ℕ) (off : ℕ) (s : List ℕ) (fits : off + length s ≤ length d) where
  -- What was copied is at its place, and the parts before and behind it stay.
  pub slice-mem_copy_self : slice off (length s) (mem_copy d off s) ≡ s
  slice-mem_copy_self = eq_of_get_or _ _ measured λ k h.
      get_or-slice off (length s) (mem_copy d off s) k (omega (arith, measured))
      ∙ get_or-mem_copy d off s fits (off + k)
      ∙ inside k (omega (arith, measured))
    where
      measured : length (slice off (length s) (mem_copy d off s)) ≡ length s
      measured =
          length-slice off (length s) (mem_copy d off s)
            (omega (arith, length-mem_copy d off s fits))

      back : (k : ℕ) → off + k - off ≡ k
      back k = omega arith

      inside :
          (k : ℕ)
          → k < length s
          → (if leb off (off + k) && ltb (off + k) (off + length s)
              then get_or s (off + k - off) 0
              else get_or d (off + k) 0)
            ≡ get_or s k 0
      inside k h = ground (arith, ap (λ j. get_or s j 0) (back k))

  pub slice-mem_copy_apart :
      (i n : ℕ)
      → i + n ≤ length d
      → (i + n ≤ off) ⊎ (off + length s ≤ i)
      → slice i n (mem_copy d off s) ≡ slice i n d
  slice-mem_copy_apart i n h apart = eq_of_get_or _ _ (measured ∙ sym (length-slice i n d h)) λ k p.
      get_or-slice i n (mem_copy d off s) k (omega (arith, measured))
      ∙ get_or-mem_copy d off s fits (i + k)
      ∙ outside k (omega (arith, measured))
      ∙ sym (get_or-slice i n d k (omega (arith, measured)))
    where
      measured : length (slice i n (mem_copy d off s)) ≡ n
      measured = length-slice i n (mem_copy d off s) (omega (arith, length-mem_copy d off s fits))

      outside :
          (k : ℕ)
          → k < n
          → (if leb off (i + k) && ltb (i + k) (off + length s)
              then get_or s (i + k - off) 0
              else get_or d (i + k) 0)
            ≡ get_or d (i + k) 0
      outside k p = elim apart [ inl before ↦ ground arith | inr after ↦ ground arith ]
