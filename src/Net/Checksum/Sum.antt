-- ===== src/Net/Checksum/Sum.antt =====
-- The sums of checksum_accumulate and checksum_finish of ipv4.c as numbers.
use gannet_os.Base.{
  ℕ, zero, suc, ◌+◌, ◌*◌, ◌%◌, ◌^◌, ◌≤◌, ◌<◌, ◌≡◌, refl, ap, ◌∙◌, List, [], ◌∷◌, ◌++◌, arith,
  length, ◌↔◌, ◌≢◌, set, get_or, ◌==◌, if◌then◌else◌, bit_or, bit_or-add,
}
use gannet_os.Net.Checksum.{accumulate, fold_carries, checksum_finish, ipv4_checksum}
use gannet_os.Net.Bytes.{store16, store32}

-- Every element is a byte.
abbrev pub Bytes : List ℕ → Type 0
Bytes [] = 0 ≤ 0
Bytes (b ∷ bs) = (b < 256) × Bytes bs

pub Bytes-append : (xs ys : List ℕ) → Bytes xs → Bytes ys → Bytes (xs ++ ys)
Bytes-append [] ys p q = q
Bytes-append (x ∷ xs) ys (b, p) q = (b, Bytes-append xs ys p q)

pub Bytes-store16 : (v : ℕ) → Bytes (store16 v)
unfolding store16
Bytes-store16 v = (omega arith, (omega arith, omega arith))

pub Bytes-store32 : (v : ℕ) → Bytes (store32 v)
unfolding store32
Bytes-store32 v = (omega arith, (omega arith, (omega arith, (omega arith, omega arith))))

pub Bytes-set : (bytes : List ℕ) (i v : ℕ) → Bytes bytes → v < 256 → Bytes (set bytes i v)
Bytes-set [] i v p h = p
Bytes-set (b ∷ bs) zero v (q, p) h = (h, p)
Bytes-set (b ∷ bs) (suc i) v (q, p) h = (q, Bytes-set bs i v p h)

pub get_or-lt : (bytes : List ℕ) (i : ℕ) → Bytes bytes → get_or bytes i 0 < 256
get_or-lt [] i p = omega arith
get_or-lt (b ∷ bs) zero (q, p) = q
get_or-lt (b ∷ bs) (suc i) (q, p) = get_or-lt bs i p

-- Regions can be summed one after the other where the seam lies behind an even number of bytes.
pub accumulate-append :
    (xs ys : List ℕ) (sum : ℕ)
    → length xs % 2 ≡ 0
    → accumulate (xs ++ ys) sum ≡ accumulate ys (accumulate xs sum)
unfolding accumulate
accumulate-append [] ys sum h = refl
accumulate-append (x ∷ []) ys sum h = absurd (omega arith)
accumulate-append (x ∷ y ∷ xs) ys sum h =
    accumulate-append xs ys ((sum + bit_or (x * 256) y) % 2 ^ 32) (omega (arith, h))

-- The sum of the 16-bit words, with no wrap-around; an odd byte counts as a high one.
unfoldable pub word_sum : List ℕ → ℕ
word_sum [] = 0
word_sum (b ∷ []) = b * 256
word_sum (b ∷ c ∷ bytes) = b * 256 + c + word_sum bytes

pub word_sum-le : (bytes : List ℕ) → Bytes bytes → word_sum bytes ≤ 65535 * length bytes
unfolding word_sum
word_sum-le [] p = omega arith
word_sum-le (b ∷ []) (h, p) = omega arith
word_sum-le (b ∷ c ∷ bytes) (h, (k, p)) = omega (arith, word_sum-le bytes p)

-- No sum wraps over the at most 65535 bytes that a `uint16_t` counts.
pub accumulate-word_sum :
    (bytes : List ℕ) (sum : ℕ)
    → Bytes bytes
    → sum + 65535 * length bytes < 2 ^ 32
    → accumulate bytes sum ≡ sum + word_sum bytes
unfolding accumulate word_sum
accumulate-word_sum [] sum p h = omega arith
accumulate-word_sum (b ∷ []) sum (q, p) h = omega arith
accumulate-word_sum (b ∷ c ∷ bytes) sum (q, (r, p)) h =
    ap (accumulate bytes) next
    ∙ accumulate-word_sum bytes (sum + (b * 256 + c)) p (omega (arith, h))
    ∙ omega arith
  where
    next : (sum + bit_or (b * 256) c) % 2 ^ 32 ≡ sum + (b * 256 + c)
    next = omega (arith, bit_or-add 8 b c (omega arith), h)

-- The loop ends after two passes, and folding keeps the sum modulo 2 ^ 16 - 1 and nonzero.
pub fold_carries_lem :
    (sum : ℕ)
    → sum < 2 ^ 32
    → (fold_carries 2 sum < 2 ^ 16)
      × (fold_carries 2 sum % 65535 ≡ sum % 65535)
      × (fold_carries 2 sum ≤ sum)
      × ((fold_carries 2 sum ≡ 0) → sum ≡ 0)
unfolding fold_carries
fold_carries_lem sum h = (ground arith, ground arith, ground arith, λ e. ground arith)

pub accumulate-lt : (bytes : List ℕ) (sum : ℕ) → sum < 2 ^ 32 → accumulate bytes sum < 2 ^ 32
unfolding accumulate
accumulate-lt [] sum h = h
accumulate-lt (b ∷ []) sum h = omega arith
accumulate-lt (b ∷ c ∷ bytes) sum h =
    accumulate-lt bytes ((sum + bit_or (b * 256) c) % 2 ^ 32) (omega arith)

-- A region of bytes that a `uint16_t` can count.
pub record IsRegion (bytes : List ℕ) : Type 0 where
  pub bytes_ok : Bytes bytes
  pub size : length bytes < 2 ^ 16

-- The checksum of a region is zero exactly when its words add up to a nonzero multiple of
-- 2 ^ 16 - 1.
pub checksum_zero :
    (bytes : List ℕ)
    → IsRegion bytes
    → (ipv4_checksum bytes ≡ 0) ↔ ((word_sum bytes % 65535 ≡ 0) × (word_sum bytes ≢ 0))
unfolding ipv4_checksum checksum_finish
checksum_zero bytes p =
    let total = accumulate-word_sum bytes 0 p.bytes_ok (omega (arith, p.size)) in
    let small = accumulate-lt bytes 0 (omega arith) in
    let (lt, same, le, nonzero) = fold_carries_lem (accumulate bytes 0) small in
    let absent : word_sum bytes ≢ 0 → fold_carries 2 (accumulate bytes 0) ≢ 0 =
      λ n e. omega (arith, total, nonzero e, n) in
    (
      λ h. (omega (arith, total, same, lt, h), λ e. omega (arith, total, le, lt, h, e)),
      λ (m, n). omega (arith, total, same, lt, m, absent n),
    )

-- The checksum and the sum of the words add up to a multiple of 2 ^ 16 - 1.
pub checksum_complement :
    (bytes : List ℕ)
    → IsRegion bytes
    → (ipv4_checksum bytes < 2 ^ 16)
      × ((word_sum bytes + ipv4_checksum bytes) % 65535 ≡ 0)
      × (word_sum bytes + ipv4_checksum bytes ≢ 0)
unfolding ipv4_checksum checksum_finish
checksum_complement bytes p =
    let total = accumulate-word_sum bytes 0 p.bytes_ok (omega (arith, p.size)) in
    let small = accumulate-lt bytes 0 (omega arith) in
    let (lt, same, le, nonzero) = fold_carries_lem (accumulate bytes 0) small in
    (omega arith, omega (arith, total, same, lt), λ e. omega (arith, total, le, lt, e))

-- Words do not straddle the seam behind an even number of bytes.
pub word_sum-append :
    (xs ys : List ℕ) → length xs % 2 ≡ 0 → word_sum (xs ++ ys) ≡ word_sum xs + word_sum ys
unfolding word_sum
word_sum-append [] ys h = omega arith
word_sum-append (x ∷ []) ys h = absurd (omega arith)
word_sum-append (x ∷ y ∷ xs) ys h = omega (arith, word_sum-append xs ys (omega (arith, h)))

-- What byte `i` counts for.
abbrev pub weight : ℕ → ℕ
weight i = if i % 2 == 0 then 256 else 1

pub word_sum-set :
    (bytes : List ℕ) (i v : ℕ)
    → i < length bytes
    → word_sum (set bytes i v) + weight i * get_or bytes i 0 ≡ word_sum bytes + weight i * v
unfolding word_sum
word_sum-set [] i v h = absurd (omega arith)
word_sum-set (b ∷ []) zero v h = omega arith
word_sum-set (b ∷ []) (suc i) v h = absurd (omega arith)
word_sum-set (b ∷ c ∷ bytes) zero v h = omega arith
word_sum-set (b ∷ c ∷ bytes) (suc zero) v h = omega arith
word_sum-set (b ∷ c ∷ bytes) (suc (suc i)) v h =
    let same : weight (suc (suc i)) ≡ weight i =
      ap (λ r. if r == 0 then 256 else 1) (omega arith) in
    rw same (omega (arith, word_sum-set bytes i v (omega (arith, h))))
