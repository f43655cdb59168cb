-- ===== src/Net/Checksum/Detects.antt =====
-- The checksum of ipv4.c in use: filled into a region, checked over a changed one, and over a
-- pseudo-header.
use gannet_os.Base.{
  ℕ, ◌+◌, ◌*◌, ◌/◌, ◌%◌, ◌^◌, ◌<◌, ◌≡◌, ◌≢◌, refl, sym, ap, ◌∙◌, List, ◌++◌, arith, length,
  length-set, set, get_or, Bool-cases, inl, inr, ◌==◌, if◌then◌else◌,
}
use gannet_os.Net.Checksum.{checksum_finish, ipv4_checksum, pseudo_header, ipv4_checksum_pseudo}
use gannet_os.Net.Bytes.{store16, store32, net_swap16, net_swap16-sum}
use gannet_os.Net.Checksum.Sum.{
  accumulate-append, Bytes-set, get_or-lt, IsRegion, word_sum, word_sum-append, word_sum-set,
  checksum_zero, checksum_complement,
}

-- `hdr->checksum = htons(c)` at an even offset.
abbrev pub with_checksum : List ℕ → ℕ → List ℕ → List ℕ
with_checksum before c behind = before ++ (store16 (net_swap16 c) ++ behind)

pub word_sum-with_checksum :
    (before behind : List ℕ) (c : ℕ)
    → length before % 2 ≡ 0
    → c < 2 ^ 16
    → word_sum (with_checksum before c behind) ≡ word_sum before + c + word_sum behind
unfolding word_sum store16
word_sum-with_checksum before behind c even h =
    word_sum-append before (store16 (net_swap16 c) ++ behind) even
    ∙ ap (λ x. word_sum before + x) (pair (net_swap16 c))
    ∙ omega (arith, net_swap16-sum c h)
  where
    pair :
        (x : ℕ) → word_sum (store16 x ++ behind) ≡ x % 256 * 256 + x / 256 % 256 + word_sum behind
    pair x = refl

-- A region of fewer than 65536 bytes whose checksum field, at an even offset, was zero and then
-- gets the checksum of the whole region verifies: its checksum is 0.
pub ipv4_checksum-with_checksum :
    (before behind : List ℕ)
    → length before % 2 ≡ 0
    → IsRegion (with_checksum before 0 behind)
    → IsRegion (with_checksum before (ipv4_checksum (with_checksum before 0 behind)) behind)
    → ipv4_checksum (with_checksum before (ipv4_checksum (with_checksum before 0 behind)) behind)
      ≡ 0
ipv4_checksum-with_checksum before behind even p q =
    let (lt, multiple, some') = checksum_complement (with_checksum before 0 behind) p in
    let blank = word_sum-with_checksum before behind 0 even (omega arith) in
    let filled =
      word_sum-with_checksum before behind (ipv4_checksum (with_checksum before 0 behind)) even
        lt in
    (checksum_zero (with_checksum before (ipv4_checksum (with_checksum before 0 behind)) behind)
        q).1
      (omega (arith, blank, filled, multiple), λ e. omega (arith, blank, filled, some', e))

-- A region of fewer than 65536 bytes that verifies does not verify any more once one of its bytes
-- has become a different byte.
pub ipv4_checksum-set :
    (bytes : List ℕ) (i v : ℕ)
    → IsRegion bytes
    → ipv4_checksum bytes ≡ 0
    → i < length bytes
    → v < 256
    → v ≢ get_or bytes i 0
    → ipv4_checksum (set bytes i v) ≢ 0
ipv4_checksum-set bytes i v p good i_in v_in differ bad =
    let (m, n) = (checksum_zero bytes p).0 good in
    let (m', n') = (checksum_zero (set bytes i v) changed).0 bad in
    let moved = word_sum-set bytes i v i_in in
    let lt = get_or-lt bytes i p.bytes_ok in
    elim (Bool-cases (i % 2 == 0)) [
      | inl high ↦ omega (
        arith,
        m,
        m',
        ap (λ b. word_sum (set bytes i v) + (if b then 256 else 1) * get_or bytes i 0) high,
        ap (λ b. word_sum bytes + (if b then 256 else 1) * v) high,
        moved,
        lt,
        differ,
      )
      | inr low ↦ omega (
        arith,
        m,
        m',
        ap (λ b. word_sum (set bytes i v) + (if b then 256 else 1) * get_or bytes i 0) low,
        ap (λ b. word_sum bytes + (if b then 256 else 1) * v) low,
        moved,
        lt,
        differ,
      )
    ]
  where
    changed : IsRegion (set bytes i v)
    changed = record {
      bytes_ok = Bytes-set bytes i v p.bytes_ok v_in;
      size = omega (arith, p.size, length-set bytes i v);
    }

-- The checksum over a pseudo-header is the checksum of the pseudo-header and the segment put
-- together.
pub ipv4_checksum_pseudo_lem :
    (src_ip dst_ip protocol : ℕ) (segment : List ℕ)
    → ipv4_checksum_pseudo src_ip dst_ip protocol segment
      ≡ ipv4_checksum (pseudo_header src_ip dst_ip protocol (length segment) ++ segment)
unfolding ipv4_checksum_pseudo ipv4_checksum pseudo_header store16 store32
ipv4_checksum_pseudo_lem src_ip dst_ip protocol segment = ap checksum_finish (
    sym (
      accumulate-append (pseudo_header src_ip dst_ip protocol (length segment)) segment 0
        (omega arith)))
