-- ===== src/Net/Checksum.antt =====
-- The Internet checksum of ipv4.c. A region of memory is the list of its bytes, of which there are
-- as many as `len` says.
pub mod Sum
pub mod Detects
use gannet_os.Base.{
  ℕ, zero, suc, ◌+◌, ◌-◌, ◌*◌, ◌/◌, ◌%◌, ◌^◌, List, [], ◌∷◌, ◌++◌, ◌==◌, if◌then◌else◌, bit_or,
  length,
}
use gannet_os.Net.Bytes.{net_swap16, net_swap32, store16, store32}

-- `checksum_accumulate`, in a `uint32_t`.
unfoldable pub accumulate : List ℕ → ℕ → ℕ
accumulate [] sum = sum
accumulate (b ∷ []) sum = (sum + b * 256) % 2 ^ 32
accumulate (b ∷ c ∷ bytes) sum = accumulate bytes ((sum + bit_or (b * 256) c) % 2 ^ 32)

-- `while (sum >> 16)`, for at most the given number of passes.
unfoldable pub fold_carries : ℕ → ℕ → ℕ
fold_carries zero sum = sum
fold_carries (suc passes) sum =
    let rest = fold_carries passes ((sum % 2 ^ 16 + sum / 2 ^ 16) % 2 ^ 32) in
    if sum / 2 ^ 16 == 0 then sum else rest

-- Two passes are enough for any `uint32_t`.
unfoldable pub checksum_finish : ℕ → ℕ
checksum_finish sum = 2 ^ 16 - 1 - fold_carries 2 sum % 2 ^ 16

unfoldable pub ipv4_checksum : List ℕ → ℕ
ipv4_checksum bytes = checksum_finish (accumulate bytes 0)

-- The packed struct that `ipv4_checksum_pseudo` builds on its stack.
unfoldable pub pseudo_header : (src_ip dst_ip protocol segment_len : ℕ) → List ℕ
pseudo_header src_ip dst_ip protocol segment_len =
    store32 (net_swap32 src_ip)
    ++ store32 (net_swap32 dst_ip)
    ++ (0 ∷ protocol ∷ [])
    ++ store16 (net_swap16 segment_len)

unfoldable pub ipv4_checksum_pseudo : (src_ip dst_ip protocol : ℕ) → List ℕ → ℕ
ipv4_checksum_pseudo src_ip dst_ip protocol segment =
    checksum_finish
      (accumulate segment (accumulate (pseudo_header src_ip dst_ip protocol (length segment)) 0))
