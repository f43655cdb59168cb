-- ===== src/Net/Arp.antt =====
-- Address resolution, link_layer/arp.c. A MAC address is the list of its six bytes.
pub mod Search
pub mod Cache
pub mod Reply
use gannet_os.Base.{
  ℕ, zero, suc, ◌+◌, ◌*◌, ◌%◌, ◌^◌, Bool, true, false, not, ◌&&◌, ◌||◌, Option, none, some, List,
  [], ◌∷◌, ◌++◌, ltb, ◌==◌, if◌then◌else◌, length, get_or, set, take, drop, replicate,
}
use gannet_os.Net.Bytes.{net_swap16, net_swap32, store16, store32, load16, load32}

abbrev pub arp_cache_size : ℕ
arp_cache_size = 16

abbrev pub eth_addr_len : ℕ
eth_addr_len = 6

abbrev pub arp_packet_len : ℕ
arp_packet_len = 28

-- `struct arp_entry`; an `ip` of 0 means an unused slot.
pub record Entry : Type 0 where
  pub ip : ℕ
  pub mac : List ℕ
  pub learned_tick : ℕ

abbrev pub blank : Entry
blank = record { ip = 0; mac = []; learned_tick = 0 }

unfoldable pub arp_init : List Entry → List Entry
arp_init [] = []
arp_init (e ∷ es) = record e { ip = 0; learned_tick = 0 } ∷ arp_init es

-- The first entry with an address, from slot `i` on: both searches of `cache_learn`.
unfoldable pub find_ip : List Entry → (i ip : ℕ) → Option ℕ
find_ip [] i ip = none
find_ip (e ∷ es) i ip = if e.ip == ip then some i else find_ip es (i + 1) ip

-- The loop that looks for the entry learned longest ago, from slot `i` on.
unfoldable pub find_oldest : List Entry → (i oldest_tick slot : ℕ) → ℕ
find_oldest [] i oldest_tick slot = slot
find_oldest (e ∷ es) i oldest_tick slot =
    let newer = find_oldest es (i + 1) oldest_tick slot in
    let older = find_oldest es (i + 1) e.learned_tick i in
    if ltb e.learned_tick oldest_tick then older else newer

-- The slot that `cache_learn` writes to.
unfoldable pub learn_slot : (ip : ℕ) → List Entry → ℕ
learn_slot ip cache = elim (find_ip cache 0 ip) [
  | some known ↦ known
  | none ↦ elim (find_ip cache 0 0) [
    | some free ↦ free
    | none ↦ find_oldest (drop 1 cache) 1 (get_or cache 0 blank).learned_tick 0
  ]
]

-- `cache_learn`, at the time `now`.
unfoldable pub cache_learn : (now ip : ℕ) (mac : List ℕ) → List Entry → List Entry
cache_learn now ip mac cache =
    if ip == 0
    then cache
    else set cache (learn_slot ip cache) (record { ip = ip; mac = mac; learned_tick = now })

unfoldable pub cache_lookup : (ip : ℕ) → List Entry → Option (List ℕ)
cache_lookup ip [] = none
cache_lookup ip (e ∷ es) = if e.ip == ip then some e.mac else cache_lookup ip es

-- `struct arp_packet`, as `send_arp` fills it in.
unfoldable pub arp_packet : (oper : ℕ) (sha : List ℕ) (spa : ℕ) (tha : List ℕ) (tpa : ℕ) → List ℕ
arp_packet oper sha spa tha tpa =
    store16 (net_swap16 1)
    ++ store16 (net_swap16 0x0800)
    ++ (6 ∷ 4 ∷ [])
    ++ store16 (net_swap16 oper)
    ++ sha
    ++ store32 (net_swap32 spa)
    ++ tha
    ++ store32 (net_swap32 tpa)

-- A frame that `send_arp` gives to `ethernet_send`.
pub record Sent : Type 0 where
  pub dest_mac : List ℕ
  pub packet : List ℕ

-- `arp_handle_frame`: the cache that it leaves, and the reply that it sends.
unfoldable pub arp_handle_frame :
    (own_mac : List ℕ) (local_ip now : ℕ)
    → (payload src_mac : List ℕ) → List Entry
    → Option Sent × List Entry
arp_handle_frame own_mac local_ip now payload src_mac cache =
    let sender_ip = net_swap32 (load32 payload 14) in
    let learned = cache_learn now sender_ip src_mac cache in
    let reply : Sent = record {
      dest_mac = src_mac;
      packet = arp_packet 2 own_mac local_ip (take 6 (drop 8 payload)) sender_ip;
    } in
    if ltb (length payload) arp_packet_len
    then (none, cache)
    else if not (net_swap16 (load16 payload 0) == 1)
        || not (net_swap16 (load16 payload 2) == 0x0800)
        || not (get_or payload 4 0 == 6)
        || not (get_or payload 5 0 == 4)
    then (none, cache)
    else if (net_swap16 (load16 payload 6) == 1) && (net_swap32 (load32 payload 24) == local_ip)
    then (some reply, learned)
    else (none, learned)

-- `arp_resolve`: the address, or the request that it sends.
unfoldable pub arp_resolve :
    (own_mac : List ℕ) (local_ip ip : ℕ) → List Entry → Option (List ℕ) × Option Sent
arp_resolve own_mac local_ip ip cache = elim (cache_lookup ip cache) [
  | some mac ↦ (some mac, none)
  | none ↦ (
    none,
    some (record {
      dest_mac = replicate 6 0xff;
      packet = arp_packet 1 own_mac local_ip (replicate 6 0) ip;
    }),
  )
]
