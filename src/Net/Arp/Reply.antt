-- ===== src/Net/Arp/Reply.antt =====
-- The packets of send_arp in arp.c: what a receiver reads in them, and a request with its answer.
use gannet_os.Base.{
  ℕ, ◌^◌, ◌<◌, ◌≡◌, ◌≢◌, refl, ap, ◌∙◌, Bool, true, false, ◌&&◌, Option, none, some, List, arith,
  replicate, ◌==◌, ==_refl, if◌then◌else◌, length, get_or, take, drop,
}
use gannet_os.Net.Bytes.{
  net_swap16, net_swap32, store16, store32, load16, load32, net_swap16-lt, net_swap32-lt,
  net_swap16-net_swap16, net_swap32-net_swap32,
}
use gannet_os.Net.Ethernet.Frames.{IsMac, is_mac}
use gannet_os.Net.Arp.{
  Entry, Sent, arp_packet, arp_handle_frame, arp_resolve, cache_learn, cache_lookup,
}
use gannet_os.Net.Arp.Search.{IsCache}
use gannet_os.Net.Arp.Cache.{cache_learn_lem}

-- What the receiver reads in a packet.
record Reads (oper : ℕ) (sha : List ℕ) (spa tpa : ℕ) (p : List ℕ) : Type 0 where
  size : length p ≡ 28
  htype : net_swap16 (load16 p 0) ≡ 1
  ptype : net_swap16 (load16 p 2) ≡ 0x0800
  hlen : get_or p 4 0 ≡ 6
  plen : get_or p 5 0 ≡ 4
  op : net_swap16 (load16 p 6) ≡ oper
  sender : take 6 (drop 8 p) ≡ sha
  sender_ip : net_swap32 (load32 p 14) ≡ spa
  target_ip : net_swap32 (load32 p 24) ≡ tpa

arp_packet-Reads :
    (oper : ℕ) (sha : List ℕ) (spa : ℕ) (tha : List ℕ) (tpa : ℕ)
    → IsMac sha
    → IsMac tha
    → oper < 2 ^ 16
    → spa < 2 ^ 32
    → tpa < 2 ^ 32
    → Reads oper sha spa tpa (arp_packet oper sha spa tha tpa)
unfolding arp_packet store16 store32 load16 load32
arp_packet-Reads oper sha spa tha tpa (IsMac.six a b c d e f) (IsMac.six u v w x y z) o s t =
    record {
      size = refl;
      htype =
          ap net_swap16 (omega (arith, net_swap16-lt 1)) ∙ net_swap16-net_swap16 1 (omega arith);
      ptype =
          ap net_swap16 (omega (arith, net_swap16-lt 0x0800))
          ∙ net_swap16-net_swap16 0x0800 (omega arith);
      hlen = refl;
      plen = refl;
      op = ap net_swap16 (omega (arith, net_swap16-lt oper)) ∙ net_swap16-net_swap16 oper o;
      sender = refl;
      sender_ip = ap net_swap32 (omega (arith, net_swap32-lt spa s)) ∙ net_swap32-net_swap32 spa s;
      target_ip = ap net_swap32 (omega (arith, net_swap32-lt tpa t)) ∙ net_swap32-net_swap32 tpa t;
    }

pair_if :
    (c : Bool) (x y : Option Sent) (z : List Entry)
    → let both : Option Sent × List Entry = (if c then x else y, z) in
      (if c then (x, z) else (y, z)) ≡ both
pair_if true x y z = refl
pair_if false x y z = refl

-- A packet that reads as one of this kind is learned from, and answered when it asks for the
-- receiver's own address.
handled :
    (own_mac : List ℕ) (local_ip now oper : ℕ) (sha : List ℕ) (spa tpa : ℕ) (p src_mac : List ℕ)
    (cache : List Entry)
    → Reads oper sha spa tpa p
    → arp_handle_frame own_mac local_ip now p src_mac cache ≡ (
      if (oper == 1) && (tpa == local_ip)
          then some (record { dest_mac = src_mac; packet = arp_packet 2 own_mac local_ip sha spa })
          else none,
      cache_learn now spa src_mac cache,
    )
unfolding arp_handle_frame
handled own_mac local_ip now oper sha spa tpa p src_mac cache r =
    rw
      (
        arp_handle_frame, r.size, r.htype, r.ptype, r.hlen, r.plen, r.op, r.sender, r.sender_ip,
        r.target_ip,
      )
      (pair_if ((oper == 1) && (tpa == local_ip)) _ _ _)

asks :
    (mac : List ℕ) (local_ip ip : ℕ) (cache : List Entry)
    → cache_lookup ip cache ≡ none
    → (arp_resolve mac local_ip ip cache).1
      ≡ some (record {
        dest_mac = replicate 6 0xff;
        packet = arp_packet 1 mac local_ip (replicate 6 0) ip;
      })
unfolding arp_resolve
asks mac local_ip ip cache e = rw (e, arp_resolve) refl

knows :
    (mac : List ℕ) (local_ip ip : ℕ) (cache : List Entry) (found : List ℕ)
    → cache_lookup ip cache ≡ some found
    → (arp_resolve mac local_ip ip cache).0 ≡ some found
unfolding arp_resolve
knows mac local_ip ip cache found e = rw (e, arp_resolve) refl

own_address :
    (ip : ℕ) (reply : Sent) → (if (1 == 1) && (ip == ip) then some reply else none) ≡ some reply
own_address ip reply = rw (==_refl ip) refl

-- The whole exchange, with MAC addresses of six bytes, nonzero 32-bit addresses, and caches in
-- which no address stands twice: a machine that does not know an address sends a request; the
-- machine that has the address learns the pair of the first and replies to it alone; and once that
-- reply has arrived, the first machine resolves the address to the MAC address of the second.
pub arp_resolve-arp_handle_frame :
    (mac_a mac_b : List ℕ) (ip_a ip_b now_a now_b : ℕ) (cache_a cache_b : List Entry)
    → length mac_a ≡ 6
    → length mac_b ≡ 6
    → ip_a < 2 ^ 32
    → ip_b < 2 ^ 32
    → ip_a ≢ 0
    → ip_b ≢ 0
    → IsCache cache_a
    → IsCache cache_b
    → cache_lookup ip_b cache_a ≡ none
    → (request reply : Sent) × ((arp_resolve mac_a ip_a ip_b cache_a).1 ≡ some request)
      × (let (answer, learned) = arp_handle_frame mac_b ip_b now_b request.packet mac_a cache_b in
          (answer ≡ some reply) × (cache_lookup ip_a learned ≡ some mac_a))
      × (reply.dest_mac ≡ mac_a)
      × (let learned = (arp_handle_frame mac_a ip_a now_a reply.packet mac_b cache_a).1 in
          (arp_resolve mac_a ip_a ip_b learned).0 ≡ some mac_b)
arp_resolve-arp_handle_frame mac_a mac_b ip_a ip_b now_a now_b cache_a cache_b la lb a b na nb ca cb
      unknown =
    let request : Sent = record {
      dest_mac = replicate 6 0xff;
      packet = arp_packet 1 mac_a ip_a (replicate 6 0) ip_b;
    } in
    let reply : Sent = record { dest_mac = mac_a; packet = arp_packet 2 mac_b ip_b mac_a ip_a } in
    let asked =
      arp_packet-Reads 1 mac_a ip_a (replicate 6 0) ip_b (is_mac mac_a la)
        (is_mac (replicate 6 0) refl) (omega arith) a b in
    let answered =
      arp_packet-Reads 2 mac_b ip_b mac_a ip_a (is_mac mac_b lb) (is_mac mac_a la) (omega arith) b
        a in
    let at_b = handled mac_b ip_b now_b 1 mac_a ip_a ip_b request.packet mac_a cache_b asked in
    let at_a = handled mac_a ip_a now_a 2 mac_b ip_b ip_a reply.packet mac_b cache_a answered in
    (
      request,
      reply,
      asks mac_a ip_a ip_b cache_a unknown,
      (
        ap (λ r. r.0) at_b ∙ own_address ip_b reply,
        ap (λ r. cache_lookup ip_a r.1) at_b
            ∙ (cache_learn_lem now_b ip_a mac_a cache_b cb na).knows,
      ),
      refl,
      knows mac_a ip_a ip_b _ mac_b (
          ap (λ r. cache_lookup ip_b r.1) at_a
          ∙ (cache_learn_lem now_a ip_b mac_b cache_a ca nb).knows),
    )
