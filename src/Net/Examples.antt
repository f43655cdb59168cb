-- ===== src/Net/Examples.antt =====
-- Address resolution, echoes and frames between two machines.
use gannet_os.Base.{
  ℕ, zero, suc, ◌+◌, ◌-◌, ◌%◌, ◌^◌, ◌≡◌, refl, true, false, none, some, List, [], ◌∷◌, ◌++◌, arith,
  replicate, drop,
}
use gannet_os.Net.Checksum.{ipv4_checksum}
use gannet_os.Net.Arp.{
  Entry, Sent, blank, arp_resolve, arp_handle_frame, cache_learn, cache_lookup, learn_slot,
}
use gannet_os.Net.Arp.Search.{IsCache, ip_at}
use gannet_os.Net.Arp.Cache.{Learned, cache_learn_lem}
use gannet_os.Net.Arp.Reply.{arp_resolve-arp_handle_frame}
use gannet_os.Net.Icmp.{
  PingWait, icmp_filled, icmp_reply, icmp_request, icmp_handle_packet, start_ping,
}
use gannet_os.Net.Icmp.Echo.{icmp_handle_packet-icmp_filled, icmp_handle_packet-icmp_reply}
use gannet_os.Net.Ethernet.{ethernet_send, ethernet_poll}
use gannet_os.Net.Ethernet.Frames.{handler, ethernet_poll-ethernet_send}

abbrev empty_cache : List Entry
empty_cache = replicate 16 blank

nowhere : (n i : ℕ) → ip_at (replicate n blank) i ≡ 0
nowhere zero i = refl
nowhere (suc n) zero = refl
nowhere (suc n) (suc i) = nowhere n i

empty_cache-IsCache : IsCache empty_cache
empty_cache-IsCache = record {
  size = refl;
  distinct = λ i j nonzero same. absurd (nonzero (nowhere 16 i));
}

abbrev mac_a : List ℕ
mac_a = 0x52 ∷ 0x54 ∷ 0x00 ∷ 0x12 ∷ 0x34 ∷ 0x56 ∷ []

abbrev mac_b : List ℕ
mac_b = 0x52 ∷ 0x55 ∷ 0x0a ∷ 0x00 ∷ 0x02 ∷ 0x02 ∷ []

cache_learn_lem_example :
    Learned 0x0a000202 mac_b empty_cache
      (cache_learn 5 0x0a000202 mac_b empty_cache)
      (learn_slot 0x0a000202 empty_cache)
cache_learn_lem_example =
    cache_learn_lem 5 0x0a000202 mac_b empty_cache empty_cache-IsCache (omega arith)

unknown : cache_lookup 0x0a000202 empty_cache ≡ none
unfolding cache_lookup
unknown = refl

arp_resolve-arp_handle_frame_example :
    (request reply : Sent) × ((arp_resolve mac_a 0x0a00020f 0x0a000202 empty_cache).1
      ≡ some request)
    × (let (answer, learned) =
          arp_handle_frame mac_b 0x0a000202 9 request.packet mac_a empty_cache in
        (answer ≡ some reply) × (cache_lookup 0x0a00020f learned ≡ some mac_a))
    × (reply.dest_mac ≡ mac_a)
    × (let learned = (arp_handle_frame mac_a 0x0a00020f 7 reply.packet mac_b empty_cache).1 in
        (arp_resolve mac_a 0x0a00020f 0x0a000202 learned).0 ≡ some mac_b)
arp_resolve-arp_handle_frame_example =
    arp_resolve-arp_handle_frame mac_a mac_b 0x0a00020f 0x0a000202 7 9 empty_cache empty_cache refl
      refl (omega arith) (omega arith) (omega arith) (omega arith) empty_cache-IsCache
      empty_cache-IsCache unknown

abbrev no_ping : PingWait
no_ping = record { active = false; seq = 0; got_reply = false; sent_tick = 0; rtt_ticks = 0 }

abbrev echo_rest : List ℕ
echo_rest = 0xc0 ∷ 0xde ∷ 0x00 ∷ 0x01 ∷ 0x41 ∷ 0x42 ∷ 0x43 ∷ []

icmp_handle_packet-icmp_filled_example :
    (icmp_handle_packet 3 (icmp_filled 8 echo_rest) 0x0a000202 no_ping
      ≡ (some (record { dest_ip = 0x0a000202; packet = icmp_filled 0 echo_rest }), no_ping))
    × (drop 4 (icmp_filled 0 echo_rest) ≡ drop 4 (icmp_filled 8 echo_rest))
    × (ipv4_checksum (icmp_filled 0 echo_rest) ≡ 0)
icmp_handle_packet-icmp_filled_example =
    icmp_handle_packet-icmp_filled 3 echo_rest 0x0a000202 no_ping
      (
        omega arith,
        (
          omega arith,
          (omega arith, (omega arith, (omega arith, (omega arith, (omega arith, omega arith))))),
        ),
      )
      (omega arith) (omega arith)

icmp_handle_packet-icmp_reply_example :
    icmp_handle_packet 140 (icmp_reply (icmp_request 7)) 0x0a000202 (start_ping 7 100 no_ping) ≡ (
      none,
      record (start_ping 7 100 no_ping) {
        got_reply = true;
        rtt_ticks = (140 + 2 ^ 32 - 100) % 2 ^ 32;
      },
    )
icmp_handle_packet-icmp_reply_example =
    icmp_handle_packet-icmp_reply 140 100 7 0x0a000202 no_ping (omega arith)

ethernet_poll-ethernet_send_example :
    (frame : List ℕ) × (ethernet_send mac_a mac_b 0x0806 (1 ∷ 2 ∷ []) ≡ some frame)
    × (ethernet_poll (frame ++ (0 ∷ 0 ∷ [])) ≡ handler 0x0806 (1 ∷ 2 ∷ 0 ∷ 0 ∷ []) mac_a)
ethernet_poll-ethernet_send_example =
    ethernet_poll-ethernet_send mac_a mac_b 0x0806 (1 ∷ 2 ∷ []) (0 ∷ 0 ∷ []) refl refl (omega arith)
      (omega arith)
