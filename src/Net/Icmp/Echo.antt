-- ===== src/Net/Icmp/Echo.antt =====
-- Echo requests of icmp.c and the answers to them.
use gannet_os.Base.{
  ℕ, ◌+◌, ◌-◌, ◌%◌, ◌^◌, ◌≤◌, ◌<◌, ◌≡◌, refl, sym, ap, ◌∙◌, true, Option, none, some, List, [], ◌∷◌,
  ◌++◌, arith, ==_refl, length, get_or, take, drop, take-append-drop,
}
use gannet_os.Net.Bytes.{net_swap16, net_swap16-lt, net_swap16-net_swap16, store16, load16}
use gannet_os.Net.Checksum.{ipv4_checksum}
use gannet_os.Net.Checksum.Sum.{Bytes, Bytes-append, Bytes-store16, IsRegion}
use gannet_os.Net.Checksum.Detects.{ipv4_checksum-with_checksum}
use gannet_os.Net.Icmp.{
  PingWait, Outgoing, icmp_packet, icmp_filled, icmp_request, icmp_reply, icmp_handle_packet,
  start_ping,
}

icmp_packet-IsRegion :
    (ty c : ℕ) (rest : List ℕ)
    → ty < 256
    → Bytes rest
    → length rest < 60000
    → IsRegion (icmp_packet ty c rest)
unfolding store16
icmp_packet-IsRegion ty c rest h p size = record {
  bytes_ok = (
    h,
    (omega arith, Bytes-append (store16 (net_swap16 c)) rest (Bytes-store16 (net_swap16 c)) p),
  );
  size = omega arith;
}

-- A packet that is filled in verifies.
filled_verifies :
    (ty : ℕ) (rest : List ℕ)
    → ty < 256
    → Bytes rest
    → length rest < 60000
    → ipv4_checksum (icmp_filled ty rest) ≡ 0
unfolding icmp_filled
filled_verifies ty rest h p size =
    ipv4_checksum-with_checksum (ty ∷ 0 ∷ []) rest refl (icmp_packet-IsRegion ty 0 rest h p size)
      (icmp_packet-IsRegion ty _ rest h p size)

module _ (ty : ℕ) (rest : List ℕ) where
  length-filled : length (icmp_filled ty rest) ≡ 4 + length rest
  unfolding icmp_filled store16
  length-filled = omega arith

  filled_type : get_or (icmp_filled ty rest) 0 0 ≡ ty
  unfolding icmp_filled
  filled_type = refl

  filled_rest : drop 4 (icmp_filled ty rest) ≡ rest
  unfolding icmp_filled store16
  filled_rest = refl

  filled_data : drop 8 (icmp_filled ty rest) ≡ drop 4 rest
  unfolding icmp_filled store16
  filled_data = refl

  filled_identifier : load16 (icmp_filled ty rest) 4 ≡ load16 rest 0
  unfolding icmp_filled store16 load16
  filled_identifier = refl

  filled_sequence : load16 (icmp_filled ty rest) 6 ≡ load16 rest 2
  unfolding icmp_filled store16 load16
  filled_sequence = refl

-- The identifier and the sequence number of a ping.
abbrev ids : ℕ → List ℕ
ids seq = store16 (net_swap16 0xc0de) ++ store16 (net_swap16 seq)

length-ids : (seq : ℕ) → length (ids seq) ≡ 4
unfolding store16
length-ids seq = refl

ids-Bytes : (seq : ℕ) → Bytes (ids seq)
ids-Bytes seq =
    Bytes-append (store16 (net_swap16 0xc0de)) (store16 (net_swap16 seq))
      (Bytes-store16 (net_swap16 0xc0de)) (Bytes-store16 (net_swap16 seq))

identifier_loaded : (seq : ℕ) → net_swap16 (load16 (ids seq) 0) ≡ 0xc0de
unfolding store16 load16
identifier_loaded seq =
    ap net_swap16 (omega (arith, net_swap16-lt 0xc0de)) ∙ net_swap16-net_swap16 0xc0de (omega arith)

sequence_loaded : (seq : ℕ) → seq < 2 ^ 16 → net_swap16 (load16 (ids seq) 2) ≡ seq
unfolding store16 load16
sequence_loaded seq h =
    ap net_swap16 (omega (arith, net_swap16-lt seq)) ∙ net_swap16-net_swap16 seq h

-- A request that passes the checks is answered.
answered :
    (now : ℕ) (packet : List ℕ) (src_ip : ℕ) (ping : PingWait)
    → 8 ≤ length packet
    → length packet ≤ 1408
    → get_or packet 0 0 ≡ 8
    → ipv4_checksum packet ≡ 0
    → icmp_handle_packet now packet src_ip ping
      ≡ (some (record { dest_ip = src_ip; packet = icmp_reply packet }), ping)
unfolding icmp_handle_packet
answered now packet src_ip ping lo hi ty good = ground arith

-- A reply that passes the checks ends the wait.
matched :
    (now : ℕ) (packet : List ℕ) (src_ip : ℕ) (ping : PingWait)
    → 8 ≤ length packet
    → get_or packet 0 0 ≡ 0
    → ipv4_checksum packet ≡ 0
    → ping.active ≡ true
    → net_swap16 (load16 packet 4) ≡ 0xc0de
    → net_swap16 (load16 packet 6) ≡ ping.seq
    → icmp_handle_packet now packet src_ip ping ≡ (
      none,
      record ping { got_reply = true; rtt_ticks = (now + 2 ^ 32 - ping.sent_tick) % 2 ^ 32 },
    )
unfolding icmp_handle_packet
matched now packet src_ip ping lo ty good on identifier sequence = ground (arith, ==_refl ping.seq)

reply_of : (rest : List ℕ) → icmp_reply (icmp_filled 8 rest) ≡ icmp_filled 0 rest
unfolding icmp_reply
reply_of rest =
    ap (λ r. icmp_filled 0 (take 4 r ++ drop 8 (icmp_filled 8 rest))) (filled_rest 8 rest)
    ∙ ap (λ r. icmp_filled 0 (take 4 rest ++ r)) (filled_data 8 rest)
    ∙ ap (icmp_filled 0) (take-append-drop 4 rest)

-- An echo request with its checksum filled in, of up to 1400 bytes of data, is answered to its
-- sender with the same identifier, sequence number and data, and the answer's checksum verifies;
-- a ping of this machine's own is not touched.
pub icmp_handle_packet-icmp_filled :
    (now : ℕ) (rest : List ℕ) (src_ip : ℕ) (ping : PingWait)
    → Bytes rest
    → 4 ≤ length rest
    → length rest ≤ 1404
    → (icmp_handle_packet now (icmp_filled 8 rest) src_ip ping
        ≡ (some (record { dest_ip = src_ip; packet = icmp_filled 0 rest }), ping))
      × (drop 4 (icmp_filled 0 rest) ≡ drop 4 (icmp_filled 8 rest))
      × (ipv4_checksum (icmp_filled 0 rest) ≡ 0)
icmp_handle_packet-icmp_filled now rest src_ip ping p lo hi =
    let reply : List ℕ → Option Outgoing × PingWait =
      λ packet. (some (record { dest_ip = src_ip; packet = packet }), ping) in
    (
      answered now (icmp_filled 8 rest) src_ip ping (omega (arith, length-filled 8 rest))
            (omega (arith, length-filled 8 rest)) (filled_type 8 rest)
            (filled_verifies 8 rest (omega arith) p (omega arith))
          ∙ ap reply (reply_of rest),
      filled_rest 0 rest ∙ sym (filled_rest 8 rest),
      filled_verifies 0 rest (omega arith) p (omega arith),
    )

-- The reply to the request of a ping with a 16-bit sequence number ends the wait of that ping,
-- whose time is what the clock has counted since the request.
pub icmp_handle_packet-icmp_reply :
    (now sent seq src_ip : ℕ) (ping : PingWait)
    → seq < 2 ^ 16
    → icmp_handle_packet now (icmp_reply (icmp_request seq)) src_ip (start_ping seq sent ping) ≡ (
      none,
      record (start_ping seq sent ping) {
        got_reply = true;
        rtt_ticks = (now + 2 ^ 32 - sent) % 2 ^ 32;
      },
    )
unfolding icmp_request start_ping
icmp_handle_packet-icmp_reply now sent seq src_ip ping h =
    ap (λ r. icmp_handle_packet now r src_ip (start_ping seq sent ping)) (reply_of (ids seq))
    ∙ matched now (icmp_filled 0 (ids seq)) src_ip (start_ping seq sent ping)
        (omega (arith, length-filled 0 (ids seq), length-ids seq)) (filled_type 0 (ids seq))
        (filled_verifies 0 (ids seq) (omega arith) (ids-Bytes seq) (omega (arith, length-ids seq)))
        refl (ap net_swap16 (filled_identifier 0 (ids seq)) ∙ identifier_loaded seq)
        (ap net_swap16 (filled_sequence 0 (ids seq)) ∙ sequence_loaded seq h)
