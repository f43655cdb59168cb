-- ===== src/Net/Tests.antt =====
-- The network stack on concrete packets.
use gannet_os.Base.{
  ℕ, ◌+◌, ◌%◌, ◌^◌, ◌<◌, ◌≡◌, ◌≢◌, refl, ap, subst, sym, true, none, some, List, [], ◌∷◌, ◌++◌,
  arith, length, replicate, set, take, ◌==◌, if◌then◌else◌,
}
use gannet_os.Net.Bytes.{store16, store32, net_swap16, net_swap32, load16, load32}
use gannet_os.Net.Checksum.{
  checksum_finish, accumulate, fold_carries, ipv4_checksum, ipv4_checksum_pseudo, pseudo_header,
}
use gannet_os.Net.Checksum.Sum.{Bytes, Bytes-append, Bytes-store16, IsRegion}
use gannet_os.Net.Checksum.Detects.{with_checksum, ipv4_checksum-set, ipv4_checksum_pseudo_lem}
use gannet_os.Net.Link.{Ipv4, Link}
use gannet_os.Net.Ipv4.{
  ipv4_header, header_front, header_addresses, ipv4_handle_frame, Delivery, dispatch, resolve_loop,
  resolve, next_hop, eth_type_ipv4,
}
use gannet_os.Net.Ipv4.Send.{elapsed, after_rounds, resolve_loop-enough}
use gannet_os.Net.Ipv4.Receive.{IsDatagram, ipv4_handle_frame-ipv4_header, ipv4_handle_frame-set}
use gannet_os.Net.Udp.{
  Socket, closed, is_bound_to, udp_init, udp_filled, udp_handle_packet, udp_socket_recv, udp_send,
  udp_socket_open, open_loop,
}
use gannet_os.Net.Udp.Sockets.{IsTable, socket_at}
use gannet_os.Net.Udp.History.{Call, step, run, run-IsTable}
use gannet_os.Net.Udp.Datagram.{IsSendable}
use gannet_os.Net.Udp.Exchange.{udp_socket_recv-udp_filled, udp_send-ipv4_handle_frame}

abbrev front : List ℕ
front = 0x45 ∷ 0x00 ∷ []

abbrev behind : List ℕ
behind = 0x0a ∷ 0x00 ∷ 0x02 ∷ []

front-IsRegion : (c : ℕ) → IsRegion (with_checksum front c behind)
unfolding store16
front-IsRegion c = record {
  bytes_ok =
      let head_bytes : Bytes front = (omega arith, (omega arith, omega arith)) in
      let tail_bytes : Bytes behind = (omega arith, (omega arith, (omega arith, omega arith))) in
      let field : List ℕ = store16 (net_swap16 c) in
      Bytes-append front (field ++ behind) head_bytes
        (Bytes-append field behind (Bytes-store16 (net_swap16 c)) tail_bytes);
  size = omega arith;
}

checksum_value : ipv4_checksum (with_checksum front 0 behind) ≡ 0xaeff
unfolding ipv4_checksum checksum_finish accumulate fold_carries store16 net_swap16
checksum_value = refl

abbrev sealed : List ℕ
sealed = 0x45 ∷ 0x00 ∷ 0xae ∷ 0xff ∷ 0x0a ∷ 0x00 ∷ 0x02 ∷ []

sealed-IsRegion : IsRegion sealed
sealed-IsRegion = record {
  bytes_ok = (
    omega arith,
    (
      omega arith,
      (omega arith, (omega arith, (omega arith, (omega arith, (omega arith, omega arith))))),
    ),
  );
  size = omega arith;
}

sealed_verifies : ipv4_checksum sealed ≡ 0
unfolding ipv4_checksum checksum_finish accumulate fold_carries
sealed_verifies = refl

ipv4_checksum-set_example : ipv4_checksum (set sealed 4 0x0b) ≢ 0
ipv4_checksum-set_example =
    ipv4_checksum-set sealed 4 0x0b sealed-IsRegion sealed_verifies (omega arith) (omega arith)
      (omega arith)

ipv4_checksum_pseudo_lem_example :
    ipv4_checksum_pseudo 0x0a00020f 0x0a000203 17 (1 ∷ 2 ∷ 3 ∷ [])
    ≡ ipv4_checksum (pseudo_header 0x0a00020f 0x0a000203 17 3 ++ (1 ∷ 2 ∷ 3 ∷ []))
ipv4_checksum_pseudo_lem_example =
    ipv4_checksum_pseudo_lem 0x0a00020f 0x0a000203 17 (1 ∷ 2 ∷ 3 ∷ [])

abbrev host_a : Ipv4
host_a = record {
  local_ip = 0x0a00020f;
  next_id = 7;
  gateway_ip = 0x0a000202;
  subnet_mask = 0xffffff00;
}

abbrev host_b : Ipv4
host_b = record { local_ip = 0x08080808; next_id = 0; gateway_ip = 0; subnet_mask = 0 }

abbrev ping : List ℕ
ping = 1 ∷ 2 ∷ 3 ∷ 4 ∷ []

ping-IsDatagram : IsDatagram host_a host_b.local_ip 17 (length ping)
ping-IsDatagram = record {
  local_ok = omega arith;
  dest_ok = omega arith;
  id_ok = omega arith;
  protocol_ok = omega arith;
  size = omega arith;
}

ipv4_handle_frame-ipv4_header_example :
    ipv4_handle_frame host_b
      (ipv4_header host_a host_b.local_ip 17 (length ping) ++ (ping ++ (0 ∷ 0 ∷ [])))
    ≡ dispatch 17 ping 0x0a00020f
ipv4_handle_frame-ipv4_header_example =
    ipv4_handle_frame-ipv4_header host_a host_b 17 ping (0 ∷ 0 ∷ []) ping-IsDatagram

abbrev whole_frame : List ℕ
whole_frame =
    0x45 ∷ 0x00 ∷ 0x00 ∷ 0x18 ∷ 0x00 ∷ 0x07 ∷ 0x00 ∷ 0x00 ∷ 0x40 ∷ 0x11 ∷ 0x5e ∷ 0xb0 ∷ 0x0a ∷ 0x00
    ∷ 0x02 ∷ 0x0f ∷ 0x08 ∷ 0x08 ∷ 0x08 ∷ 0x08 ∷ 0x01 ∷ 0x02 ∷ 0x03 ∷ 0x04 ∷ []

built_frame : ipv4_header host_a host_b.local_ip 17 (length ping) ++ ping ≡ whole_frame
unfolding ipv4_header header_front header_addresses store16 store32 net_swap16 net_swap32
    ipv4_checksum checksum_finish accumulate fold_carries
built_frame = refl

whole_frame-IsRegion : IsRegion (take 20 whole_frame)
whole_frame-IsRegion = record {
  bytes_ok = (
    omega arith,
    (
      omega arith,
      (
        omega arith,
        (
          omega arith,
          (
            omega arith,
            (
              omega arith,
              (
                omega arith,
                (
                  omega arith,
                  (
                    omega arith,
                    (
                      omega arith,
                      (
                        omega arith,
                        (
                          omega arith,
                          (
                            omega arith,
                            (
                              omega arith,
                              (
                                omega arith,
                                (
                                  omega arith,
                                  (
                                    omega arith,
                                    (omega arith, (omega arith, (omega arith, omega arith))),
                                  ),
                                ),
                              ),
                            ),
                          ),
                        ),
                      ),
                    ),
                  ),
                ),
              ),
            ),
          ),
        ),
      ),
    ),
  );
  size = omega arith;
}

whole_frame_handed : ipv4_handle_frame host_b whole_frame ≡ Delivery.to_udp ping 0x0a00020f
unfolding ipv4_handle_frame dispatch load16 load32 net_swap16 net_swap32 ipv4_checksum
    checksum_finish accumulate fold_carries
whole_frame_handed = refl

whole_frame_not_dropped : ipv4_handle_frame host_b whole_frame ≢ Delivery.dropped
whole_frame_not_dropped e = let got = whole_frame_handed in cc

ipv4_handle_frame-set_example : ipv4_handle_frame host_b (set whole_frame 8 63) ≡ Delivery.dropped
ipv4_handle_frame-set_example =
    ipv4_handle_frame-set host_b whole_frame 8 63 whole_frame-IsRegion whole_frame_not_dropped
      (omega arith) (omega arith) (omega arith)

ping_packet : IsDatagram host_a 0x08080808 17 12
ping_packet = record {
  local_ok = omega arith;
  dest_ok = omega arith;
  id_ok = omega arith;
  protocol_ok = omega arith;
  size = omega arith;
}

-- A card whose resolution knows the gateway, and whose clock gains 200 ticks with each poll.
record Wire : Type 0 where
  ipv4 : Ipv4
  ticks : ℕ
  sent : List (List ℕ)

abbrev gateway_mac : List ℕ
gateway_mac = 0x52 ∷ 0x55 ∷ 0x0a ∷ 0x00 ∷ 0x02 ∷ 0x02 ∷ []

abbrev wire : Link
wire = record {
  State = Wire;
  get_ipv4 = λ w. w.ipv4;
  put_ipv4 = λ s w. record w { ipv4 = s };
  arp_resolve = λ hop w. (if hop == 0x0a000202 then some gateway_mac else none, w);
  poll = λ w. record w { ticks = w.ticks + 200 };
  pit_ticks = λ w. w.ticks;
  ethernet_send = λ mac ty payload w. (true, record w { sent = payload ∷ w.sent });
}

abbrev idle : Wire
idle = record { ipv4 = host_a; ticks = 0; sent = [] }

resolve_loop-enough_example :
    resolve_loop wire (2 + 50) 0 0x0a000299 idle ≡ resolve_loop wire 2 0 0x0a000299 idle
unfolding after_rounds
resolve_loop-enough_example = resolve_loop-enough wire 2 50 0 0x0a000299 idle (omega arith) late
  where
    late : 300 < elapsed wire 0 (after_rounds wire 2 0x0a000299 idle)
    late = omega arith

abbrev eight : List Socket
eight = replicate 8 closed

run-IsTable_example :
    IsTable
      (run (udp_init eight) (Call.open' 53 ∷ Call.open' 53 ∷ Call.close 0 ∷ Call.open' 53 ∷ []))
run-IsTable_example =
    run-IsTable eight (Call.open' 53 ∷ Call.open' 53 ∷ Call.close 0 ∷ Call.open' 53 ∷ []) refl

-- Port 7 is open in socket 1.
abbrev listening : List Socket
listening = run (udp_init eight) (Call.open' 53 ∷ Call.open' 7 ∷ [])

listening-IsTable : IsTable listening
listening-IsTable = run-IsTable eight (Call.open' 53 ∷ Call.open' 7 ∷ []) refl

port_7 : is_bound_to 7 (socket_at listening 1) ≡ true
unfolding run step udp_init udp_socket_open open_loop
port_7 = refl

ping-IsSendable : IsSendable 0x0a00020f 0x08080808 4000 7 ping
ping-IsSendable = record {
  src_port_ok = omega arith;
  dest_port_ok = omega arith;
  bytes_ok = (omega arith, (omega arith, (omega arith, (omega arith, omega arith))));
  size = omega arith;
}

udp_socket_recv-udp_filled_example :
    (udp_socket_recv 1 100 (
      udp_handle_packet 0x08080808
        (udp_filled 0x0a00020f 0x08080808 4000 7 ping)
        0x0a00020f
        listening)).0
    ≡ some (ping, 0x0a00020f, 4000)
udp_socket_recv-udp_filled_example =
    udp_socket_recv-udp_filled 0x0a00020f 0x08080808 4000 7 ping listening 1 100 ping-IsSendable
      listening-IsTable (omega arith) port_7 (omega arith) (omega arith)

gateway_found : (resolve wire 5 (next_hop host_a 0x08080808) idle).0 ≡ some gateway_mac
unfolding resolve next_hop
gateway_found = refl

own_address_kept : ((resolve wire 5 (next_hop host_a 0x08080808) idle).1).ipv4 ≡ host_a
unfolding resolve next_hop
own_address_kept = refl

udp_send-ipv4_handle_frame_example :
    (frame : List ℕ) × (udp_send wire 5 0x08080808 4000 7 ping idle
      ≡ wire.ethernet_send gateway_mac eth_type_ipv4 frame (
          wire.put_ipv4
            (record ((resolve wire 5 (next_hop host_a 0x08080808) idle).1).ipv4 {
              next_id =
                  (((resolve wire 5 (next_hop host_a 0x08080808) idle).1).ipv4.next_id + 1)
                  % 2 ^ 16;
            })
            (resolve wire 5 (next_hop host_a 0x08080808) idle).1))
    × ((r : Ipv4) (padding : List ℕ)
        → r.local_ip ≡ 0x08080808
        → ipv4_handle_frame r (frame ++ padding)
          ≡ Delivery.to_udp (udp_filled 0x0a00020f 0x08080808 4000 7 ping) 0x0a00020f)
udp_send-ipv4_handle_frame_example =
    udp_send-ipv4_handle_frame wire 5 0x08080808 4000 7 ping idle gateway_mac ping-IsSendable
      gateway_found (ap (λ s. s.local_ip) own_address_kept)
      (subst (λ s. IsDatagram s 0x08080808 17 12) (sym own_address_kept) ping_packet)
