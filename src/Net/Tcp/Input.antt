-- ===== src/Net/Tcp/Input.antt =====
-- tcp_handle_packet of tcp.c, in the order of its parts: the checks of the packet, the listener, and
-- the acknowledgement, the data and the FIN of a connection's segment.
use gannet_os.Base.{
  ℕ, ◌+◌, ◌-◌, ◌*◌, ◌/◌, ◌%◌, ◌^◌, Bool, true, false, not, ◌&&◌, ◌||◌, none, some, List, [], ◌∷◌,
  ◌++◌, ltb, min, ◌==◌, if◌then◌else◌, length, get_or, set, take, drop,
}
use gannet_os.Net.Bytes.{net_swap16, net_swap32, load16, load32}
use gannet_os.Net.Checksum.{ipv4_checksum_pseudo}
use gannet_os.Net.Tcp.{
  TcpState, closed, syn_received, established, fin_wait_1, fin_wait_2, close_wait, last_ack, Conn,
  Tcp, TcpSent, zero_conn, rx_buf_size, tcp_hdr_len, ipv4_proto_tcp, flag_fin, flag_syn, flag_rst,
  flag_ack, has_flag, is_closed, is_syn_sent, find_connection, find_listener, alloc_slot,
  initial_seq, send_segment, send_ack, send_reset,
}

-- The state behind the acknowledgement of all that is in flight.
unfoldable pub acked : (fin_was_acked peer_fin_received : Bool) → TcpState → TcpState
acked fin_was_acked peer_fin_received syn_received = established
acked fin_was_acked peer_fin_received fin_wait_1 =
    if fin_was_acked then (if peer_fin_received then closed else fin_wait_2) else fin_wait_1
acked fin_was_acked peer_fin_received last_ack = if fin_was_acked then closed else last_ack
acked fin_was_acked peer_fin_received s = s

unfoldable pub is_syn_received : TcpState → Bool
is_syn_received syn_received = true
is_syn_received _ = false

unfoldable pub receive_ack : (flags ack_num : ℕ) → Conn → Conn
receive_ack flags ack_num c =
    if has_flag flags flag_ack && not (c.send_una == c.send_next) && (ack_num == c.send_next)
    then record c {
      send_una = c.send_next;
      state = acked (has_flag c.unacked_flags flag_fin) c.peer_fin_received c.state;
      pending_accept = if is_syn_received c.state then true else c.pending_accept;
    }
    else c

-- The states in which data is taken.
unfoldable pub takes_data : TcpState → Bool
takes_data established = true
takes_data fin_wait_1 = true
takes_data fin_wait_2 = true
takes_data _ = false

-- The loop that writes bytes into the ring: the ring and the tail.
unfoldable pub put_bytes : List ℕ → List ℕ → ℕ → List ℕ × ℕ
put_bytes [] ring tail = (ring, tail)
put_bytes (b ∷ bs) ring tail = put_bytes bs (set ring tail b) ((tail + 1) % rx_buf_size)

-- As much of the data as there is room for.
unfoldable pub accept_data : List ℕ → Conn → Conn
accept_data data' c =
    let taken = take (min (length data') ((rx_buf_size + 2 ^ 16 - c.rx_count) % 2 ^ 16)) data' in
    let (ring, tail) = put_bytes taken c.rx_ring c.rx_tail in
    record c {
      rx_ring = ring;
      rx_tail = tail;
      rx_count = (c.rx_count + length taken) % 2 ^ 16;
      recv_next = (c.recv_next + length taken) % 2 ^ 32;
    }

unfoldable pub receive_data : (local_ip seq : ℕ) (data' : List ℕ) → Conn → Conn × List TcpSent
receive_data local_ip seq data' c =
    let c' = accept_data data' c in
    if length data' == 0
    then (c, [])
    else if seq == c.recv_next && takes_data c.state
    then (c', send_ack local_ip c' ∷ [])
    else (c, send_ack local_ip c ∷ [])

-- The state behind the peer's FIN.
unfoldable pub peer_finished : TcpState → TcpState
peer_finished established = close_wait
peer_finished fin_wait_2 = closed
peer_finished s = s

unfoldable pub receive_fin : (local_ip flags end : ℕ) → Conn → Conn × List TcpSent
receive_fin local_ip flags end c =
    let c' = record c { recv_next = (c.recv_next + 1) % 2 ^ 32; peer_fin_received = true } in
    if has_flag flags flag_fin && (end == c.recv_next)
    then (record c' { state = peer_finished c.state }, send_ack local_ip c' ∷ [])
    else (c, [])

unfoldable pub receive_syn_ack : (local_ip flags seq ack_num : ℕ) → Conn → Conn × List TcpSent
receive_syn_ack local_ip flags seq ack_num c =
    let c' = record c {
      send_una = c.send_next;
      recv_next = (seq + 1) % 2 ^ 32;
      state = established;
    } in
    if has_flag flags flag_syn && has_flag flags flag_ack && (ack_num == c.send_next)
    then (c', send_ack local_ip c' ∷ [])
    else (c, [])

-- The parts that the states of an open connection share.
unfoldable pub receive_rest :
    (local_ip flags seq ack_num : ℕ) (data' : List ℕ) → Conn → Conn × List TcpSent
receive_rest local_ip flags seq ack_num data' c =
    let acknowledged = receive_ack flags ack_num c in
    let (filled, out) = receive_data local_ip seq data' acknowledged in
    let (ended, out') = receive_fin local_ip flags ((seq + length data') % 2 ^ 32) filled in
    if is_closed acknowledged.state then (acknowledged, []) else (ended, out ++ out')

-- A segment for a connection.
unfoldable pub receive_segment :
    (local_ip flags seq ack_num : ℕ) (data' : List ℕ) → Conn → Conn × List TcpSent
receive_segment local_ip flags seq ack_num data' c =
    if has_flag flags flag_rst
    then (record c { state = closed }, [])
    else if is_syn_sent c.state
    then receive_syn_ack local_ip flags seq ack_num c
    else receive_rest local_ip flags seq ack_num data' c

-- A SYN for a listener opens a connection in a slot of its own.
unfoldable pub receive_syn :
    (local_ip now src_ip src_port dst_port flags seq : ℕ) → Tcp → Tcp × List TcpSent
receive_syn local_ip now src_ip src_port dst_port flags seq t =
    if has_flag flags flag_syn && not (has_flag flags flag_ack)
    then elim (alloc_slot t.conns) [
      | none ↦ (t, [])
      | some i ↦
          let (first, t') = initial_seq now t in
          let child = record zero_conn {
            local_port = dst_port;
            remote_ip = src_ip;
            remote_port = src_port;
            recv_next = (seq + 1) % 2 ^ 32;
            send_una = first;
            send_next = first;
            state = syn_received;
          } in
          let (child', out) = send_segment local_ip now (flag_syn + flag_ack) [] child in
          (record t' { conns = set t'.conns i child' }, out ∷ [])
    ]
    else (t, [])

-- A segment that passed the checks goes to its connection, to a listener, or is refused.
unfoldable pub dispatch_segment :
    (local_ip now src_ip src_port dst_port flags seq ack_num : ℕ) (data' : List ℕ)
    → Tcp
    → Tcp × List TcpSent
dispatch_segment local_ip now src_ip src_port dst_port flags seq ack_num data' t =
    elim (find_connection dst_port src_ip src_port t.conns) [
      | some i ↦
          let (c, out) =
            receive_segment local_ip flags seq ack_num data' (get_or t.conns i zero_conn) in
          (record t { conns = set t.conns i c }, out)
      | none ↦ elim (find_listener dst_port t.conns) [
        | some l ↦ receive_syn local_ip now src_ip src_port dst_port flags seq t
        | none ↦ if has_flag flags flag_rst then (t, []) else (
          t,
          send_reset local_ip dst_port src_ip src_port seq ack_num (length data') flags ∷ [],
        )
      ]
    ]

-- The length of the header that a packet claims.
unfoldable pub header_len : List ℕ → ℕ
header_len packet = get_or packet 12 0 / 16 % 16 * 4

-- What tcp_handle_packet reads out of a packet: the header's fields, and the data behind the header.
pub record Segment : Type 0 where
  pub src_port : ℕ
  pub dst_port : ℕ
  pub seq : ℕ
  pub ack_num : ℕ
  pub flags : ℕ
  pub body : List ℕ

unfoldable pub segment_of : List ℕ → Segment
segment_of packet = record {
  src_port = net_swap16 (load16 packet 0);
  dst_port = net_swap16 (load16 packet 2);
  seq = net_swap32 (load32 packet 4);
  ack_num = net_swap32 (load32 packet 8);
  flags = get_or packet 13 0;
  body = drop (header_len packet) packet;
}

unfoldable pub tcp_handle_packet :
    (local_ip now src_ip : ℕ) (packet : List ℕ) → Tcp → Tcp × List TcpSent
tcp_handle_packet local_ip now src_ip packet t =
    let s = segment_of packet in
    if ltb (length packet) tcp_hdr_len
    then (t, [])
    else if ltb (header_len packet) tcp_hdr_len || ltb (length packet) (header_len packet)
    then (t, [])
    else if not (ipv4_checksum_pseudo src_ip local_ip ipv4_proto_tcp packet == 0)
    then (t, [])
    else dispatch_segment local_ip now src_ip s.src_port s.dst_port s.flags s.seq s.ack_num s.body t
