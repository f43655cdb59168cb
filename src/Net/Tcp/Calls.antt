-- ===== src/Net/Tcp/Calls.antt =====
-- The calls of tcp.c: tcp_listen, tcp_accept, tcp_recv, tcp_close, tcp_state and tcp_poll, and the
-- start of tcp_connect and of a chunk of tcp_send. A negative handle is refused like one of 4 or more.
use gannet_os.Base.{
  ℕ, zero, suc, ◌+◌, ◌-◌, ◌%◌, ◌^◌, Bool, false, ◌&&◌, ◌||◌, Option, none, some, List, [], ◌∷◌,
  ◌++◌, leb, min, ◌==◌, if◌then◌else◌, length, get_elem?, get_or, set, take, drop,
}
use gannet_os.Net.Tcp.{
  TcpState, closed, listen, syn_sent, syn_received, established, fin_wait_1, fin_wait_2, close_wait,
  last_ack, Conn, Tcp, TcpSent, zero_conn, rx_buf_size, max_segment, max_retransmits,
  retransmit_timeout_ticks, flag_fin, flag_syn, flag_ack, flag_psh, is_closed, is_listen,
  is_established, find_conn, find_listener, alloc_slot, initial_seq, pick_ephemeral_port,
  build_and_send, send_segment,
}

unfoldable pub get_conn : ℕ → List Conn → Option Conn
get_conn handle cs = elim (get_elem? cs handle) [
  | none ↦ none
  | some c ↦ if is_closed c.state then none else some c
]

unfoldable pub tcp_listen : ℕ → List Conn → Option ℕ × List Conn
tcp_listen local_port cs = elim (find_listener local_port cs) [
  | some l ↦ (none, cs)
  | none ↦ elim (alloc_slot cs) [
    | none ↦ (none, cs)
    | some i ↦ (some i, set cs i (record zero_conn { local_port = local_port; state = listen }))
  ]
]

unfoldable pub is_waiting_for : ℕ → Conn → Bool
is_waiting_for port c = is_established c.state && c.pending_accept && (c.local_port == port)

unfoldable pub tcp_accept : ℕ → List Conn → Option ℕ × List Conn
tcp_accept listen_handle cs = elim (get_elem? cs listen_handle) [
  | none ↦ (none, cs)
  | some listener ↦
      if is_listen listener.state
      then elim (find_conn (is_waiting_for listener.local_port) cs 0) [
        | none ↦ (none, cs)
        | some i ↦ (some i, set cs i (record (get_or cs i zero_conn) { pending_accept = false }))
      ]
      else (none, cs)
]

-- The SYN of tcp_connect, up to its wait: the handle.
unfoldable pub start_connect :
    (local_ip now remote_ip remote_port : ℕ) → Tcp → Option (ℕ × TcpSent) × Tcp
start_connect local_ip now remote_ip remote_port t = elim (alloc_slot t.conns) [
  | none ↦ (none, t)
  | some i ↦
      let (port, t1) = pick_ephemeral_port t in
      let (first, t2) = initial_seq now t1 in
      let c = record zero_conn {
        local_port = port;
        remote_ip = remote_ip;
        remote_port = remote_port;
        send_una = first;
        send_next = first;
        state = syn_sent;
      } in
      let (c', out) = send_segment local_ip now flag_syn [] c in
      (some (i, out), record t2 { conns = set t2.conns i c' })
]

-- The segment that tcp_send sends for the data from `sent` on, and its length.
unfoldable pub send_chunk :
    (local_ip now : ℕ) (data' : List ℕ) (sent : ℕ) → Conn → Conn × TcpSent × ℕ
send_chunk local_ip now data' sent c =
    let chunk = min (length data' - sent) max_segment in
    let (c', out) =
      send_segment local_ip now (flag_ack + flag_psh) (take chunk (drop sent data')) c in
    (c', out, chunk)

-- The loop of tcp_recv: the bytes in the ring from a position on, and the position behind them.
unfoldable pub get_bytes : ℕ → ℕ → List ℕ → List ℕ × ℕ
get_bytes zero head ring = ([], head)
get_bytes (suc left) head ring =
    let (bytes, end) = get_bytes left ((head + 1) % rx_buf_size) ring in
    (get_or ring head 0 ∷ bytes, end)

-- What tcp_recv does to a connection; the bytes are those that it puts into `buf`.
unfoldable pub take_bytes : ℕ → Conn → List ℕ × Conn
take_bytes buf_len c =
    let n = min c.rx_count buf_len in
    let (bytes, head) = get_bytes n c.rx_head c.rx_ring in
    (bytes, record c { rx_head = head; rx_count = c.rx_count - n })

unfoldable pub tcp_recv : (handle buf_len : ℕ) → List Conn → List ℕ × List Conn
tcp_recv handle buf_len cs = elim (get_conn handle cs) [
  | none ↦ ([], cs)
  | some c ↦ let (bytes, c') = take_bytes buf_len c in (bytes, set cs handle c')
]

unfoldable pub close_conn : (local_ip now : ℕ) → Conn → Conn × List TcpSent
close_conn local_ip now c =
    let (c', out) = send_segment local_ip now (flag_fin + flag_ack) [] c in
    elim c.state [
      | listen ↦ (record c { state = closed }, [])
      | syn_sent ↦ (record c { state = closed }, [])
      | established ↦ (record c' { state = fin_wait_1 }, out ∷ [])
      | close_wait ↦ (record c' { state = last_ack }, out ∷ [])
      | closed ↦ (c, [])
      | syn_received ↦ (c, [])
      | fin_wait_1 ↦ (c, [])
      | fin_wait_2 ↦ (c, [])
      | last_ack ↦ (c, [])
    ]

unfoldable pub tcp_close : (local_ip now handle : ℕ) → List Conn → List Conn × List TcpSent
tcp_close local_ip now handle cs = elim (get_conn handle cs) [
  | none ↦ (cs, [])
  | some c ↦ let (c', out) = close_conn local_ip now c in (set cs handle c', out)
]

unfoldable pub tcp_state : ℕ → List Conn → TcpState
tcp_state handle cs = elim (get_elem? cs handle) [ none ↦ closed | some c ↦ c.state ]

-- One connection of tcp_poll.
unfoldable pub poll_conn : (local_ip now : ℕ) → Conn → Conn × List TcpSent
poll_conn local_ip now c =
    if is_closed c.state || is_listen c.state || (c.send_una == c.send_next)
    then (c, [])
    else if leb ((now + 2 ^ 32 - c.last_send_tick) % 2 ^ 32) retransmit_timeout_ticks
    then (c, [])
    else if leb max_retransmits c.retransmit_count
    then (record c { state = closed }, [])
    else (
      record c { last_send_tick = now; retransmit_count = c.retransmit_count + 1 },
      build_and_send local_ip c c.send_una c.unacked_flags c.unacked_data ∷ [],
    )

unfoldable pub tcp_poll : (local_ip now : ℕ) → List Conn → List Conn × List TcpSent
tcp_poll local_ip now [] = ([], [])
tcp_poll local_ip now (c ∷ cs) =
    let (c', out) = poll_conn local_ip now c in
    let (cs', out') = tcp_poll local_ip now cs in (c' ∷ cs', out ++ out')
