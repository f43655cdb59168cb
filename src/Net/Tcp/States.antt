-- ===== src/Net/Tcp/States.antt =====
-- The states of a connection of tcp.c: what may change them, by the diagram of RFC 793 without
-- CLOSING and TIME_WAIT.
use gannet_os.Base.{ℕ, ◌≤◌, ◌≡◌, ◌≢◌, ◌⊎◌, Bool, true, false, not, List}
use gannet_os.Net.Tcp.{
  flag_ack, flag_fin, flag_syn, Conn, TcpState, closed, listen, syn_sent, syn_received, established,
  fin_wait_1, fin_wait_2, close_wait, last_ack, flag_rst, has_flag, TcpSent, max_retransmits,
}
use gannet_os.Net.Tcp.Input.{receive_segment}
use gannet_os.Net.Tcp.Calls.{close_conn, poll_conn, send_chunk, take_bytes}

-- What happens to a connection: a segment with its flags and its acknowledgement, or a call.
pub data Event : Type 0 where
  segment : (flags ack_num : ℕ) → Event
  poll close transfer : Event

-- The segment acknowledges what is in flight.
abbrev pub Acks : Conn → (flags ack_num : ℕ) → Type 0
Acks c flags ack_num =
    (has_flag flags flag_rst ≡ false)
    × (has_flag flags flag_ack ≡ true)
    × (c.send_una ≢ c.send_next)
    × (ack_num ≡ c.send_next)

-- The segment has the peer's FIN.
abbrev pub Finishes : (flags : ℕ) → Type 0
Finishes flags = (has_flag flags flag_rst ≡ false) × (has_flag flags flag_fin ≡ true)

-- It acknowledges our FIN.
abbrev pub AcksFin : Conn → (flags ack_num : ℕ) → Type 0
AcksFin c flags ack_num = Acks c flags ack_num × (has_flag c.unacked_flags flag_fin ≡ true)

-- A move that an event may cause, on the connection as it was before the event.
pub data Move (c : Conn) : Event → TcpState → TcpState → Type 0 where
  reset :
      {flags ack_num : ℕ} {s : TcpState}
      → has_flag flags flag_rst ≡ true
      → Move c (segment flags ack_num) s closed
  syn_acked :
      {flags ack_num : ℕ}
      → has_flag flags flag_rst ≡ false
      → has_flag flags flag_syn ≡ true
      → has_flag flags flag_ack ≡ true
      → ack_num ≡ c.send_next
      → Move c (segment flags ack_num) syn_sent established
  accepted :
      {flags ack_num : ℕ}
      → Acks c flags ack_num
      → Move c (segment flags ack_num) syn_received established
  fin_acked :
      {flags ack_num : ℕ}
      → AcksFin c flags ack_num
      → c.peer_fin_received ≡ false
      → Move c (segment flags ack_num) fin_wait_1 fin_wait_2
  both_finished :
      {flags ack_num : ℕ}
      → AcksFin c flags ack_num
      → c.peer_fin_received ≡ true
      → Move c (segment flags ack_num) fin_wait_1 closed
  last_acked :
      {flags ack_num : ℕ} → AcksFin c flags ack_num → Move c (segment flags ack_num) last_ack closed
  peer_first :
      {flags ack_num : ℕ} → Finishes flags → Move c (segment flags ack_num) established close_wait
  peer_last :
      {flags ack_num : ℕ} → Finishes flags → Move c (segment flags ack_num) fin_wait_2 closed
  gave_up :
      {s : TcpState}
      → c.send_una ≢ c.send_next
      → max_retransmits ≤ c.retransmit_count
      → Move c poll s closed
  stop_listening : Move c close listen closed
  stop_opening : Move c close syn_sent closed
  close_first : Move c close established fin_wait_1
  close_last : Move c close close_wait last_ack

-- Whether an event may leave the state: a reset and a call of tcp_close may not, but for a
-- connection that is closed or closing, or in its handshake, at that call.
abbrev pub may_stay : Event → TcpState → Bool
may_stay (segment flags ack_num) s = not (has_flag flags flag_rst)
may_stay close listen = false
may_stay close syn_sent = false
may_stay close established = false
may_stay close close_wait = false
may_stay _ _ = true

-- What one event does to the state: nothing, one move, or for a segment two, the first by its
-- acknowledgement and the second by its FIN.
pub data Moves (c : Conn) : Event → TcpState → TcpState → Type 0 where
  stay : {e : Event} {s : TcpState} → may_stay e s ≡ true → Moves c e s s
  one : {e : Event} {s t : TcpState} → Move c e s t → Moves c e s t
  two :
      {flags ack_num : ℕ} {r s t : TcpState}
      → Move c (segment flags ack_num) r s
      → Move c (segment flags ack_num) s t
      → Moves c (segment flags ack_num) r t

abbrev Result : Type 0
Result = Conn × List TcpSent

-- At most one move, by a part of tcp_handle_packet.
abbrev AtMost : Conn → Event → TcpState → TcpState → Type 0
AtMost c e s t = (s ≡ t) ⊎ Move c e s t

-- All that happens to a connection between alloc_slot and its end.
pub data Step (c : Conn) : Event → Conn → Type 0 where
  arrives :
      (local_ip flags seq ack_num : ℕ) (data' : List ℕ)
      → Step c (segment flags ack_num) (receive_segment local_ip flags seq ack_num data' c).0
  polled : (local_ip now : ℕ) → Step c poll (poll_conn local_ip now c).0
  closes : (local_ip now : ℕ) → Step c close (close_conn local_ip now c).0
  sends :
      (local_ip now : ℕ) (data' : List ℕ) (sent : ℕ)
      → Step c transfer (send_chunk local_ip now data' sent c).0
  reads : (buf_len : ℕ) → Step c transfer (take_bytes buf_len c).1
