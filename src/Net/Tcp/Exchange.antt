-- ===== src/Net/Tcp/Exchange.antt =====
-- A segment of tcp_send and its acknowledgement, between two machines.
use gannet_os.Base.{◌∷◌, [], ℕ, ◌+◌, ◌^◌, ◌<◌, ◌≡◌, List, [], length}
use gannet_os.Net.Tcp.{TcpSent, Conn, established, flag_ack, flag_psh, send_segment}
use gannet_os.Net.Tcp.Input.{segment_of, accept_data, receive_segment}
use gannet_os.Net.Tcp.Stream.{IsQueue}

abbrev data_flags : ℕ
data_flags = flag_ack + flag_psh

-- A packet at its connection, read as tcp_handle_packet reads it, and packets one after the other.
unfoldable pub receive_packet : ℕ → TcpSent → Conn → Conn × List TcpSent
receive_packet ip sent c =
    let s = segment_of sent.packet in receive_segment ip s.flags s.seq s.ack_num s.body c

unfoldable pub receive_packets : ℕ → List TcpSent → Conn → Conn
receive_packets ip [] c = c
receive_packets ip (sent ∷ more) c = receive_packets ip more (receive_packet ip sent c).0

module _ (ip_a ip_b now : ℕ) (data' : List ℕ) (a b : Conn) where
  -- The segment that the sender sends, and the sender with it in flight.
  unfoldable pub sending : Conn × TcpSent
  sending = send_segment ip_a now data_flags data' a

  -- The receiver behind that packet, with the packets that it answers.
  unfoldable pub receiving : Conn × List TcpSent
  receiving = receive_packet ip_b sending.1 b

  -- The sender behind the answer.
  unfoldable pub answered : Conn
  answered = receive_packets ip_a receiving.1 sending.0

module _ (ip_a ip_b now : ℕ) (data' : List ℕ) (a b : Conn) (open_a : a.state ≡ established)
    (open_b : b.state ≡ established) (idle_b : b.send_una ≡ b.send_next)
    (word_seq : a.send_next < 2 ^ 32) (word_ack : a.recv_next < 2 ^ 32)
    (word_b : b.send_next < 2 ^ 32) (here : b.recv_next ≡ a.send_next) (q : IsQueue b)
    (some_bytes : 0 < length data') where
  abbrev sent : Conn
  sent = (sending ip_a ip_b now data' a b).0

  abbrev reply : Conn
  reply = accept_data data' b
