-- ===== src/Net/Tcp.antt =====
-- TCP, transport_protocols/tcp.c: the table of connections and what a segment is made of. A
-- function returns the packets that it hands to ipv4_send, in their order; the address of this
-- machine and the tick count are arguments.
pub mod Input
pub mod Calls
pub mod Ring
pub mod Stream
pub mod Receive
pub mod Session
pub mod Exchange
pub mod States
mod Tests
use gannet_os.Base.{
  ℕ, zero, suc, ◌+◌, ◌-◌, ◌*◌, ◌/◌, ◌%◌, ◌^◌, Bool, true, false, not, ◌&&◌, ◌||◌, Option, none,
  some, List, [], ◌∷◌, ◌++◌, ◌==◌, if◌then◌else◌, length, get_or, replicate, bit_xor,
}
use gannet_os.Net.Bytes.{net_swap16, net_swap32, store16, store32}
use gannet_os.Net.Checksum.{ipv4_checksum_pseudo}

abbrev pub tcp_max_conns : ℕ
tcp_max_conns = 4

abbrev pub rx_buf_size : ℕ
rx_buf_size = 2048

abbrev pub max_segment : ℕ
max_segment = 536

abbrev pub retransmit_timeout_ticks : ℕ
retransmit_timeout_ticks = 200

abbrev pub max_retransmits : ℕ
max_retransmits = 5

abbrev pub tcp_hdr_len : ℕ
tcp_hdr_len = 20

abbrev pub ipv4_proto_tcp : ℕ
ipv4_proto_tcp = 6

abbrev pub flag_fin : ℕ
flag_fin = 0x01

abbrev pub flag_syn : ℕ
flag_syn = 0x02

abbrev pub flag_rst : ℕ
flag_rst = 0x04

abbrev pub flag_psh : ℕ
flag_psh = 0x08

abbrev pub flag_ack : ℕ
flag_ack = 0x10

-- `flags & bit`, for a bit that is a power of two.
unfoldable pub has_flag : ℕ → ℕ → Bool
has_flag flags bit = flags / bit % 2 == 1

-- `tcp_state_t`
pub data TcpState : Type 0 where
  closed listen syn_sent syn_received established fin_wait_1 fin_wait_2 close_wait last_ack :
      TcpState

unfoldable pub is_closed : TcpState → Bool
is_closed closed = true
is_closed _ = false

unfoldable pub is_listen : TcpState → Bool
is_listen listen = true
is_listen _ = false

unfoldable pub is_established : TcpState → Bool
is_established established = true
is_established _ = false

unfoldable pub is_syn_sent : TcpState → Bool
is_syn_sent syn_sent = true
is_syn_sent _ = false

-- `struct tcp_conn`. `unacked_data` is the part of the array that is in use, `unacked_len` bytes.
pub record Conn : Type 0 where
  pub state : TcpState
  pub local_port : ℕ
  pub remote_ip : ℕ
  pub remote_port : ℕ
  pub send_una : ℕ
  pub send_next : ℕ
  pub recv_next : ℕ
  pub unacked_data : List ℕ
  pub unacked_flags : ℕ
  pub last_send_tick : ℕ
  pub retransmit_count : ℕ
  pub rx_ring : List ℕ
  pub rx_head : ℕ
  pub rx_tail : ℕ
  pub rx_count : ℕ
  pub peer_fin_received : Bool
  pub pending_accept : Bool

-- The connections, and the static counters of initial_seq and pick_ephemeral_port.
pub record Tcp : Type 0 where
  pub conns : List Conn
  pub counter : ℕ
  pub next_port : ℕ

-- A call of ipv4_send for the protocol TCP: the destination and the packet.
pub record TcpSent : Type 0 where
  pub dest_ip : ℕ
  pub packet : List ℕ

unfoldable pub empty_ring : List ℕ
empty_ring = replicate rx_buf_size 0

-- A connection whose bytes are all 0.
unfoldable pub zero_conn : Conn
zero_conn = record {
  state = closed;
  local_port = 0;
  remote_ip = 0;
  remote_port = 0;
  send_una = 0;
  send_next = 0;
  recv_next = 0;
  unacked_data = [];
  unacked_flags = 0;
  last_send_tick = 0;
  retransmit_count = 0;
  rx_ring = empty_ring;
  rx_head = 0;
  rx_tail = 0;
  rx_count = 0;
  peer_fin_received = false;
  pending_accept = false;
}

unfoldable pub tcp_init : List Conn → List Conn
tcp_init [] = []
tcp_init (c ∷ cs) = record c { state = closed } ∷ tcp_init cs

unfoldable pub is_connection : ℕ → ℕ → ℕ → Conn → Bool
is_connection local_port remote_ip remote_port c =
    not (is_closed c.state)
    && not (is_listen c.state)
    && (c.local_port == local_port)
    && (c.remote_ip == remote_ip)
    && (c.remote_port == remote_port)

-- The first connection that passes a test, from the connection `i` on.
unfoldable pub find_conn : (Conn → Bool) → List Conn → ℕ → Option ℕ
find_conn test [] i = none
find_conn test (c ∷ cs) i = let rest = find_conn test cs (i + 1) in if test c then some i else rest

unfoldable pub find_connection : ℕ → ℕ → ℕ → List Conn → Option ℕ
find_connection local_port remote_ip remote_port cs =
    find_conn (is_connection local_port remote_ip remote_port) cs 0

unfoldable pub find_listener : ℕ → List Conn → Option ℕ
find_listener local_port cs =
    find_conn (λ c. is_listen c.state && (c.local_port == local_port)) cs 0

-- The slot that alloc_slot returns; the caller puts a connection made from `zero_conn` there.
unfoldable pub alloc_slot : List Conn → Option ℕ
alloc_slot cs = find_conn (λ c. is_closed c.state) cs 0

unfoldable pub initial_seq : ℕ → Tcp → ℕ × Tcp
initial_seq now t =
    let counter = (t.counter + 64000) % 2 ^ 32 in
    (bit_xor now counter, record t { counter = counter })

unfoldable pub pick_ephemeral_port : Tcp → ℕ × Tcp
pick_ephemeral_port t =
    let next = (t.next_port + 1) % 2 ^ 16 in
    (t.next_port, record t { next_port = if next == 0 then 49152 else next })

-- `struct tcp_header` and the data behind it, with the window and the checksum given.
unfoldable pub tcp_packet :
    (src_port dst_port seq ack flags window checksum : ℕ) (data' : List ℕ) → List ℕ
tcp_packet src_port dst_port seq ack flags window checksum data' =
    store16 (net_swap16 src_port)
    ++ store16 (net_swap16 dst_port)
    ++ store32 (net_swap32 seq)
    ++ store32 (net_swap32 ack)
    ++ (0x50 ∷ flags ∷ [])
    ++ store16 (net_swap16 window)
    ++ store16 (net_swap16 checksum)
    ++ (0 ∷ 0 ∷ [])
    ++ data'

-- The packet with its checksum, as it is handed to ipv4_send.
unfoldable pub tcp_filled :
    (local_ip remote_ip src_port dst_port seq ack flags window : ℕ) (data' : List ℕ) → TcpSent
tcp_filled local_ip remote_ip src_port dst_port seq ack flags window data' =
    let plain = tcp_packet src_port dst_port seq ack flags window 0 data' in
    let checksum = ipv4_checksum_pseudo local_ip remote_ip ipv4_proto_tcp plain in
    record {
      dest_ip = remote_ip;
      packet = tcp_packet src_port dst_port seq ack flags window checksum data';
    }

unfoldable pub build_and_send : ℕ → Conn → (seq flags : ℕ) (data' : List ℕ) → TcpSent
build_and_send local_ip c seq flags data' =
    tcp_filled local_ip c.remote_ip c.local_port c.remote_port seq
      (if has_flag flags flag_ack then c.recv_next else 0) flags
      ((rx_buf_size + 2 ^ 16 - c.rx_count) % 2 ^ 16) data'

-- The sequence numbers that a segment takes.
unfoldable pub seq_len : ℕ → ℕ → ℕ
seq_len flags data_len =
    data_len
    + (if has_flag flags flag_syn then 1 else 0)
    + (if has_flag flags flag_fin then 1 else 0)

unfoldable pub send_segment : (local_ip now flags : ℕ) (data' : List ℕ) → Conn → Conn × TcpSent
send_segment local_ip now flags data' c = (
  record c {
    unacked_data = data';
    unacked_flags = flags;
    last_send_tick = now;
    retransmit_count = 0;
    send_next = (c.send_next + seq_len flags (length data')) % 2 ^ 32;
  },
  build_and_send local_ip c c.send_next flags data',
)

unfoldable pub send_ack : ℕ → Conn → TcpSent
send_ack local_ip c = build_and_send local_ip c c.send_next flag_ack []

unfoldable pub send_reset :
    (local_ip local_port remote_ip remote_port peer_seq peer_ack peer_data_len peer_flags : ℕ)
    → TcpSent
send_reset local_ip local_port remote_ip remote_port peer_seq peer_ack peer_data_len peer_flags =
    if has_flag peer_flags flag_ack
    then tcp_filled local_ip remote_ip local_port remote_port peer_ack 0 flag_rst 0 []
    else tcp_filled local_ip remote_ip local_port remote_port 0
        ((peer_seq + seq_len peer_flags peer_data_len) % 2 ^ 32) (flag_rst + flag_ack) 0 []
