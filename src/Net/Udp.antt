-- ===== src/Net/Udp.antt =====
-- UDP and its sockets, transport_protocols/udp.c.
pub mod Sockets
pub mod History
pub mod Datagram
pub mod Exchange
use gannet_os.Base.{
  ℕ, zero, suc, ◌+◌, ◌-◌, ◌*◌, ◌%◌, ◌^◌, Bool, true, false, not, ◌&&◌, ◌||◌, Option, none, some,
  is_some, List, [], ◌∷◌, ◌++◌, ltb, min, ◌==◌, if◌then◌else◌, length, get_or, set, take, drop,
  replicate,
}
use gannet_os.Net.Bytes.{net_swap16, store16, load16}
use gannet_os.Net.Checksum.{ipv4_checksum_pseudo}
use gannet_os.Net.Link.{Ipv4, Link}
use gannet_os.Net.Ipv4.{ipv4_send}

abbrev pub udp_hdr_len : ℕ
udp_hdr_len = 8

abbrev pub udp_max_payload : ℕ
udp_max_payload = 1472

abbrev pub udp_max_sockets : ℕ
udp_max_sockets = 8

abbrev pub ipv4_proto_udp : ℕ
ipv4_proto_udp = 17

-- `struct udp_socket`
pub record Socket : Type 0 where
  pub bound : Bool
  pub local_port : ℕ
  pub rx_buf : List ℕ
  pub rx_len : ℕ
  pub rx_src_ip : ℕ
  pub rx_src_port : ℕ

unfoldable pub empty_buffer : List ℕ
empty_buffer = replicate udp_max_payload 0

-- A socket as it stands in .bss.
abbrev pub closed : Socket
closed = record {
  bound = false;
  local_port = 0;
  rx_buf = empty_buffer;
  rx_len = 0;
  rx_src_ip = 0;
  rx_src_port = 0;
}

abbrev pub is_bound_to : ℕ → Socket → Bool
is_bound_to port s = s.bound && (s.local_port == port)

unfoldable pub udp_init : List Socket → List Socket
udp_init [] = []
udp_init (s ∷ ss) = record s { bound = false } ∷ udp_init ss

-- The loop of `udp_socket_open` from socket `i` on, with the free slot found so far: the slot to
-- use, `none` for the two returns of -1.
unfoldable pub open_loop : List Socket → (i local_port : ℕ) → (free_slot : Option ℕ) → Option ℕ
open_loop [] i local_port free_slot = free_slot
open_loop (s ∷ ss) i local_port free_slot =
    let rest =
      open_loop ss (i + 1) local_port
        (if not s.bound && not (is_some free_slot) then some i else free_slot) in
    if is_bound_to local_port s then none else rest

unfoldable pub udp_socket_open : ℕ → List Socket → Option ℕ × List Socket
udp_socket_open local_port sockets = elim (open_loop sockets 0 local_port none) [
  | none ↦ (none, sockets)
  | some slot ↦ (
    some slot,
    set sockets slot
        (record (get_or sockets slot closed) { bound = true; local_port = local_port; rx_len = 0 }),
  )
]

-- A negative handle is not modelled: it is out of range like one that is too large.
unfoldable pub udp_socket_close : ℕ → List Socket → List Socket
udp_socket_close handle sockets =
    if ltb handle udp_max_sockets
    then set sockets handle (record (get_or sockets handle closed) { bound = false })
    else sockets

-- What `udp_socket_recv` passes out: the bytes copied to `buf`, as many as it returns, with the
-- sender; `none` where it returns 0 because nothing waits.
unfoldable pub udp_socket_recv :
    (handle buf_len : ℕ) → List Socket → Option (List ℕ × ℕ × ℕ) × List Socket
udp_socket_recv handle buf_len sockets =
    let sock = get_or sockets handle closed in
    let copy_len = if ltb sock.rx_len buf_len then sock.rx_len else buf_len in
    if not (ltb handle udp_max_sockets) || not sock.bound
    then (none, sockets)
    else if sock.rx_len == 0
    then (none, sockets)
    else (
      some (take copy_len sock.rx_buf, sock.rx_src_ip, sock.rx_src_port),
      set sockets handle (record sock { rx_len = 0 }),
    )

-- `struct udp_header` and the data behind it, with a given checksum field.
unfoldable pub udp_packet : (src_port dest_port checksum : ℕ) (data' : List ℕ) → List ℕ
udp_packet src_port dest_port checksum data' =
    (store16 (net_swap16 src_port)
      ++ store16 (net_swap16 dest_port)
      ++ store16 (net_swap16 ((udp_hdr_len + length data') % 2 ^ 16)))
    ++ (store16 (net_swap16 checksum) ++ data')

-- The packet that `udp_send` hands down.
unfoldable pub udp_filled : (src_ip dest_ip src_port dest_port : ℕ) (data' : List ℕ) → List ℕ
udp_filled src_ip dest_ip src_port dest_port data' =
    let checksum =
      ipv4_checksum_pseudo src_ip dest_ip ipv4_proto_udp (udp_packet src_port dest_port 0 data') in
    udp_packet src_port dest_port (if checksum == 0 then 0xffff else checksum) data'

unfoldable pub udp_send :
    (L : Link) (rounds dest_ip src_port dest_port : ℕ) (data' : List ℕ) → L.State → Bool × L.State
udp_send L rounds dest_ip src_port dest_port data' l =
    if ltb udp_max_payload (length data')
    then (false, l)
    else ipv4_send L rounds dest_ip ipv4_proto_udp
        (udp_filled (L.get_ipv4 l).local_ip dest_ip src_port dest_port data') l

-- The loop that finds the socket of a port and puts the datagram into it.
unfoldable pub deliver : List Socket → (dst_port src_ip src_port : ℕ) (data' : List ℕ) → List Socket
deliver [] dst_port src_ip src_port data' = []
deliver (s ∷ ss) dst_port src_ip src_port data' =
    let copied = take udp_max_payload data' in
    let rest = deliver ss dst_port src_ip src_port data' in
    if is_bound_to dst_port s
    then record s {
      rx_buf = copied ++ drop (length copied) s.rx_buf;
      rx_len = length copied;
      rx_src_ip = src_ip;
      rx_src_port = src_port;
    }
      ∷ ss
    else s ∷ rest

-- `udp_handle_packet`, on the `len` bytes of the body.
unfoldable pub udp_handle_packet :
    (local_ip : ℕ) (packet : List ℕ) (src_ip : ℕ) → List Socket → List Socket
udp_handle_packet local_ip packet src_ip sockets =
    let udp_len = net_swap16 (load16 packet 4) in
    if ltb (length packet) udp_hdr_len
    then sockets
    else if ltb udp_len udp_hdr_len || ltb (length packet) udp_len
    then sockets
    else if not (load16 packet 6 == 0)
        && not (ipv4_checksum_pseudo src_ip local_ip ipv4_proto_udp (take udp_len packet) == 0)
    then sockets
    else deliver sockets (net_swap16 (load16 packet 2)) src_ip (net_swap16 (load16 packet 0))
        (take (udp_len - udp_hdr_len) (drop udp_hdr_len packet))
