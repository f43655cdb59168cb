-- ===== src/Net/Udp/Exchange.antt =====
-- From `udp_send` on one machine to `udp_socket_recv` on another.
use gannet_os.Base.{
  ℕ, zero, suc, ◌+◌, ◌%◌, ◌^◌, ◌≤◌, ◌<◌, ◌≡◌, refl, sym, ap, subst, ◌∙◌, true, false, not, ◌||◌,
  some, List, [], ◌∷◌, ◌++◌, arith, ltb, inl, inr, ◌==◌, if◌then◌else◌, Bool-cases, length,
  append_assoc, take, drop, take-prefix, take_all,
}
use gannet_os.Net.Link.{Ipv4, Link}
use gannet_os.Net.Ipv4.{
  next_hop, resolve, ipv4_header, eth_type_ipv4, Delivery, dispatch, ipv4_handle_frame,
}
use gannet_os.Net.Ipv4.Send.{ipv4_send-resolve}
use gannet_os.Net.Ipv4.Receive.{IsDatagram, ipv4_handle_frame-ipv4_header}
use gannet_os.Net.Udp.{
  Socket, is_bound_to, udp_max_payload, udp_filled, deliver, udp_handle_packet, udp_socket_recv,
  udp_send,
}
use gannet_os.Net.Udp.Sockets.{IsTable, socket_at}
use gannet_os.Net.Udp.Datagram.{IsSendable, length-udp_filled, udp_handle_packet-udp_filled}

-- A socket once a datagram is in it.
abbrev filled : Socket → (src_ip src_port : ℕ) → List ℕ → Socket
filled s src_ip src_port bytes = record s {
  rx_buf = take udp_max_payload bytes ++ drop (length (take udp_max_payload bytes)) s.rx_buf;
  rx_len = length (take udp_max_payload bytes);
  rx_src_ip = src_ip;
  rx_src_port = src_port;
}

socket_at-deliver :
    (ss : List Socket) (port src_ip src_port : ℕ) (bytes : List ℕ) (h : ℕ)
    → is_bound_to port (socket_at ss h) ≡ true
    → ((j : ℕ) → is_bound_to port (socket_at ss j) ≡ true → j ≡ h)
    → socket_at (deliver ss port src_ip src_port bytes) h
      ≡ filled (socket_at ss h) src_ip src_port bytes
unfolding deliver
socket_at-deliver [] port src_ip src_port bytes h p only = cc
socket_at-deliver (s ∷ ss) port src_ip src_port bytes zero p only = rw p refl
socket_at-deliver (s ∷ ss) port src_ip src_port bytes (suc h) p only =
    elim (Bool-cases (is_bound_to port s)) [
      | inl first ↦ absurd (omega (arith, only 0 first))
      | inr other ↦ rw other (
          socket_at-deliver ss port src_ip src_port bytes h p
            (λ j q. omega (arith, only (suc j) q)))
    ]

received :
    (ss : List Socket) (h n : ℕ) (s : Socket)
    → socket_at ss h ≡ s
    → h < 8
    → s.bound ≡ true
    → 0 < s.rx_len
    → s.rx_len ≤ n
    → (udp_socket_recv h n ss).0 ≡ some (take s.rx_len s.rx_buf, s.rx_src_ip, s.rx_src_port)
unfolding udp_socket_recv
received ss h n s e h_in open' pos fits =
    let asked : (not (ltb h 8) || not s.bound) ≡ false = ground arith in
    let waiting : (s.rx_len == 0) ≡ false = ground arith in
    let whole : (if ltb s.rx_len n then s.rx_len else n) ≡ s.rx_len = ground arith in
    rw (udp_socket_recv, e, asked, waiting, whole) refl

-- Let a machine send between 1 and 1472 bytes to a port, with ports of 16 bits, and let the packet
-- arrive as it is at a machine with a table of eight sockets, their ports apart, of which one is
-- open at that port. Then `udp_socket_recv` for that socket, with a buffer that the data fits
-- into, returns the data with the sender's address and port.
pub udp_socket_recv-udp_filled :
    (src_ip dest_ip src_port dest_port : ℕ) (bytes : List ℕ) (ss : List Socket) (h n : ℕ)
    → IsSendable src_ip dest_ip src_port dest_port bytes
    → IsTable ss
    → h < 8
    → is_bound_to dest_port (socket_at ss h) ≡ true
    → 0 < length bytes
    → length bytes ≤ n
    → (udp_socket_recv h n (
        udp_handle_packet dest_ip (udp_filled src_ip dest_ip src_port dest_port bytes) src_ip ss)).0
      ≡ some (bytes, src_ip, src_port)
udp_socket_recv-udp_filled src_ip dest_ip src_port dest_port bytes ss h n d t h_in open' pos fits =
    let all : take udp_max_payload bytes ≡ bytes = take_all udp_max_payload bytes d.size in
    let handled = udp_handle_packet-udp_filled src_ip dest_ip src_port dest_port bytes ss d in
    let there =
      socket_at-deliver ss dest_port src_ip src_port bytes h open'
        (λ j q. t.unique j h dest_port q open') in
    ap (λ ts. (udp_socket_recv h n ts).0) handled
    ∙ received (deliver ss dest_port src_ip src_port bytes) h n
        (filled (socket_at ss h) src_ip src_port bytes) there h_in (ground arith)
        (omega (arith, ap length all)) (omega (arith, ap length all))
    ∙ ap (λ b. some (b, src_ip, src_port))
        (take-prefix (take udp_max_payload bytes)
            (drop (length (take udp_max_payload bytes)) (socket_at ss h).rx_buf)
          ∙ all)

dispatch-udp :
    (packet : List ℕ) (src_ip : ℕ) → dispatch 17 packet src_ip ≡ Delivery.to_udp packet src_ip
unfolding dispatch
dispatch-udp packet src_ip = refl

frame_received :
    (s r : Ipv4) (dest_ip : ℕ) (packet padding : List ℕ)
    → r.local_ip ≡ dest_ip
    → IsDatagram s dest_ip 17 (length packet)
    → ipv4_handle_frame r (ipv4_header s dest_ip 17 (length packet) ++ packet ++ padding)
      ≡ Delivery.to_udp packet s.local_ip
frame_received s r dest_ip packet padding to d =
    ap (λ a. ipv4_handle_frame r (ipv4_header s a 17 (length packet) ++ packet ++ padding)) (sym to)
    ∙ ap (ipv4_handle_frame r)
        (append_assoc (ipv4_header s r.local_ip 17 (length packet)) packet padding)
    ∙ ipv4_handle_frame-ipv4_header s r 17 packet padding
        (subst (λ a. IsDatagram s a 17 (length packet)) (sym to) d)
    ∙ dispatch-udp packet s.local_ip

-- Let the address resolution answer, let the wait for it not change the sender's own address, and
-- let the data fit and the ports, addresses and the identification be in range. Then `udp_send`
-- gives one frame to the card, for the next hop; the machine with the destination's address, when
-- it receives the frame with any padding, hands the packet of `udp_send` to UDP, as from the
-- sender's address.
pub udp_send-ipv4_handle_frame :
    (L : Link) (rounds dest_ip src_port dest_port : ℕ) (bytes : List ℕ) (l : L.State) (mac : List ℕ)
    → let s = L.get_ipv4 l in
      IsSendable s.local_ip dest_ip src_port dest_port bytes
      → let (found, u) = resolve L rounds (next_hop s dest_ip) l in
        found ≡ some mac
        → (L.get_ipv4 u).local_ip ≡ s.local_ip
        → IsDatagram (L.get_ipv4 u) dest_ip 17 (8 + length bytes)
        → (frame : List ℕ) × (udp_send L rounds dest_ip src_port dest_port bytes l
            ≡ L.ethernet_send mac eth_type_ipv4 frame (
                L.put_ipv4
                  (record (L.get_ipv4 u) { next_id = ((L.get_ipv4 u).next_id + 1) % 2 ^ 16 })
                  u))
          × ((r : Ipv4) (padding : List ℕ)
              → r.local_ip ≡ dest_ip
              → ipv4_handle_frame r (frame ++ padding)
                ≡ Delivery.to_udp
                    (udp_filled s.local_ip dest_ip src_port dest_port bytes)
                    s.local_ip)
unfolding udp_send
udp_send-ipv4_handle_frame L rounds dest_ip src_port dest_port bytes l mac d e same g =
    let s = L.get_ipv4 l in
    let u = (resolve L rounds (next_hop s dest_ip) l).1 in
    let packet = udp_filled s.local_ip dest_ip src_port dest_port bytes in
    let size : length packet ≡ 8 + length bytes =
      length-udp_filled s.local_ip dest_ip src_port dest_port bytes d in
    let fits : ltb udp_max_payload (length bytes) ≡ false = ground (arith, d.size) in
    (
      ipv4_header (L.get_ipv4 u) dest_ip 17 (length packet) ++ packet,
      rw fits (ipv4_send-resolve L rounds dest_ip 17 packet l mac (omega (arith, size, d.size)) e),
      λ r padding to.
          frame_received (L.get_ipv4 u) r dest_ip packet padding to
            (subst (λ n. IsDatagram (L.get_ipv4 u) dest_ip 17 n) (sym size) g)
          ∙ ap (Delivery.to_udp packet) same,
    )
