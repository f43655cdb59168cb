-- ===== src/Net/Ipv4.antt =====
-- Sending and receiving IPv4 datagrams, internet_layer/ipv4.c, over any `Link`.
pub mod Send
pub mod Receive
use gannet_os.Base.{
  ℕ, zero, suc, ◌+◌, ◌-◌, ◌*◌, ◌/◌, ◌%◌, ◌^◌, Bool, true, false, not, ◌&&◌, ◌||◌, Option, none,
  some, List, [], ◌∷◌, ◌++◌, ltb, ◌==◌, if◌then◌else◌, bit_and, length, get_or, take, drop,
}
use gannet_os.Net.Bytes.{net_swap16, net_swap32, store16, store32, load16, load32}
use gannet_os.Net.Checksum.{ipv4_checksum}
use gannet_os.Net.Link.{Ipv4, Link}

abbrev pub ipv4_hdr_len : ℕ
ipv4_hdr_len = 20

abbrev pub ipv4_mtu_payload : ℕ
ipv4_mtu_payload = 1500

abbrev pub ipv4_arp_timeout_ticks : ℕ
ipv4_arp_timeout_ticks = 300

abbrev pub eth_type_ipv4 : ℕ
eth_type_ipv4 = 0x0800

unfoldable pub ipv4_init : ℕ → Ipv4 → Ipv4
ipv4_init addr s = record s { local_ip = addr }

unfoldable pub ipv4_set_gateway : (gw mask : ℕ) → Ipv4 → Ipv4
ipv4_set_gateway gw mask s = record s { gateway_ip = gw; subnet_mask = mask }

-- Whose MAC address the frame gets.
unfoldable pub next_hop : Ipv4 → ℕ → ℕ
next_hop s dest_ip =
    if not (s.gateway_ip == 0)
      && not (bit_and dest_ip s.subnet_mask == bit_and s.local_ip s.subnet_mask)
    then s.gateway_ip
    else dest_ip

-- The fields of the header in front of the checksum, and those behind it.
unfoldable pub header_front : (id protocol payload_len : ℕ) → List ℕ
header_front id protocol payload_len =
    ((4 * 16 + 5) ∷ 0 ∷ [])
    ++ store16 (net_swap16 ((ipv4_hdr_len + payload_len) % 2 ^ 16))
    ++ store16 (net_swap16 id)
    ++ store16 0
    ++ (64 ∷ protocol ∷ [])

unfoldable pub header_addresses : (local_ip dest_ip : ℕ) → List ℕ
header_addresses local_ip dest_ip = store32 (net_swap32 local_ip) ++ store32 (net_swap32 dest_ip)

-- The header once its checksum is in place.
unfoldable pub ipv4_header : Ipv4 → (dest_ip protocol payload_len : ℕ) → List ℕ
ipv4_header s dest_ip protocol payload_len =
    let front = header_front s.next_id protocol payload_len in
    let addresses = header_addresses s.local_ip dest_ip in
    let checksum = ipv4_checksum (front ++ (store16 0 ++ addresses)) in
    front ++ (store16 (net_swap16 checksum) ++ addresses)

module _ (L : Link) where
  -- The wait for an address: at most `rounds` rounds of the loop.
  unfoldable pub resolve_loop : (rounds start hop : ℕ) → L.State → Option (List ℕ) × L.State
  resolve_loop zero start hop l = (none, l)
  resolve_loop (suc rounds) start hop l =
      let (found, asked) = L.arp_resolve hop l in
      elim found [
        | some mac ↦ (some mac, asked)
        | none ↦
            let polled = L.poll asked in
            let rest = resolve_loop rounds start hop polled in
            if ltb ipv4_arp_timeout_ticks ((L.pit_ticks polled + 2 ^ 32 - start) % 2 ^ 32)
            then (none, polled)
            else rest
      ]

  unfoldable pub resolve : (rounds hop : ℕ) → L.State → Option (List ℕ) × L.State
  resolve rounds hop l =
      let (found, asked) = L.arp_resolve hop l in
      elim found [
        | some mac ↦ (some mac, asked)
        | none ↦ resolve_loop rounds (L.pit_ticks asked) hop asked
      ]

  unfoldable pub ipv4_send :
      (rounds dest_ip protocol : ℕ) (payload : List ℕ) → L.State → Bool × L.State
  ipv4_send rounds dest_ip protocol payload l =
      let (found, u) = resolve rounds (next_hop (L.get_ipv4 l) dest_ip) l in
      let s = L.get_ipv4 u in
      if ltb (ipv4_hdr_len + ipv4_mtu_payload) (ipv4_hdr_len + length payload)
      then (false, l)
      else elim found [
        | none ↦ (false, u)
        | some mac ↦
            L.ethernet_send mac eth_type_ipv4
              (ipv4_header s dest_ip protocol (length payload) ++ payload)
              (L.put_ipv4 (record s { next_id = (s.next_id + 1) % 2 ^ 16 }) u)
      ]

-- Which handler a datagram goes to, with its body and the address of its sender.
pub data Delivery : Type 0 where
  dropped : Delivery
  to_icmp to_udp to_tcp : (body : List ℕ) (src_ip : ℕ) → Delivery

-- `switch (hdr->protocol)`
unfoldable pub dispatch : (protocol : ℕ) (body : List ℕ) (src_ip : ℕ) → Delivery
dispatch protocol body src_ip =
    if protocol == 1
    then Delivery.to_icmp body src_ip
    else if protocol == 17
    then Delivery.to_udp body src_ip
    else if protocol == 6
    then Delivery.to_tcp body src_ip
    else Delivery.dropped

-- `ipv4_handle_frame`, on the `len` bytes behind the Ethernet header.
unfoldable pub ipv4_handle_frame : Ipv4 → List ℕ → Delivery
ipv4_handle_frame s frame =
    let version_ihl = get_or frame 0 0 in
    let total_len = net_swap16 (load16 frame 2) in
    if ltb (length frame) ipv4_hdr_len
    then Delivery.dropped
    else if not (version_ihl / 16 == 4) || not (version_ihl % 16 == 5)
    then Delivery.dropped
    else if not (ipv4_checksum (take ipv4_hdr_len frame) == 0)
    then Delivery.dropped
    else if not (net_swap32 (load32 frame 16) == s.local_ip)
    then Delivery.dropped
    else if ltb total_len ipv4_hdr_len || ltb (length frame) total_len
    then Delivery.dropped
    else dispatch (get_or frame 9 0) (take (total_len - ipv4_hdr_len) (drop ipv4_hdr_len frame))
        (net_swap32 (load32 frame 12))
