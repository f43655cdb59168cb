-- ===== src/Net/Ethernet.antt =====
-- Ethernet frames, link_layer/ethernet.c. The card is a parameter: a frame is handed to it, or it
-- has received one.
pub mod Frames
use gannet_os.Base.{
  ℕ, ◌+◌, ◌-◌, ◌%◌, ◌/◌, ◌*◌, ◌^◌, ◌≤◌, ◌<◌, ◌≡◌, refl, sym, ap, ◌∙◌, Bool, true, false, Option,
  none, some, List, [], ◌∷◌, ◌++◌, arith, ltb, ◌==◌, if◌then◌else◌, length, length-append, take,
  drop,
}
use gannet_os.Net.Bytes.{net_swap16, net_swap16-lt, net_swap16-net_swap16, store16, load16}

abbrev pub eth_hdr_len : ℕ
eth_hdr_len = 14

abbrev pub eth_type_arp : ℕ
eth_type_arp = 0x0806

abbrev pub eth_type_ipv4 : ℕ
eth_type_ipv4 = 0x0800

abbrev pub rtl8139_max_frame : ℕ
rtl8139_max_frame = 1792

-- The frame that `ethernet_send` gives to `rtl8139_send`, `none` where it returns 0 itself.
unfoldable pub ethernet_send :
    (own_mac dest_mac : List ℕ) (ethertype : ℕ) (payload : List ℕ) → Option (List ℕ)
ethernet_send own_mac dest_mac ethertype payload =
    if ltb rtl8139_max_frame (length payload + eth_hdr_len)
    then none
    else some (dest_mac ++ (own_mac ++ (store16 (net_swap16 ethertype) ++ payload)))

-- Which handler gets the body of a frame, and the sender's MAC address.
pub data Received : Type 0 where
  ignored : Received
  to_arp to_ipv4 : (body src_mac : List ℕ) → Received

-- `ethernet_poll`, once `rtl8139_receive` has filled in a frame of this length.
unfoldable pub ethernet_poll : List ℕ → Received
ethernet_poll frame =
    let ethertype = net_swap16 (load16 frame 12) in
    let body = drop eth_hdr_len frame in
    let src = take 6 (drop 6 frame) in
    if ltb (length frame) eth_hdr_len
    then Received.ignored
    else if ethertype == eth_type_arp
    then Received.to_arp body src
    else if ethertype == eth_type_ipv4
    then Received.to_ipv4 body src
    else Received.ignored
