-- ===== src/Net/Ethernet/Frames.antt =====
-- Frames of ethernet.c between two machines.
use gannet_os.Base.{
  ℕ, ◌+◌, ◌^◌, ◌≤◌, ◌<◌, ◌≡◌, refl, ap, ◌∙◌, false, some, List, [], ◌∷◌, ◌++◌, arith, ltb, ◌==◌,
  if◌then◌else◌, length, take, drop, append_assoc,
}
use gannet_os.Net.Bytes.{net_swap16, net_swap16-lt, net_swap16-net_swap16, store16, load16}
use gannet_os.Net.Ethernet.{
  ethernet_send, ethernet_poll, Received, eth_type_arp, eth_type_ipv4, rtl8139_max_frame,
}

-- The six bytes of a MAC address.
pub data IsMac : List ℕ → Type 0 where
  six : (a b c d e f : ℕ) → IsMac (a ∷ b ∷ c ∷ d ∷ e ∷ f ∷ [])

pub is_mac : (m : List ℕ) → length m ≡ 6 → IsMac m
is_mac [] h = absurd (omega arith)
is_mac (a ∷ []) h = absurd (omega arith)
is_mac (a ∷ b ∷ []) h = absurd (omega arith)
is_mac (a ∷ b ∷ c ∷ []) h = absurd (omega arith)
is_mac (a ∷ b ∷ c ∷ d ∷ []) h = absurd (omega arith)
is_mac (a ∷ b ∷ c ∷ d ∷ e ∷ []) h = absurd (omega arith)
is_mac (a ∷ b ∷ c ∷ d ∷ e ∷ f ∷ []) h = IsMac.six a b c d e f
is_mac (a ∷ b ∷ c ∷ d ∷ e ∷ f ∷ g ∷ m) h = absurd (omega arith)

-- Which handler the frame type asks for.
abbrev pub handler : (ethertype : ℕ) (body src_mac : List ℕ) → Received
handler ethertype body src_mac =
    if ethertype == eth_type_arp
    then Received.to_arp body src_mac
    else if ethertype == eth_type_ipv4
    then Received.to_ipv4 body src_mac
    else Received.ignored

read_as :
    (f : List ℕ) (t : ℕ)
    → 14 ≤ length f
    → net_swap16 (load16 f 12) ≡ t
    → ethernet_poll f ≡ handler t (drop 14 f) (take 6 (drop 6 f))
unfolding ethernet_poll
read_as f t long e =
    let enough : ltb (length f) 14 ≡ false = ground arith in rw (ethernet_poll, enough, e) refl

polled :
    (own_mac dest_mac : List ℕ) (ethertype : ℕ) (body : List ℕ)
    → IsMac own_mac
    → IsMac dest_mac
    → ethertype < 2 ^ 16
    → ethernet_poll (dest_mac ++ (own_mac ++ (store16 (net_swap16 ethertype) ++ body)))
      ≡ handler ethertype body own_mac
unfolding store16 load16
polled own_mac dest_mac ethertype body (IsMac.six a b c d e f) (IsMac.six u v w x y z) h =
    read_as (dest_mac ++ (own_mac ++ (store16 (net_swap16 ethertype) ++ body))) ethertype
      (omega arith)
      (ap net_swap16 (omega (arith, net_swap16-lt ethertype)) ∙ net_swap16-net_swap16 ethertype h)

-- With MAC addresses of six bytes and a 16-bit type, a payload that fits is sent in one frame,
-- which the receiver, with any padding behind it, hands to the handler of its type, with the
-- payload, the padding and the sender's MAC address.
pub ethernet_poll-ethernet_send :
    (own_mac dest_mac : List ℕ) (ethertype : ℕ) (payload padding : List ℕ)
    → length own_mac ≡ 6
    → length dest_mac ≡ 6
    → ethertype < 2 ^ 16
    → length payload + 14 ≤ rtl8139_max_frame
    → (frame : List ℕ) × (ethernet_send own_mac dest_mac ethertype payload ≡ some frame)
      × (ethernet_poll (frame ++ padding) ≡ handler ethertype (payload ++ padding) own_mac)
unfolding ethernet_send
ethernet_poll-ethernet_send own_mac dest_mac ethertype payload padding p q h fits =
    let field : List ℕ = store16 (net_swap16 ethertype) in
    let within : ltb rtl8139_max_frame (length payload + 14) ≡ false = ground arith in
    (
      dest_mac ++ (own_mac ++ (field ++ payload)),
      rw (ethernet_send, within) refl,
      ap ethernet_poll (
            append_assoc dest_mac (own_mac ++ (field ++ payload)) padding
            ∙ ap (λ r. dest_mac ++ r)
                (append_assoc own_mac (field ++ payload) padding
                  ∙ ap (λ r. own_mac ++ r) (append_assoc field payload padding)))
          ∙ polled own_mac dest_mac ethertype (payload ++ padding) (is_mac own_mac p)
              (is_mac dest_mac q) h,
    )
