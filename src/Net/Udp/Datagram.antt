-- ===== src/Net/Udp/Datagram.antt =====
-- The packets of udp_send in udp_handle_packet, udp.c.
use gannet_os.Base.{
  ℕ, ◌+◌, ◌-◌, ◌%◌, ◌^◌, ◌≤◌, ◌<◌, ◌≡◌, refl, ap, ◌∙◌, List, [], ◌∷◌, ◌++◌, arith, ◌==◌,
  if◌then◌else◌, length, length-append, take, drop, take_all,
}
use gannet_os.Net.Bytes.{
  net_swap16, net_swap16-lt, net_swap16-net_swap16, net_swap32, store16, store32, load16,
}
use gannet_os.Net.Checksum.{ipv4_checksum, ipv4_checksum_pseudo, pseudo_header}
use gannet_os.Net.Checksum.Sum.{
  Bytes, Bytes-append, Bytes-store16, Bytes-store32, IsRegion, checksum_zero, checksum_complement,
}
use gannet_os.Net.Checksum.Detects.{with_checksum, word_sum-with_checksum, ipv4_checksum_pseudo_lem}
use gannet_os.Net.Udp.{Socket, udp_max_payload, udp_packet, udp_filled, deliver, udp_handle_packet}

-- The ports, the addresses and the data are ones that `udp_send` is called with.
pub record IsSendable (src_ip dest_ip src_port dest_port : ℕ) (bytes : List ℕ) : Type 0 where
  pub src_port_ok : src_port < 2 ^ 16
  pub dest_port_ok : dest_port < 2 ^ 16
  pub bytes_ok : Bytes bytes
  pub size : length bytes ≤ udp_max_payload

module _ (src_ip dest_ip src_port dest_port : ℕ) (bytes : List ℕ)
    (d : IsSendable src_ip dest_ip src_port dest_port bytes) where
  -- The pseudo-header and the packet in front of its checksum.
  unfoldable front : List ℕ
  unfolding udp_packet
  front =
      pseudo_header src_ip dest_ip 17 (8 + length bytes)
      ++ (store16 (net_swap16 src_port)
          ++ store16 (net_swap16 dest_port)
          ++ store16 (net_swap16 ((8 + length bytes) % 2 ^ 16)))

  pub packet_length : (c : ℕ) → length (udp_packet src_port dest_port c bytes) ≡ 8 + length bytes
  unfolding udp_packet store16
  packet_length c = omega arith

  pseudo_as_region :
      (c : ℕ)
      → ipv4_checksum_pseudo src_ip dest_ip 17 (udp_packet src_port dest_port c bytes)
        ≡ ipv4_checksum (with_checksum front c bytes)
  unfolding front udp_packet pseudo_header store16 store32
  pseudo_as_region c =
      ipv4_checksum_pseudo_lem src_ip dest_ip 17 (udp_packet src_port dest_port c bytes)
      ∙ ap
          (λ n.
            ipv4_checksum
              (pseudo_header src_ip dest_ip 17 n ++ udp_packet src_port dest_port c bytes))
          (packet_length c)

  pseudo-Bytes : Bytes (pseudo_header src_ip dest_ip 17 (8 + length bytes))
  unfolding pseudo_header
  pseudo-Bytes =
      let from : List ℕ = store32 (net_swap32 src_ip) in
      let to : List ℕ = store32 (net_swap32 dest_ip) in
      let kind : Bytes (0 ∷ 17 ∷ []) = (omega arith, (omega arith, omega arith)) in
      let size : List ℕ = store16 (net_swap16 (8 + length bytes)) in
      Bytes-append (from ++ to ++ (0 ∷ 17 ∷ [])) size
        (Bytes-append (from ++ to) (0 ∷ 17 ∷ [])
          (Bytes-append from to (Bytes-store32 (net_swap32 src_ip))
            (Bytes-store32 (net_swap32 dest_ip)))
          kind)
        (Bytes-store16 (net_swap16 (8 + length bytes)))

  abbrev ports : List ℕ
  ports = store16 (net_swap16 src_port) ++ store16 (net_swap16 dest_port)

  front-Bytes : Bytes front
  unfolding front
  front-Bytes =
      let size : ℕ = net_swap16 ((8 + length bytes) % 2 ^ 16) in
      Bytes-append (pseudo_header src_ip dest_ip 17 (8 + length bytes)) (ports ++ store16 size)
        pseudo-Bytes
        (Bytes-append ports (store16 size)
          (Bytes-append (store16 (net_swap16 src_port)) (store16 (net_swap16 dest_port))
            (Bytes-store16 (net_swap16 src_port)) (Bytes-store16 (net_swap16 dest_port)))
          (Bytes-store16 size))

  length-front : length front ≡ 18
  unfolding front pseudo_header store16 store32
  length-front = refl

  region_length : (c : ℕ) → length (with_checksum front c bytes) ≡ 20 + length bytes
  unfolding store16
  region_length c =
      length-append front (store16 (net_swap16 c) ++ bytes) ∙ omega (arith, length-front)

  region : (c : ℕ) → IsRegion (with_checksum front c bytes)
  region c = record {
    bytes_ok =
        Bytes-append _ _ front-Bytes (Bytes-append _ _ (Bytes-store16 (net_swap16 c)) d.bytes_ok);
    size = omega (arith, region_length c, d.size);
  }

  -- The checksum that is sent, where 0 is sent as all ones.
  abbrev sent : ℕ
  sent =
      let checksum =
        ipv4_checksum_pseudo src_ip dest_ip 17 (udp_packet src_port dest_port 0 bytes) in
      if checksum == 0 then 0xffff else checksum

  sent_verifies :
      ipv4_checksum_pseudo src_ip dest_ip 17 (udp_packet src_port dest_port sent bytes) ≡ 0
  sent_verifies =
      let even : length front % 2 ≡ 0 = omega (arith, length-front) in
      let (lt, multiple, some') = checksum_complement (with_checksum front 0 bytes) (region 0) in
      let blank = word_sum-with_checksum front bytes 0 even (omega arith) in
      let same = pseudo_as_region 0 in
      let sent_lt : sent < 2 ^ 16 = ground arith in
      let filled = word_sum-with_checksum front bytes sent even sent_lt in
      pseudo_as_region sent
      ∙ (checksum_zero (with_checksum front sent bytes) (region sent)).1
          (ground arith, λ e. ground arith)

  module _ (c : ℕ) where
    abbrev packet : List ℕ
    packet = udp_packet src_port dest_port c bytes

    length_loaded : net_swap16 (load16 packet 4) ≡ 8 + length bytes
    unfolding udp_packet store16 load16
    length_loaded =
        ap net_swap16 (omega (arith, net_swap16-lt ((8 + length bytes) % 2 ^ 16)))
        ∙ net_swap16-net_swap16 ((8 + length bytes) % 2 ^ 16) (omega arith)
        ∙ omega (arith, d.size)

    dest_port_loaded : net_swap16 (load16 packet 2) ≡ dest_port
    unfolding udp_packet store16 load16
    dest_port_loaded =
        ap net_swap16 (omega (arith, net_swap16-lt dest_port))
        ∙ net_swap16-net_swap16 dest_port d.dest_port_ok

    src_port_loaded : net_swap16 (load16 packet 0) ≡ src_port
    unfolding udp_packet store16 load16
    src_port_loaded =
        ap net_swap16 (omega (arith, net_swap16-lt src_port))
        ∙ net_swap16-net_swap16 src_port d.src_port_ok

    data_dropped : drop 8 packet ≡ bytes
    unfolding udp_packet store16
    data_dropped = refl

-- A packet that passes the checks is delivered.
accepted :
    (local_ip src_ip : ℕ) (packet : List ℕ) (n : ℕ) (ss : List Socket)
    → net_swap16 (load16 packet 4) ≡ n
    → 8 ≤ n
    → length packet ≡ n
    → ipv4_checksum_pseudo src_ip local_ip 17 (take n packet) ≡ 0
    → udp_handle_packet local_ip packet src_ip ss
      ≡ deliver ss
          (net_swap16 (load16 packet 2))
          src_ip
          (net_swap16 (load16 packet 0))
          (take (n - 8) (drop 8 packet))
unfolding udp_handle_packet
accepted local_ip src_ip packet n ss e lo size good = ground (
  arith,
  ap (λ k. ipv4_checksum_pseudo src_ip local_ip 17 (take k packet)) e,
  ap (λ k. take (k - 8) (drop 8 packet)) e,
)

-- The packet that `udp_send` builds is accepted by `udp_handle_packet` of the machine it is sent to,
-- which delivers the data, with the sender's address and port, to the port it is sent to.
pub udp_handle_packet-udp_filled :
    (src_ip dest_ip src_port dest_port : ℕ) (bytes : List ℕ) (ss : List Socket)
    → IsSendable src_ip dest_ip src_port dest_port bytes
    → udp_handle_packet dest_ip (udp_filled src_ip dest_ip src_port dest_port bytes) src_ip ss
      ≡ deliver ss dest_port src_ip src_port bytes
unfolding udp_filled
udp_handle_packet-udp_filled src_ip dest_ip src_port dest_port bytes ss d =
    let c = sent src_ip dest_ip src_port dest_port bytes d in
    let p = udp_packet src_port dest_port c bytes in
    let whole : take (8 + length bytes) p ≡ p =
      take_all (8 + length bytes) p
        (omega (arith, packet_length src_ip dest_ip src_port dest_port bytes d c)) in
    let body : take (8 + length bytes - 8) (drop 8 p) ≡ bytes =
      ap (take (8 + length bytes - 8)) (data_dropped src_ip dest_ip src_port dest_port bytes d c)
      ∙ take_all (8 + length bytes - 8) bytes (omega arith) in
    accepted dest_ip src_ip p (8 + length bytes) ss
      (length_loaded src_ip dest_ip src_port dest_port bytes d c) (omega arith)
      (packet_length src_ip dest_ip src_port dest_port bytes d c)
      (ap (ipv4_checksum_pseudo src_ip dest_ip 17) whole
        ∙ sent_verifies src_ip dest_ip src_port dest_port bytes d)
    ∙ ap
        (λ a.
          deliver ss a src_ip (net_swap16 (load16 p 0)) (take (8 + length bytes - 8) (drop 8 p)))
        (dest_port_loaded src_ip dest_ip src_port dest_port bytes d c)
    ∙ ap (λ b. deliver ss dest_port src_ip b (take (8 + length bytes - 8) (drop 8 p)))
        (src_port_loaded src_ip dest_ip src_port dest_port bytes d c)
    ∙ ap (deliver ss dest_port src_ip src_port) body

pub length-udp_filled :
    (src_ip dest_ip src_port dest_port : ℕ) (bytes : List ℕ)
    → IsSendable src_ip dest_ip src_port dest_port bytes
    → length (udp_filled src_ip dest_ip src_port dest_port bytes) ≡ 8 + length bytes
unfolding udp_filled
length-udp_filled src_ip dest_ip src_port dest_port bytes d =
    packet_length src_ip dest_ip src_port dest_port bytes d
      (sent src_ip dest_ip src_port dest_port bytes d)
