-- ===== src/Net/Ipv4/Receive.antt =====
-- The datagrams of ipv4_send in ipv4_handle_frame, ipv4.c.
use gannet_os.Base.{
  ℕ, ◌+◌, ◌-◌, ◌%◌, ◌^◌, ◌≤◌, ◌<◌, ◌≡◌, ◌≢◌, refl, sym, ap, ◌∙◌, List, ◌++◌, arith, length,
  length-append, get_or, take, drop, take-prefix, set, take-set_inside, get_or-take, length-take,
  ◌⊎◌, inl, inr,
}
use gannet_os.Net.Bytes.{
  net_swap16, net_swap32, net_swap16-lt, net_swap32-lt, net_swap16-net_swap16,
  net_swap32-net_swap32, store16, store32, load16, load32,
}
use gannet_os.Net.Checksum.{ipv4_checksum}
use gannet_os.Net.Checksum.Sum.{Bytes, Bytes-append, Bytes-store16, IsRegion}
use gannet_os.Net.Checksum.Detects.{with_checksum, ipv4_checksum-set, ipv4_checksum-with_checksum}
use gannet_os.Net.Link.{Ipv4}
use gannet_os.Net.Ipv4.{
  header_front, header_addresses, ipv4_header, Delivery, dispatch, ipv4_handle_frame,
}

-- What the sender's state, the addresses and the sizes are.
pub record IsDatagram (s : Ipv4) (dest_ip protocol payload_len : ℕ) : Type 0 where
  pub local_ok : s.local_ip < 2 ^ 32
  pub dest_ok : dest_ip < 2 ^ 32
  pub id_ok : s.next_id < 2 ^ 16
  pub protocol_ok : protocol < 256
  pub size : payload_len ≤ 1500

module _ (s : Ipv4) (dest_ip protocol payload_len : ℕ)
    (d : IsDatagram s dest_ip protocol payload_len) where
  abbrev header : List ℕ
  header = ipv4_header s dest_ip protocol payload_len

  length-header : length header ≡ 20
  unfolding ipv4_header header_front header_addresses store16 store32
  length-header = refl

  front-Bytes : Bytes (header_front s.next_id protocol payload_len)
  unfolding header_front store16
  front-Bytes = (
    omega arith,
    (
      omega arith,
      (
        omega arith,
        (
          omega arith,
          (
            omega arith,
            (
              omega arith,
              (omega arith, (omega arith, (omega arith, (d.protocol_ok, omega arith)))),
            ),
          ),
        ),
      ),
    ),
  )

  addresses-Bytes : Bytes (header_addresses s.local_ip dest_ip)
  unfolding header_addresses store32
  addresses-Bytes = (
    omega arith,
    (
      omega arith,
      (
        omega arith,
        (omega arith, (omega arith, (omega arith, (omega arith, (omega arith, omega arith))))),
      ),
    ),
  )

  header_short :
      (c : ℕ)
      → length (
          with_checksum
            (header_front s.next_id protocol payload_len)
            c
            (header_addresses s.local_ip dest_ip))
        < 2 ^ 16
  unfolding header_front header_addresses store16 store32
  header_short c = omega arith

  front_even : length (header_front s.next_id protocol payload_len) % 2 ≡ 0
  unfolding header_front store16
  front_even = refl

  header-IsRegion :
      (c : ℕ)
      → IsRegion (
          with_checksum
            (header_front s.next_id protocol payload_len)
            c
            (header_addresses s.local_ip dest_ip))
  header-IsRegion c = record {
    bytes_ok =
        Bytes-append _ _ front-Bytes
          (Bytes-append _ _ (Bytes-store16 (net_swap16 c)) addresses-Bytes);
    size = header_short c;
  }

  -- The checksum of the header that is sent is 0.
  header_verifies : ipv4_checksum header ≡ 0
  unfolding ipv4_header net_swap16
  header_verifies =
      ipv4_checksum-with_checksum (header_front s.next_id protocol payload_len)
        (header_addresses s.local_ip dest_ip) front_even (header-IsRegion 0) (header-IsRegion _)

  module _ (rest : List ℕ) where
    abbrev frame : List ℕ
    frame = header ++ rest

    dst_loaded : net_swap32 (load32 frame 16) ≡ dest_ip
    unfolding ipv4_header header_front header_addresses store16 store32 load32
    dst_loaded =
        ap net_swap32 (omega (arith, net_swap32-lt dest_ip d.dest_ok))
        ∙ net_swap32-net_swap32 dest_ip d.dest_ok

    src_loaded : net_swap32 (load32 frame 12) ≡ s.local_ip
    unfolding ipv4_header header_front header_addresses store16 store32 load32
    src_loaded =
        ap net_swap32 (omega (arith, net_swap32-lt s.local_ip d.local_ok))
        ∙ net_swap32-net_swap32 s.local_ip d.local_ok

    total_loaded : net_swap16 (load16 frame 2) ≡ 20 + payload_len
    unfolding ipv4_header header_front header_addresses store16 store32 load16
    total_loaded =
        ap net_swap16 (omega (arith, net_swap16-lt ((20 + payload_len) % 2 ^ 16)))
        ∙ net_swap16-net_swap16 ((20 + payload_len) % 2 ^ 16) (omega arith)
        ∙ omega (arith, d.size)

    first_byte : get_or frame 0 0 ≡ 69
    unfolding ipv4_header header_front header_addresses store16 store32
    first_byte = refl

    protocol_byte : get_or frame 9 0 ≡ protocol
    unfolding ipv4_header header_front header_addresses store16 store32
    protocol_byte = refl

    header_taken : take 20 frame ≡ header
    unfolding ipv4_header header_front header_addresses store16 store32
    header_taken = refl

    rest_dropped : drop 20 frame ≡ rest
    unfolding ipv4_header header_front header_addresses store16 store32
    rest_dropped = refl

    length-frame : length frame ≡ 20 + length rest
    length-frame = length-append header rest ∙ ap (λ n. n + length rest) length-header

-- A frame that passes every check goes to its handler.
accepted :
    (r : Ipv4) (f : List ℕ) (t : ℕ)
    → get_or f 0 0 ≡ 69
    → ipv4_checksum (take 20 f) ≡ 0
    → net_swap32 (load32 f 16) ≡ r.local_ip
    → net_swap16 (load16 f 2) ≡ t
    → 20 ≤ t
    → t ≤ length f
    → ipv4_handle_frame r f
      ≡ dispatch (get_or f 9 0) (take (t - 20) (drop 20 f)) (net_swap32 (load32 f 12))
unfolding ipv4_handle_frame
accepted r f t version good dst total lo hi = ground arith

-- A datagram that a machine builds, of at most 1500 bytes of payload, with 32-bit addresses and a
-- protocol number of one byte, is handed over whole by the machine that it is addressed to,
-- whatever padding follows it in the frame: to the handler of its protocol, with the payload that
-- was sent and the sender's address.
pub ipv4_handle_frame-ipv4_header :
    (s r : Ipv4) (protocol : ℕ) (payload padding : List ℕ)
    → IsDatagram s r.local_ip protocol (length payload)
    → ipv4_handle_frame r
        (ipv4_header s r.local_ip protocol (length payload) ++ (payload ++ padding))
      ≡ dispatch protocol payload s.local_ip
ipv4_handle_frame-ipv4_header s r protocol payload padding d =
    let rest = payload ++ padding in
    let h = ipv4_header s r.local_ip protocol (length payload) in
    let body : take (20 + length payload - 20) (drop 20 (h ++ rest)) ≡ payload =
      ap (take (20 + length payload - 20)) (rest_dropped s _ protocol _ d rest)
      ∙ ap (λ n. take n rest) (omega arith)
      ∙ take-prefix payload padding in
    accepted r (h ++ rest) (20 + length payload) (first_byte s _ protocol _ d rest)
      (ap ipv4_checksum (header_taken s _ protocol _ d rest) ∙ header_verifies s _ protocol _ d)
      (dst_loaded s _ protocol _ d rest) (total_loaded s _ protocol _ d rest) (omega arith)
      (omega (arith, length-frame s _ protocol _ d rest, length-append payload padding))
    ∙ ap
        (λ p.
          dispatch p (take (20 + length payload - 20) (drop 20 (h ++ rest)))
            (net_swap32 (load32 (h ++ rest) 12)))
        (protocol_byte s _ protocol _ d rest)
    ∙ ap (λ b. dispatch protocol b (net_swap32 (load32 (h ++ rest) 12))) body
    ∙ ap (dispatch protocol payload) (src_loaded s _ protocol _ d rest)

refused_or_good :
    (s : Ipv4) (g : List ℕ)
    → (ipv4_handle_frame s g ≡ Delivery.dropped)
      ⊎ ((20 ≤ length g) × (ipv4_checksum (take 20 g) ≡ 0))
unfolding ipv4_handle_frame
refused_or_good s g = ground arith

bad_checksum :
    (s : Ipv4) (g : List ℕ)
    → ipv4_checksum (take 20 g) ≢ 0
    → ipv4_handle_frame s g ≡ Delivery.dropped
unfolding ipv4_handle_frame
bad_checksum s g bad = ground arith

-- A frame of bytes that is handed over is dropped once one byte of its header has become a
-- different byte.
pub ipv4_handle_frame-set :
    (r : Ipv4) (f : List ℕ) (i v : ℕ)
    → IsRegion (take 20 f)
    → ipv4_handle_frame r f ≢ Delivery.dropped
    → i < 20
    → v < 256
    → v ≢ get_or f i 0
    → ipv4_handle_frame r (set f i v) ≡ Delivery.dropped
ipv4_handle_frame-set r f i v p handed i_in v_in differ = elim (refused_or_good r f) [
  | inl refused ↦ absurd (handed refused)
  | inr (long, good) ↦ bad_checksum r (set f i v) (λ e.
      ipv4_checksum-set (take 20 f) i v p good (omega (arith, length-take 20 f, long)) v_in
        (λ same. differ (same ∙ get_or-take 20 i f 0 i_in))
        (ap ipv4_checksum (sym (take-set_inside 20 i f v i_in)) ∙ e))
]
