-- ===== src/Net/Icmp.antt =====
-- Echo requests and replies, internet_layer/icmp.c. A packet that is handed to `ipv4_send` is a
-- part of the result.
pub mod Echo
use gannet_os.Base.{
  ℕ, ◌+◌, ◌-◌, ◌*◌, ◌%◌, ◌^◌, Bool, true, false, not, ◌&&◌, ◌||◌, Option, none, some, List, [], ◌∷◌,
  ◌++◌, ltb, ◌==◌, if◌then◌else◌, length, get_or, take, drop,
}
use gannet_os.Net.Bytes.{net_swap16, store16, load16}
use gannet_os.Net.Checksum.{ipv4_checksum}

abbrev pub icmp_hdr_len : ℕ
icmp_hdr_len = 8

abbrev pub icmp_max_data : ℕ
icmp_max_data = 1400

abbrev pub icmp_ping_identifier : ℕ
icmp_ping_identifier = 0xc0de

-- `struct ping_wait`
pub record PingWait : Type 0 where
  pub active : Bool
  pub seq : ℕ
  pub got_reply : Bool
  pub sent_tick : ℕ
  pub rtt_ticks : ℕ

-- A packet for `ipv4_send`, with its destination.
pub record Outgoing : Type 0 where
  pub dest_ip : ℕ
  pub packet : List ℕ

-- A header of this type and the bytes behind its checksum field, with a given checksum field.
abbrev pub icmp_packet : (ty checksum : ℕ) (rest : List ℕ) → List ℕ
icmp_packet ty checksum rest = (ty ∷ 0 ∷ []) ++ (store16 (net_swap16 checksum) ++ rest)

-- The packet once the checksum over all of it is in place.
unfoldable pub icmp_filled : (ty : ℕ) (rest : List ℕ) → List ℕ
icmp_filled ty rest = icmp_packet ty (ipv4_checksum (icmp_packet ty 0 rest)) rest

-- The request that `icmp_ping` sends.
unfoldable pub icmp_request : (seq : ℕ) → List ℕ
icmp_request seq =
    icmp_filled 8 (store16 (net_swap16 icmp_ping_identifier) ++ store16 (net_swap16 seq))

-- What `icmp_ping` writes into `ping` before it sends the request.
unfoldable pub start_ping : (seq now : ℕ) → PingWait → PingWait
start_ping seq now ping = record ping {
  active = true;
  seq = seq;
  got_reply = false;
  sent_tick = now;
}

-- The identifier, the sequence number and the data of a request are those of the reply.
unfoldable pub icmp_reply : List ℕ → List ℕ
icmp_reply packet = icmp_filled 0 (take 4 (drop 4 packet) ++ drop icmp_hdr_len packet)

-- `icmp_handle_packet`, at the time `now`.
unfoldable pub icmp_handle_packet :
    (now : ℕ) (packet : List ℕ) (src_ip : ℕ) → PingWait → Option Outgoing × PingWait
icmp_handle_packet now packet src_ip ping =
    if ltb (length packet) icmp_hdr_len
    then (none, ping)
    else if get_or packet 0 0 == 0
    then if not ping.active
      then (none, ping)
      else if not (net_swap16 (load16 packet 4) == icmp_ping_identifier)
          || not (net_swap16 (load16 packet 6) == ping.seq)
      then (none, ping)
      else if not (ipv4_checksum packet == 0)
      then (none, ping)
      else (
        none,
        record ping { got_reply = true; rtt_ticks = (now + 2 ^ 32 - ping.sent_tick) % 2 ^ 32 },
      )
    else if not (get_or packet 0 0 == 8)
    then (none, ping)
    else if not (ipv4_checksum packet == 0)
    then (none, ping)
    else if ltb icmp_max_data (length packet - icmp_hdr_len)
    then (none, ping)
    else (some (record { dest_ip = src_ip; packet = icmp_reply packet }), ping)
