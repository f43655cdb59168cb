-- ===== src/Net/Tcp/Session.antt =====
-- What an application reads from a connection of tcp.c, over any sequence of segments that arrive
-- and of calls of tcp_recv.
use gannet_os.Base.{
  ℕ, ◌+◌, ◌%◌, ◌^◌, ◌≤◌, ◌<◌, ◌≡◌, ap, ◌∙◌, false, List, [], ◌∷◌, ◌++◌, append_assoc, arith, length,
  take,
}
use gannet_os.Net.Tcp.{Conn, flag_fin, has_flag, is_syn_sent}
use gannet_os.Net.Tcp.Input.{receive_segment}
use gannet_os.Net.Tcp.Calls.{get_bytes, take_bytes}
use gannet_os.Net.Tcp.Stream.{IsQueue, waiting, take_bytes_lem}
use gannet_os.Net.Tcp.Receive.{IsInOrder, part, receive_segment_lem}

-- A segment with `len` bytes of the stream from `pos` on, as it may come late, twice or never; and a
-- call of tcp_recv.
pub data Event : Type 0 where
  arrive : (pos len flags ack_num : ℕ) → Event
  recv : (buf_len : ℕ) → Event

-- The connection, and all that has been read from it.
pub record Session : Type 0 where
  pub got : List ℕ
  pub conn : Conn

module _ (local_ip isn : ℕ) (stream : List ℕ) where
  unfoldable pub step : Event → Session → Session
  step (arrive pos len flags ack_num) s = record s {
    conn =
        (receive_segment local_ip flags ((isn + pos) % 2 ^ 32) ack_num (part stream pos len)
          s.conn).0;
  }
  step (recv buf_len) s =
      let (bytes, c) = take_bytes buf_len s.conn in record { got = s.got ++ bytes; conn = c }

  unfoldable pub run : List Event → Session → Session
  run [] s = s
  run (e ∷ es) s = run es (step e s)

-- No segment has a FIN.
abbrev pub AllOpen : List Event → Type 0
AllOpen [] = Unit
AllOpen (arrive pos len flags ack_num ∷ es) = (has_flag flags flag_fin ≡ false) × AllOpen es
AllOpen (recv buf_len ∷ es) = AllOpen es

read_step :
    (stream got : List ℕ) (isn off buf_len : ℕ) (c : Conn)
    → IsInOrder stream isn got c off
    → let (bytes, c') = take_bytes buf_len c in IsInOrder stream isn (got ++ bytes) c' off
unfolding take_bytes
read_step stream got isn off buf_len c o =
    let (bytes, c') = take_bytes buf_len c in
    let taken = take_bytes_lem buf_len c o.queue in
    record {
      queue = taken.0;
      opened = o.opened;
      text = append_assoc got bytes (waiting c') ∙ ap (λ ws. got ++ ws) taken.1 ∙ o.text;
      below = o.below;
      next = o.next;
    }

run-InOrder :
    (local_ip isn off : ℕ) (stream : List ℕ) (es : List Event) (s : Session)
    → length stream < 2 ^ 32
    → AllOpen es
    → IsInOrder stream isn s.got s.conn off
    → let s' = run local_ip isn stream es s in
      (off' : ℕ) × (off ≤ off') × IsInOrder stream isn s'.got s'.conn off'
unfolding run step
run-InOrder local_ip isn off stream [] s small fits o = (off, omega arith, o)
run-InOrder local_ip isn off stream (arrive pos len flags ack_num ∷ es) s small fits o =
    let (mid, p, o') =
      receive_segment_lem local_ip flags isn pos ack_num off len stream s.got s.conn small fits.0
        o in
    let (off', q, o'') = run-InOrder local_ip isn mid stream es _ small fits.1 o' in
    (off', omega arith, o'')
run-InOrder local_ip isn off stream (recv buf_len ∷ es) s small fits o =
    run-InOrder local_ip isn off stream es _ small fits
      (read_step stream s.got isn off buf_len s.conn o)

-- Let a connection that waits for the start of a stream of less than 4 GB get segments with parts
-- of it, in any order, any of them late, again or not at all, none with a FIN, and let tcp_recv be
-- called at any time. Then what has been read, with what waits to be read, is the stream's first
-- `off` bytes, in order and without a gap, and the connection asks for the next one.
pub run_lem :
    (local_ip isn : ℕ) (stream : List ℕ) (es : List Event) (c : Conn)
    → length stream < 2 ^ 32
    → AllOpen es
    → IsQueue c
    → c.rx_count ≡ 0
    → is_syn_sent c.state ≡ false
    → c.recv_next ≡ isn % 2 ^ 32
    → let s = run local_ip isn stream es (record { got = []; conn = c }) in
      (off : ℕ) × (off ≤ length stream)
      × (s.got ++ waiting s.conn ≡ take off stream)
      × (s.conn.recv_next ≡ (isn + off) % 2 ^ 32)
unfolding get_bytes
run_lem local_ip isn stream es c small fits q none_waits opened next =
    let start : IsInOrder stream isn [] c 0 = record {
      queue = q;
      opened = opened;
      text = ap (λ n. (get_bytes n c.rx_head c.rx_ring).0) none_waits;
      below = omega arith;
      next = next ∙ omega arith;
    } in
    let (off, _, o) =
      run-InOrder local_ip isn 0 stream es (record { got = []; conn = c }) small fits start in
    (off, o.below, o.text, o.next)
