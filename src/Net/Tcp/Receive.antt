-- ===== src/Net/Tcp/Receive.antt =====
-- A segment of a stream at a connection of tcp.c, receive_segment, and the calls of tcp_recv.
use gannet_os.Base.{
  ℕ, ◌+◌, ◌-◌, ◌%◌, ◌^◌, ◌≤◌, ◌<◌, ◌≡◌, ◌≢◌, refl, sym, ap, subst, ◌∙◌, Bool, true, false, ◌&&◌,
  List, ◌++◌, inl, inr, ◌⊎◌, ◌==◌, Bool-cases, if_both, if◌then◌else◌, append_assoc, arith, length,
  take, drop, length-take, length-drop, take_add, take-take_le, min,
}
use gannet_os.Net.Tcp.{
  Conn, TcpState, closed, listen, syn_sent, syn_received, established, fin_wait_1, fin_wait_2,
  close_wait, last_ack, flag_fin, flag_rst, has_flag, is_syn_sent, is_closed,
}
use gannet_os.Net.Tcp.Input.{
  accept_data, acked, takes_data, receive_ack, receive_data, receive_fin, receive_rest,
  receive_segment,
}
use gannet_os.Net.Tcp.Stream.{IsQueue, waiting, room, accept_data_lem}

-- The data that may stand in a segment: `len` bytes of the stream from `pos` on.
abbrev pub part : List ℕ → ℕ → ℕ → List ℕ
part stream pos len = take len (drop pos stream)

-- The connection has taken the first `off` bytes of the stream that starts at `isn`, and `got` of
-- them have been read.
pub record IsInOrder (stream : List ℕ) (isn : ℕ) (got : List ℕ) (c : Conn) (off : ℕ) : Type 0 where
  pub queue : IsQueue c
  pub opened : is_syn_sent c.state ≡ false
  pub text : got ++ waiting c ≡ take off stream
  pub below : off ≤ length stream
  pub next : c.recv_next ≡ (isn + off) % 2 ^ 32

acked-opened :
    (a p : Bool) (s : TcpState) → is_syn_sent s ≡ false → is_syn_sent (acked a p s) ≡ false
unfolding acked is_syn_sent
acked-opened a p closed h = refl
acked-opened a p listen h = refl
acked-opened a p syn_sent h = h
acked-opened a p syn_received h = refl
acked-opened true true fin_wait_1 h = refl
acked-opened true false fin_wait_1 h = refl
acked-opened false p fin_wait_1 h = refl
acked-opened true p last_ack h = refl
acked-opened false p last_ack h = refl
acked-opened a p established h = refl
acked-opened a p fin_wait_2 h = refl
acked-opened a p close_wait h = refl

-- An acknowledgement moves no data.
receive_ack_lem :
    {stream got : List ℕ} {isn off : ℕ} (flags ack_num : ℕ) (c : Conn)
    → IsInOrder stream isn got c off
    → IsInOrder stream isn got (receive_ack flags ack_num c) off
unfolding receive_ack
receive_ack_lem {stream = stream} {got = got} {isn = isn} {off = off} flags ack_num c o =
    if_both (λ c'. IsInOrder stream isn got c' off) _
      (record {
        queue = record {
          size = o.queue.size;
          head = o.queue.head;
          tail = o.queue.tail;
          count = o.queue.count;
        };
        opened = acked-opened _ c.peer_fin_received c.state o.opened;
        text = o.text;
        below = o.below;
        next = o.next;
      })
      o

-- Some more of the stream may have been taken.
abbrev pub GoesOn : List ℕ → ℕ → List ℕ → ℕ → Conn → Type 0
GoesOn stream isn got off c = (off' : ℕ) × (off ≤ off') × IsInOrder stream isn got c off'

-- Data at the place where the stream goes on.
accept_part :
    (stream got : List ℕ) (isn off len : ℕ) (c : Conn)
    → IsInOrder stream isn got c off
    → IsInOrder stream isn got
        (accept_data (part stream off len) c)
        (off + room c (part stream off len))
unfolding accept_data
accept_part stream got isn off len c o =
    let data' : List ℕ = part stream off len in
    let k : ℕ = room c data' in
    let size : length data' ≡ min len (length stream - off) =
      length-take len (drop off stream) ∙ ap (min len) (length-drop off stream) in
    let (q, w, n) = accept_data_lem data' c o.queue in
    record {
      queue = q;
      opened = same_state;
      text =
          ap (λ ws. got ++ ws) w
          ∙ sym (append_assoc got (waiting c) (take k data'))
          ∙ ap (λ ws. ws ++ take k data') o.text
          ∙ ap (λ ws. take off stream ++ ws) (take-take_le k len (drop off stream) (omega arith))
          ∙ sym (take_add off k stream);
      below = omega (arith, o.below);
      next = n ∙ omega (arith, o.next);
    }
  where
    same_state : is_syn_sent (accept_data (part stream off len) c).state ≡ false
    same_state = o.opened

receive_data_lem :
    (local_ip isn pos off len : ℕ) (stream got : List ℕ) (c : Conn)
    → length stream < 2 ^ 32
    → IsInOrder stream isn got c off
    → GoesOn stream isn got off
        (receive_data local_ip ((isn + pos) % 2 ^ 32) (part stream pos len) c).0
unfolding receive_data
receive_data_lem local_ip isn pos off len stream got c small o =
    elim (Bool-cases (length (part stream pos len) == 0)) [
      | inl empty ↦ subst Goes (sym (left_out (inl empty))) stays
      | inr some_bytes ↦
          elim (Bool-cases ((isn + pos) % 2 ^ 32 == c.recv_next && takes_data c.state)) [
            | inr other ↦ subst Goes (sym (left_out (inr other))) stays
            | inl fits ↦
                let at : pos ≡ off = here some_bytes fits in
                subst Goes (sym (taken some_bytes fits)) (
                  subst (λ p. Goes (accept_data (part stream p len) c)) (sym at)
                    (
                      off + room c (part stream off len),
                      omega arith,
                      accept_part stream got isn off len c o,
                    ))
          ]
    ]
  where
    Goes : Conn → Type 0
    Goes = GoesOn stream isn got off

    stays : Goes c
    stays = (off, omega arith, o)

    result : Conn
    result = (receive_data local_ip ((isn + pos) % 2 ^ 32) (part stream pos len) c).0

    left_out :
        ((length (part stream pos len) == 0) ≡ true)
          ⊎ (((isn + pos) % 2 ^ 32 == c.recv_next && takes_data c.state) ≡ false)
        → result ≡ c
    left_out h = ground (arith, h)

    taken :
        (length (part stream pos len) == 0) ≡ false
        → ((isn + pos) % 2 ^ 32 == c.recv_next && takes_data c.state) ≡ true
        → result ≡ accept_data (part stream pos len) c
    taken p q = ground (arith, p, q)

    here :
        (length (part stream pos len) == 0) ≡ false
        → ((isn + pos) % 2 ^ 32 == c.recv_next && takes_data c.state) ≡ true
        → pos ≡ off
    here p q =
        let size : length (part stream pos len) ≡ min len (length stream - pos) =
          length-take len (drop pos stream) ∙ ap (min len) (length-drop pos stream) in
        let long : length (part stream pos len) ≢ 0 = ground (arith, p) in
        let seq : (isn + pos) % 2 ^ 32 ≡ c.recv_next = ground (arith, q) in
        omega (arith, size, long, seq, o.next, o.below, small)

receive_fin_none :
    (local_ip flags end : ℕ) (c : Conn)
    → has_flag flags flag_fin ≡ false
    → (receive_fin local_ip flags end c).0 ≡ c
unfolding receive_fin
receive_fin_none local_ip flags end c h = rw h refl

-- Without a FIN, what is left is the acknowledgement and then the data.
pub receive_rest_no_fin :
    (local_ip flags seq ack_num : ℕ) (data' : List ℕ) (c : Conn)
    → has_flag flags flag_fin ≡ false
    → let c' = receive_ack flags ack_num c in
      (receive_rest local_ip flags seq ack_num data' c).0
      ≡ (if is_closed c'.state then c' else (receive_data local_ip seq data' c').0)
unfolding receive_rest
receive_rest_no_fin local_ip flags seq ack_num data' c no_fin =
    let c' : Conn = receive_ack flags ack_num c in
    elim (Bool-cases (is_closed c'.state)) [
      | inl done ↦ rw done refl
      | inr open_still ↦ rw open_still (
          receive_fin_none local_ip flags ((seq + length data') % 2 ^ 32)
            (receive_data local_ip seq data' c').0 no_fin)
    ]

reset_lem :
    {stream got : List ℕ} {isn off : ℕ} (c : Conn)
    → IsInOrder stream isn got c off
    → IsInOrder stream isn got (record c { state = closed }) off
unfolding is_syn_sent
reset_lem c o = record {
  queue = record {
    size = o.queue.size;
    head = o.queue.head;
    tail = o.queue.tail;
    count = o.queue.count;
  };
  opened = refl;
  text = o.text;
  below = o.below;
  next = o.next;
}

-- Any segment without a FIN, with data of the stream.
pub receive_segment_lem :
    (local_ip flags isn pos ack_num off len : ℕ) (stream got : List ℕ) (c : Conn)
    → length stream < 2 ^ 32
    → has_flag flags flag_fin ≡ false
    → IsInOrder stream isn got c off
    → GoesOn stream isn got off
        (receive_segment local_ip flags ((isn + pos) % 2 ^ 32) ack_num (part stream pos len) c).0
unfolding receive_segment
receive_segment_lem local_ip flags isn pos ack_num off len stream got c small no_fin o =
    let Goes : Conn → Type 0 = GoesOn stream isn got off in
    let c' : Conn = receive_ack flags ack_num c in
    let after : IsInOrder stream isn got c' off = receive_ack_lem flags ack_num c o in
    let rest =
      if_both Goes (is_closed c'.state) (off, omega arith, after)
        (receive_data_lem local_ip isn pos off len stream got c' small after) in
    elim (Bool-cases (has_flag flags flag_rst)) [
      | inl reset ↦ rw reset (off, omega arith, reset_lem c o)
      | inr no_reset ↦
          rw (no_reset, o.opened)
            (subst Goes
              (sym (
                receive_rest_no_fin local_ip flags ((isn + pos) % 2 ^ 32) ack_num
                  (part stream pos len) c no_fin))
              rest)
    ]
