-- ===== src/Net/Tcp/Tests.antt =====
-- Connections of tcp.c at concrete segments.
use gannet_os.Base.{
  ℕ, ◌+◌, ◌-◌, ◌%◌, ◌^◌, ◌≤◌, ◌≡◌, refl, List, [], ◌∷◌, ◌++◌, arith, length, length-replicate, take,
}
use gannet_os.Net.Tcp.{Conn, established, zero_conn, empty_ring, rx_buf_size, has_flag, is_syn_sent}
use gannet_os.Net.Tcp.Stream.{IsQueue, waiting}
use gannet_os.Net.Tcp.Session.{Event, arrive, recv, run, run_lem}

-- An established connection whose peer's first byte is number `first`.
abbrev at : ℕ → Conn
at first = record zero_conn { state = established; recv_next = first }

at-IsQueue : (first : ℕ) → IsQueue (at first)
unfolding zero_conn empty_ring
at-IsQueue first = record {
  size = (let byte : ℕ = 0 in length-replicate rx_buf_size byte);
  head = omega arith;
  tail = omega arith;
  count = omega arith;
}

abbrev hello : List ℕ
hello = 104 ∷ 101 ∷ 108 ∷ 108 ∷ 111 ∷ []

-- The end comes first, then the start, twice; sequence numbers wrap on the way.
abbrev events : List Event
events =
    arrive 3 2 0x10 7
    ∷ arrive 0 3 0x18 7
    ∷ recv 2
    ∷ arrive 0 3 0x18 7
    ∷ arrive 3 2 0x18 7
    ∷ recv 9
    ∷ []

abbrev before_wrap : ℕ
before_wrap = 2 ^ 32 - 2

run_lem_example :
    let s = run 0 before_wrap hello events (record { got = []; conn = at before_wrap }) in
    (off : ℕ) × (off ≤ length hello)
    × (s.got ++ waiting s.conn ≡ take off hello)
    × (s.conn.recv_next ≡ (before_wrap + off) % 2 ^ 32)
unfolding has_flag is_syn_sent zero_conn
run_lem_example =
    run_lem 0 before_wrap hello events (at before_wrap) (omega arith)
      (refl, (refl, (refl, (refl, tt)))) (at-IsQueue before_wrap) refl refl refl

-- Two machines, the sender at number 9.
abbrev sender : Conn
sender = record (at 0) { send_una = 9; send_next = 9 }
