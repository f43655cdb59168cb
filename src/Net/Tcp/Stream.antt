-- ===== src/Net/Tcp/Stream.antt =====
-- The bytes that a connection of tcp.c passes on: whatever segments of a stream arrive, and whenever
-- tcp_recv is called.
use gannet_os.Base.{
  ℕ, ◌+◌, ◌-◌, ◌%◌, ◌^◌, ◌≤◌, ◌<◌, ◌≡◌, sym, ap, ◌∙◌, List, ◌++◌, arith, length, take, length-take,
  min,
}
use gannet_os.Net.Tcp.{Conn, rx_buf_size}
use gannet_os.Net.Tcp.Input.{put_bytes, accept_data}
use gannet_os.Net.Tcp.Calls.{take_bytes}
use gannet_os.Net.Tcp.Ring.{bytes_at, bytes_at-add, get_bytes_end, length-bytes_at, put_bytes_lem}

-- The ring's indices belong together.
pub record IsQueue (c : Conn) : Type 0 where
  pub size : length c.rx_ring ≡ rx_buf_size
  pub head : c.rx_head < rx_buf_size
  pub tail : c.rx_tail ≡ (c.rx_head + c.rx_count) % rx_buf_size
  pub count : c.rx_count ≤ rx_buf_size

-- What tcp_recv has still to deliver.
abbrev pub waiting : Conn → List ℕ
waiting c = bytes_at c.rx_count c.rx_head c.rx_ring

-- How much of some data there is room for.
abbrev pub room : Conn → List ℕ → ℕ
room c data' = min (length data') (rx_buf_size - c.rx_count)

-- The data that fits goes behind what waits.
pub accept_data_lem :
    (data' : List ℕ) (c : Conn)
    → IsQueue c
    → IsQueue (accept_data data' c)
      × (waiting (accept_data data' c) ≡ waiting c ++ take (room c data') data')
      × ((accept_data data' c).recv_next ≡ (c.recv_next + room c data') % 2 ^ 32)
unfolding accept_data
accept_data_lem data' c q =
    let k : ℕ = min (length data') ((rx_buf_size + 2 ^ 16 - c.rx_count) % 2 ^ 16) in
    let taken : List ℕ = take k data' in
    let size : length taken ≡ room c data' = length-take k data' ∙ omega (arith, q.count) in
    let same : k ≡ room c data' = omega (arith, q.count) in
    let put =
      put_bytes_lem taken c.rx_count c.rx_head c.rx_tail c.rx_ring q.head
        (omega (arith, size, q.count)) q.size q.tail in
    let counted : (c.rx_count + length taken) % 2 ^ 16 ≡ c.rx_count + length taken =
      omega (arith, size, q.count) in
    (
      record {
        size = put.2;
        head = q.head;
        tail = put.1 ∙ ap (λ n. (c.rx_head + n) % rx_buf_size) (sym counted);
        count = omega (arith, size, q.count);
      },
      ap (λ n. bytes_at n c.rx_head (put_bytes taken c.rx_ring c.rx_tail).0) counted
          ∙ put.0
          ∙ ap (λ n. waiting c ++ take n data') same,
      ap (λ n. (c.recv_next + n) % 2 ^ 32) size,
    )

-- tcp_recv takes from the front of what waits.
pub take_bytes_lem :
    (buf_len : ℕ) (c : Conn)
    → IsQueue c
    → let (bytes, c') = take_bytes buf_len c in
      IsQueue c' × (bytes ++ waiting c' ≡ waiting c) × (length bytes ≡ min c.rx_count buf_len)
unfolding take_bytes
take_bytes_lem buf_len c q =
    let n : ℕ = min c.rx_count buf_len in
    let rest : ℕ = c.rx_count - n in
    let end = get_bytes_end n c.rx_head c.rx_ring q.head in
    let all : n + rest ≡ c.rx_count = omega arith in
    (
      record {
        size = q.size;
        head = omega (arith, end);
        tail = q.tail ∙ omega (arith, end, q.head);
        count = omega (arith, q.count);
      },
      ap (λ h. bytes_at n c.rx_head c.rx_ring ++ bytes_at rest h c.rx_ring) end
          ∙ sym (bytes_at-add n rest c.rx_head c.rx_ring q.head)
          ∙ ap (λ m. bytes_at m c.rx_head c.rx_ring) all,
      length-bytes_at n c.rx_head c.rx_ring,
    )
