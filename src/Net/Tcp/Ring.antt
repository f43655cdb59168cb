-- ===== src/Net/Tcp/Ring.antt =====
-- The ring of tcp.c as a queue of bytes: the loop of tcp_handle_packet appends to it, the loop of
-- tcp_recv takes from its front.
use gannet_os.Base.{
  ℕ, zero, suc, ◌+◌, ◌%◌, ◌≤◌, ◌<◌, ◌≡◌, ◌≢◌, refl, sym, ap, ◌∙◌, List, [], ◌∷◌, ◌++◌, append-nil,
  append_assoc, arith, length, get_or, set, length-set, get_or-set_ne, get_or-set_self,
}
use gannet_os.Net.Tcp.{rx_buf_size}
use gannet_os.Net.Tcp.Input.{put_bytes}
use gannet_os.Net.Tcp.Calls.{get_bytes}

-- The bytes in the ring that wait for tcp_recv.
abbrev pub bytes_at : ℕ → ℕ → List ℕ → List ℕ
bytes_at count head ring = (get_bytes count head ring).0

pub get_bytes_end :
    (n head : ℕ) (ring : List ℕ)
    → head < rx_buf_size
    → (get_bytes n head ring).1 ≡ (head + n) % rx_buf_size
unfolding get_bytes
get_bytes_end zero head ring h = omega arith
get_bytes_end (suc n) head ring h =
    get_bytes_end n ((head + 1) % rx_buf_size) ring (omega arith) ∙ omega arith

pub length-bytes_at : (n head : ℕ) (ring : List ℕ) → length (bytes_at n head ring) ≡ n
unfolding get_bytes
length-bytes_at zero head ring = refl
length-bytes_at (suc n) head ring = ap suc (length-bytes_at n ((head + 1) % rx_buf_size) ring)

abbrev next : ℕ → ℕ
next head = (head + 1) % rx_buf_size

bytes_at-suc :
    (n head : ℕ) (ring : List ℕ)
    → bytes_at (suc n) head ring ≡ get_or ring head 0 ∷ bytes_at n (next head) ring
unfolding get_bytes
bytes_at-suc n head ring = refl

bytes_at-move :
    {m n head head' : ℕ} (ring : List ℕ)
    → m ≡ n
    → head ≡ head'
    → bytes_at m head ring ≡ bytes_at n head' ring
bytes_at-move {m = m} {n = n} {head = head} {head' = head'} ring p q =
    ap (λ k. bytes_at k head ring) p ∙ ap (λ k. bytes_at n k ring) q

-- What is read in two parts.
pub bytes_at-add :
    (m n head : ℕ) (ring : List ℕ)
    → head < rx_buf_size
    → bytes_at (m + n) head ring
      ≡ bytes_at m head ring ++ bytes_at n ((head + m) % rx_buf_size) ring
unfolding get_bytes
bytes_at-add zero n head ring h = bytes_at-move ring (omega arith) (omega arith)
bytes_at-add (suc m) n head ring h =
    bytes_at-move {m = suc m + n} {n = suc (m + n)} ring (omega arith) refl
    ∙ ap (λ bs. get_or ring head 0 ∷ bs)
        (bytes_at-add m n (next head) ring (omega arith)
          ∙ ap (λ bs. bytes_at m (next head) ring ++ bs) (bytes_at-move ring refl (omega arith)))

-- A byte that is written elsewhere.
bytes_at-set_other :
    (n head i b : ℕ) (ring : List ℕ)
    → ((k : ℕ) → k < n → (head + k) % rx_buf_size ≢ i)
    → head < rx_buf_size
    → bytes_at n head (set ring i b) ≡ bytes_at n head ring
unfolding get_bytes
bytes_at-set_other zero head i b ring apart h = refl
bytes_at-set_other (suc n) head i b ring apart h =
    let here : get_or (set ring i b) head 0 ≡ get_or ring head 0 =
      get_or-set_ne ring i head b 0 (λ e. apart 0 (omega arith) (omega arith)) in
    ap (λ c. c ∷ bytes_at n (next head) (set ring i b)) here
    ∙ ap (λ bs. get_or ring head 0 ∷ bs)
        (bytes_at-set_other n (next head) i b ring
          (λ k p e. apart (k + 1) (omega arith) (omega arith)) (omega arith))

-- A byte that is written behind the last one.
bytes_at-set :
    (n head b : ℕ) (ring : List ℕ)
    → head < rx_buf_size
    → n < rx_buf_size
    → length ring ≡ rx_buf_size
    → bytes_at (n + 1) head (set ring ((head + n) % rx_buf_size) b) ≡ bytes_at n head ring ++ b ∷ []
unfolding get_bytes
bytes_at-set n head b ring h fits size =
    let i : ℕ = (head + n) % rx_buf_size in
    let last : bytes_at 1 i (set ring i b) ≡ b ∷ [] =
      bytes_at-suc 0 i (set ring i b)
      ∙ ap (λ c. c ∷ []) (get_or-set_self ring i b 0 (omega arith)) in
    bytes_at-add n 1 head (set ring i b) h
    ∙ ap (λ bs. bs ++ bytes_at 1 i (set ring i b))
        (bytes_at-set_other n head i b ring (λ k p. omega arith) h)
    ∙ ap (λ bs. bytes_at n head ring ++ bs) last

-- The loop of tcp_handle_packet: what waits grows by the bytes, in their order.
pub put_bytes_lem :
    (bs : List ℕ) (n head tail : ℕ) (ring : List ℕ)
    → head < rx_buf_size
    → n + length bs ≤ rx_buf_size
    → length ring ≡ rx_buf_size
    → tail ≡ (head + n) % rx_buf_size
    → let (ring', tail') = put_bytes bs ring tail in
      (bytes_at (n + length bs) head ring' ≡ bytes_at n head ring ++ bs)
      × (tail' ≡ (head + (n + length bs)) % rx_buf_size)
      × (length ring' ≡ rx_buf_size)
unfolding put_bytes
put_bytes_lem [] n head tail ring h fits size at = (
  bytes_at-move ring (omega arith) refl ∙ sym (append-nil (bytes_at n head ring)),
  omega arith,
  size,
)
put_bytes_lem (b ∷ bs) n head tail ring h fits size at =
    let rest =
      put_bytes_lem bs (n + 1) head ((tail + 1) % rx_buf_size) (set ring tail b) h (omega arith)
        (length-set ring tail b ∙ size) (omega arith) in
    let new : bytes_at (n + 1) head (set ring tail b) ≡ bytes_at n head ring ++ b ∷ [] =
      ap (λ i. bytes_at (n + 1) head (set ring i b)) at
      ∙ bytes_at-set n head b ring h (omega arith) size in
    (
      bytes_at-move (put_bytes bs (set ring tail b) ((tail + 1) % rx_buf_size)).0 (omega arith) refl
          ∙ rest.0
          ∙ ap (λ w. w ++ bs) new
          ∙ append_assoc (bytes_at n head ring) (b ∷ []) bs,
      rest.1 ∙ omega arith,
      rest.2,
    )
