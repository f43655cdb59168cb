-- ===== src/Net/Udp/Sockets.antt =====
-- The table of sockets of udp.c: its ports, and each operation on it.
use gannet_os.Base.{
  ℕ, zero, suc, ◌+◌, ◌-◌, ◌≤◌, ◌<◌, ◌≡◌, ◌⊎◌, inl, inr, refl, sym, ap, ◌∙◌, true, false, not, ◌&&◌,
  ◌||◌, Option, none, some, is_some, List, [], ◌∷◌, arith, ltb, ◌==◌, if◌then◌else◌, Bool-cases,
  if_both, ap_of_==, length, length-set, get_or, get_or-set, set, take, drop,
}
use gannet_os.Net.Bytes.{load16, net_swap16}
use gannet_os.Net.Checksum.{ipv4_checksum_pseudo}
use gannet_os.Net.Udp.{
  Socket, closed, is_bound_to, open_loop, udp_socket_open, udp_socket_close, udp_socket_recv,
  deliver, udp_handle_packet, udp_max_sockets,
}

abbrev pub socket_at : List Socket → ℕ → Socket
socket_at ss i = get_or ss i closed

-- Two open sockets of one port are the same socket.
abbrev pub IsUnique : List Socket → Type 0
IsUnique ss =
    (i j port : ℕ)
    → is_bound_to port (socket_at ss i) ≡ true
    → is_bound_to port (socket_at ss j) ≡ true
    → i ≡ j

-- A change of one socket keeps the ports apart when the new one has no port, or that of the old one,
-- or a new one.
set-IsUnique :
    (ss : List Socket) (h : ℕ) (s : Socket)
    → h < length ss
    → IsUnique ss
    → ((port j : ℕ) → is_bound_to port s ≡ true → is_bound_to port (socket_at ss j) ≡ true → j ≡ h)
    → IsUnique (set ss h s)
set-IsUnique ss h s h_in unique fresh i j port p q =
    ground (arith, slot i, slot j, unique i j port, fresh port i, fresh port j)
  where
    slot :
        (k : ℕ)
        → is_bound_to port (socket_at (set ss h s) k)
          ≡ (if h == k then is_bound_to port s else is_bound_to port (socket_at ss k))
    slot k = elim (Bool-cases (h == k)) [
      | inl same ↦ ap (is_bound_to port) (get_or-set ss h k s closed h_in) ∙ rw same refl
      | inr other ↦ ap (is_bound_to port) (get_or-set ss h k s closed h_in) ∙ rw other refl
    ]

-- What the loop of `udp_socket_open` finds: nothing, or a slot while no socket has the port.
pub data OpenOutcome (ss : List Socket) (i port : ℕ) (free r : Option ℕ) : Type 0 where
  refused : r ≡ none → OpenOutcome ss i port free r
  found :
      (slot : ℕ)
      → r ≡ some slot
      → ((j : ℕ) → is_bound_to port (socket_at ss j) ≡ false)
      → (free ≡ some slot) ⊎ ((i ≤ slot) × (slot < i + length ss))
      → OpenOutcome ss i port free r

pub open_loop_lem :
    (ss : List Socket) (i port : ℕ) (free : Option ℕ)
    → OpenOutcome ss i port free (open_loop ss i port free)
unfolding open_loop
open_loop_lem [] i port none = OpenOutcome.refused refl
open_loop_lem [] i port (some f) = OpenOutcome.found f refl (λ j. refl) (inl refl)
open_loop_lem (s ∷ ss) i port free = elim (Bool-cases (is_bound_to port s)) [
  | inl taken ↦ OpenOutcome.refused (rw taken refl)
  | inr other ↦
      extend other
        (open_loop_lem ss (i + 1) port (if not s.bound && not (is_some free) then some i else free))
]
  where
    all_free :
        is_bound_to port s ≡ false
        → ((j : ℕ) → is_bound_to port (socket_at ss j) ≡ false)
        → (j : ℕ) → is_bound_to port (socket_at (s ∷ ss) j) ≡ false
    all_free first rest zero = first
    all_free first rest (suc j) = rest j

    extend :
        {r : Option ℕ}
        → is_bound_to port s ≡ false
        → OpenOutcome ss (i + 1) port (if not s.bound && not (is_some free) then some i else free) r
        → OpenOutcome (s ∷ ss) i port free (if is_bound_to port s then none else r)
    extend other (OpenOutcome.refused e) = OpenOutcome.refused (rw other e)
    extend other (OpenOutcome.found slot e none_bound place) =
        OpenOutcome.found slot (rw other e) (all_free other none_bound) (elim place [
          | inl kept ↦ elim (Bool-cases (not s.bound && not (is_some free))) [
            | inl here ↦ inr (ground arith)
            | inr before ↦ inl (ground arith)
          ]
          | inr (lo, hi) ↦ inr (omega arith, omega arith)
        ])

-- The table: eight sockets, their ports apart.
pub record IsTable (ss : List Socket) : Type 0 where
  pub size : length ss ≡ udp_max_sockets
  pub unique : IsUnique ss

set-IsTable :
    (ss : List Socket) (h : ℕ) (s : Socket)
    → IsTable ss
    → h < udp_max_sockets
    → ((port j : ℕ) → is_bound_to port s ≡ true → is_bound_to port (socket_at ss j) ≡ true → j ≡ h)
    → IsTable (set ss h s)
set-IsTable ss h s t h_in fresh = record {
  size = length-set ss h s ∙ t.size;
  unique = set-IsUnique ss h s (omega (arith, t.size)) t.unique fresh;
}

pub udp_socket_open-IsTable :
    (port : ℕ) (ss : List Socket) → IsTable ss → IsTable (udp_socket_open port ss).1
unfolding udp_socket_open
udp_socket_open-IsTable port ss t = elim (open_loop_lem ss 0 port none) [
  | OpenOutcome.refused e ↦ rw (e, udp_socket_open) t
  | OpenOutcome.found slot e free place ↦
      rw (e, udp_socket_open)
        (set-IsTable ss slot _ t (ground arith) (λ p j here there.
          ground (arith, free j, ap_of_== (λ q. is_bound_to q (socket_at ss j)) port p here)))
]

pub udp_socket_close-IsTable :
    (h : ℕ) (ss : List Socket) → IsTable ss → IsTable (udp_socket_close h ss)
unfolding udp_socket_close
udp_socket_close-IsTable h ss t = elim (Bool-cases (ltb h udp_max_sockets)) [
  | inl inside ↦ rw inside (set-IsTable ss h _ t (ground arith) (λ p j here there. cc))
  | inr outside ↦ rw outside t
]

same-IsUnique :
    (ss ts : List Socket)
    → ((p j : ℕ) → is_bound_to p (socket_at ts j) ≡ is_bound_to p (socket_at ss j))
    → IsUnique ss
    → IsUnique ts
same-IsUnique ss ts same unique i j p a b = unique i j p (sym (same p i) ∙ a) (sym (same p j) ∙ b)

pub udp_socket_recv-IsTable :
    (h n : ℕ) (ss : List Socket) → IsTable ss → IsTable (udp_socket_recv h n ss).1
unfolding udp_socket_recv
udp_socket_recv-IsTable h n ss t =
    elim (Bool-cases (not (ltb h udp_max_sockets) || not (socket_at ss h).bound)) [
      | inl denied ↦ rw denied t
      | inr open' ↦ rw open' (
          if_both Keeps ((socket_at ss h).rx_len == 0) t
            (set-IsTable ss h _ t (ground arith) (λ p j here there. t.unique j h p there here)))
    ]
  where
    Keeps : Option (List ℕ × ℕ × ℕ) × List Socket → Type 0
    Keeps r = IsTable r.1

deliver-ports :
    (ss : List Socket) (port src_ip src_port : ℕ) (bytes : List ℕ) (p j : ℕ)
    → is_bound_to p (socket_at (deliver ss port src_ip src_port bytes) j)
      ≡ is_bound_to p (socket_at ss j)
unfolding deliver
deliver-ports [] port src_ip src_port bytes p j = refl
deliver-ports (s ∷ ss) port src_ip src_port bytes p zero =
    if_both (λ ts. is_bound_to p (socket_at ts 0) ≡ is_bound_to p s) (is_bound_to port s) refl refl
deliver-ports (s ∷ ss) port src_ip src_port bytes p (suc j) =
    if_both (λ ts. is_bound_to p (socket_at ts (suc j)) ≡ is_bound_to p (socket_at ss j))
      (is_bound_to port s) refl (deliver-ports ss port src_ip src_port bytes p j)

length-deliver :
    (ss : List Socket) (port src_ip src_port : ℕ) (bytes : List ℕ)
    → length (deliver ss port src_ip src_port bytes) ≡ length ss
unfolding deliver
length-deliver [] port src_ip src_port bytes = refl
length-deliver (s ∷ ss) port src_ip src_port bytes =
    ground (arith, length-deliver ss port src_ip src_port bytes)

deliver-IsTable :
    (ss : List Socket) (port src_ip src_port : ℕ) (bytes : List ℕ)
    → IsTable ss
    → IsTable (deliver ss port src_ip src_port bytes)
deliver-IsTable ss port src_ip src_port bytes t = record {
  size = length-deliver ss port src_ip src_port bytes ∙ t.size;
  unique = same-IsUnique ss _ (deliver-ports ss port src_ip src_port bytes) t.unique;
}

pub udp_handle_packet-IsTable :
    (local_ip : ℕ) (packet : List ℕ) (src_ip : ℕ) (ss : List Socket)
    → IsTable ss
    → IsTable (udp_handle_packet local_ip packet src_ip ss)
unfolding udp_handle_packet
udp_handle_packet-IsTable local_ip packet src_ip ss t = if_both IsTable (ltb (length packet) 8) t (
    if_both IsTable (ltb udp_len 8 || ltb (length packet) udp_len) t (
      if_both IsTable
        (not (load16 packet 6 == 0)
          && not (ipv4_checksum_pseudo src_ip local_ip 17 (take udp_len packet) == 0))
        t
        (deliver-IsTable ss (net_swap16 (load16 packet 2)) src_ip (net_swap16 (load16 packet 0))
          (take (udp_len - 8) (drop 8 packet)) t)))
  where
    udp_len : ℕ
    udp_len = net_swap16 (load16 packet 4)
