-- ===== src/Net/Ipv4/Send.antt =====
-- The wait of ipv4_send for an address, and its call of ethernet_send, ipv4.c.
use gannet_os.Base.{
  ℕ, zero, suc, ◌+◌, ◌-◌, ◌%◌, ◌^◌, ◌≤◌, ◌<◌, ◌≡◌, inl, inr, refl, sym, ap, ◌∙◌, false, none, some,
  List, ◌++◌, arith, ltb, if◌then◌else◌, Bool-cases, Option-cases, length,
}
use gannet_os.Net.Link.{Link}
use gannet_os.Net.Ipv4.{
  next_hop, ipv4_header, resolve_loop, resolve, ipv4_send, ipv4_arp_timeout_ticks, eth_type_ipv4,
}

module _ (L : Link) where
  -- The state behind a number of rounds of the wait, each of them without an answer.
  unfoldable pub after_rounds : ℕ → ℕ → L.State → L.State
  after_rounds zero hop l = l
  after_rounds (suc n) hop l = after_rounds n hop (L.poll (L.arp_resolve hop l).1)

  -- The ticks since `start`, in a `uint32_t`.
  abbrev pub elapsed : ℕ → L.State → ℕ
  elapsed start l = (L.pit_ticks l + 2 ^ 32 - start) % 2 ^ 32

  resolve_loop-unknown :
      (n start hop : ℕ) (l : L.State)
      → (L.arp_resolve hop l).0 ≡ none
      → let polled = L.poll (L.arp_resolve hop l).1 in
        resolve_loop L (suc n) start hop l ≡ (
          if ltb ipv4_arp_timeout_ticks (elapsed start polled)
          then (none, polled)
          else resolve_loop L n start hop polled)
  unfolding resolve_loop
  resolve_loop-unknown n start hop l unknown = rw (unknown, resolve_loop) refl

  -- Once the clock has moved on by more than the time-out after `n` rounds, with `n` at least 1,
  -- the wait is over within `n` rounds: more of them make no difference.
  pub resolve_loop-enough :
      (n m start hop : ℕ) (l : L.State)
      → 0 < n
      → ipv4_arp_timeout_ticks < elapsed start (after_rounds n hop l)
      → resolve_loop L (n + m) start hop l ≡ resolve_loop L n start hop l
  unfolding resolve_loop after_rounds
  resolve_loop-enough zero m start hop l pos late = absurd (omega arith)
  resolve_loop-enough (suc n) m start hop l pos late = elim (Option-cases (L.arp_resolve hop l).0) [
    | inr (mac, found) ↦ more ∙ rw (found, resolve_loop) refl
    | inl unknown ↦
        more
        ∙ resolve_loop-unknown (n + m) start hop l unknown
        ∙ elim (Bool-cases
            (ltb ipv4_arp_timeout_ticks (elapsed start (L.poll (L.arp_resolve hop l).1)))) [
              | inl out ↦ rw out refl
              | inr in_time ↦ rw in_time (
                  resolve_loop-enough n m start hop (L.poll (L.arp_resolve hop l).1)
                    (positive n late in_time) late)
            ]
        ∙ sym (resolve_loop-unknown n start hop l unknown)
  ]
    where
      more : resolve_loop L (suc n + m) start hop l ≡ resolve_loop L (suc (n + m)) start hop l
      more =
          let same : suc n + m ≡ suc (n + m) = omega arith in
          ap (λ k. resolve_loop L k start hop l) same

      positive :
          (k : ℕ)
          → ipv4_arp_timeout_ticks
            < elapsed start (after_rounds k hop (L.poll (L.arp_resolve hop l).1))
          → ltb ipv4_arp_timeout_ticks (elapsed start (L.poll (L.arp_resolve hop l).1)) ≡ false
          → 0 < k
      positive zero late' in_time = absurd (ground arith)
      positive (suc k) late' in_time = omega arith

  -- What `ipv4_send` does with an answer to the address resolution: the datagram goes, in one
  -- Ethernet frame, to the next hop, and the identification moves on.
  pub ipv4_send-resolve :
      (rounds dest_ip protocol : ℕ) (payload : List ℕ) (l : L.State) (mac : List ℕ)
      → length payload ≤ 1500
      → let (found, u) = resolve L rounds (next_hop (L.get_ipv4 l) dest_ip) l in
        found ≡ some mac
        → let s = L.get_ipv4 u in
          ipv4_send L rounds dest_ip protocol payload l
          ≡ L.ethernet_send mac eth_type_ipv4
              (ipv4_header s dest_ip protocol (length payload) ++ payload)
              (L.put_ipv4 (record s { next_id = (s.next_id + 1) % 2 ^ 16 }) u)
  unfolding ipv4_send
  ipv4_send-resolve rounds dest_ip protocol payload l mac size e =
      let fits : ltb (20 + 1500) (20 + length payload) ≡ false = ground arith in
      rw (fits, e, ipv4_send) refl
