-- ===== src/Net/Arp/Cache.antt =====
-- The lookups of arp.c in a cache of addresses that cache_learn has changed.
use gannet_os.Base.{
  ℕ, zero, suc, ◌<◌, ◌≡◌, ◌≢◌, inl, inr, refl, sym, ap, ◌∙◌, false, some, List, [], ◌∷◌, arith,
  ◌==◌, ==_of_ne, if◌then◌else◌, Bool-cases, length, length-set, get_or-set, set,
}
use gannet_os.Net.Arp.Search.{ip_at, IsCache, Victim, learn_slot_lem}
use gannet_os.Net.Arp.{Entry, blank, learn_slot, cache_learn, cache_lookup, arp_cache_size}

lookup-set_self :
    (es : List Entry) (i : ℕ) (e : Entry)
    → i < length es
    → ((j : ℕ) → j < length es → ip_at es j ≡ e.ip → j ≡ i)
    → cache_lookup e.ip (set es i e) ≡ some e.mac
unfolding cache_lookup
lookup-set_self [] i e h only = absurd (omega arith)
lookup-set_self (x ∷ es) zero e h only = ground arith
lookup-set_self (x ∷ es) (suc i) e h only =
    let differ : (x.ip == e.ip) ≡ false =
      ==_of_ne x.ip e.ip (λ q. omega (arith, only 0 (omega arith) q)) in
    rw differ (
      lookup-set_self es i e (omega arith)
        (λ j q same. omega (arith, only (suc j) (omega arith) same)))

lookup-set_other :
    (es : List Entry) (i : ℕ) (e : Entry) (q : ℕ)
    → q ≢ e.ip
    → q ≢ ip_at es i
    → cache_lookup q (set es i e) ≡ cache_lookup q es
unfolding cache_lookup
lookup-set_other [] i e q new old = refl
lookup-set_other (x ∷ es) zero e q new old = ground arith
lookup-set_other (x ∷ es) (suc i) e q new old =
    ap (λ r. if x.ip == q then some x.mac else r) (lookup-set_other es i e q new old)

inside_of : (es : List Entry) (j : ℕ) → ip_at es j ≢ 0 → j < length es
inside_of [] j h = absurd (h refl)
inside_of (e ∷ es) zero h = omega arith
inside_of (e ∷ es) (suc j) h = omega (arith, inside_of es j h)

-- What a cache has become once it has learned a pair in a slot.
pub record Learned (ip : ℕ) (mac : List ℕ) (es ts : List Entry) (slot : ℕ) : Type 0 where
  pub knows : cache_lookup ip ts ≡ some mac
  pub others : (q : ℕ) → q ≢ ip → q ≢ ip_at es slot → cache_lookup q ts ≡ cache_lookup q es
  pub victim : Victim es ip slot
  pub is_cache : IsCache ts

-- An address that the cache knows stands in the slot that it is learned in.
only_slot :
    (es : List Entry) (ip slot : ℕ)
    → IsCache es
    → ip ≢ 0
    → Victim es ip slot
    → (j : ℕ) → j < arp_cache_size
    → ip_at es j ≡ ip
    → j ≡ slot
only_slot es ip slot c nonzero (Victim.own e) j h q =
    c.distinct j slot (λ z. nonzero (sym q ∙ z)) (q ∙ sym e)
only_slot es ip slot c nonzero (Victim.unused e none') j h q = absurd (none' j h q)
only_slot es ip slot c nonzero (Victim.oldest full old) j h q = absurd ((full j h).0 q)

set-IsCache :
    (es : List Entry) (e : Entry) (slot : ℕ)
    → IsCache es
    → slot < arp_cache_size
    → ((j : ℕ) → ip_at es j ≡ e.ip → j ≡ slot)
    → IsCache (set es slot e)
set-IsCache es e slot c h only = record {
  size = length-set es slot e ∙ c.size;
  distinct = λ i j nonzero same. ground (arith, entry i, entry j, c.distinct i j, only i, only j);
}
  where
    entry : (k : ℕ) → ip_at (set es slot e) k ≡ (if slot == k then e.ip else ip_at es k)
    entry k = elim (Bool-cases (slot == k)) [
      | inl same ↦
          ap (λ x. x.ip) (get_or-set es slot k e blank (omega (arith, c.size))) ∙ rw same refl
      | inr other ↦
          ap (λ x. x.ip) (get_or-set es slot k e blank (omega (arith, c.size))) ∙ rw other refl
    ]

-- In a cache of sixteen entries, no address twice, learning a pair with an address other than 0
-- keeps the addresses distinct; the cache finds the pair from then on, and every other address as
-- before but for that of the entry that is replaced: the address's own, or an unused one, or, in a
-- full cache, the one learned longest ago.
pub cache_learn_lem :
    (now ip : ℕ) (mac : List ℕ) (es : List Entry)
    → IsCache es
    → ip ≢ 0
    → Learned ip mac es (cache_learn now ip mac es) (learn_slot ip es)
unfolding cache_learn
cache_learn_lem now ip mac es c nonzero =
    let (inside, victim) = learn_slot_lem es ip c.size in
    let slot = learn_slot ip es in
    let e : Entry = record { ip = ip; mac = mac; learned_tick = now } in
    let only : (j : ℕ) → j < length es → ip_at es j ≡ ip → j ≡ slot =
      λ j h. only_slot es ip slot c nonzero victim j (omega (arith, c.size)) in
    let anywhere : (j : ℕ) → ip_at es j ≡ ip → j ≡ slot =
      λ j q. only j (inside_of es j (λ z. nonzero (sym q ∙ z))) q in
    rw (==_of_ne ip 0 nonzero) (record {
      knows = lookup-set_self es slot e (omega (arith, c.size)) only;
      others = lookup-set_other es slot e;
      victim = victim;
      is_cache = set-IsCache es e slot c inside anywhere;
    })
