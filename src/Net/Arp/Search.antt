-- ===== src/Net/Arp/Search.antt =====
-- The searches of cache_learn in arp.c: which entry a new address replaces.
use gannet_os.Base.{
  ℕ, zero, suc, ◌+◌, ◌≤◌, ◌<◌, ◌≡◌, ◌≢◌, inl, inr, refl, ap, ◌∙◌, true, false, Option, none, some,
  List, [], ◌∷◌, arith, ltb, ◌==◌, ==_iff, Bool-cases, length, get_or, drop,
}
use gannet_os.Net.Arp.{Entry, blank, find_ip, find_oldest, learn_slot, arp_cache_size}

abbrev pub ip_at : List Entry → ℕ → ℕ
ip_at es i = (get_or es i blank).ip

abbrev pub tick_at : List Entry → ℕ → ℕ
tick_at es i = (get_or es i blank).learned_tick

-- No address stands in two slots.
pub record IsCache (es : List Entry) : Type 0 where
  pub size : length es ≡ arp_cache_size
  pub distinct : (i j : ℕ) → ip_at es i ≢ 0 → ip_at es i ≡ ip_at es j → i ≡ j

data FindOutcome (es : List Entry) (i ip : ℕ) (r : Option ℕ) : Type 0 where
  absent : r ≡ none → ((j : ℕ) → j < length es → ip_at es j ≢ ip) → FindOutcome es i ip r
  present : (j : ℕ) → r ≡ some (i + j) → j < length es → ip_at es j ≡ ip → FindOutcome es i ip r

find_ip_lem : (es : List Entry) (i ip : ℕ) → FindOutcome es i ip (find_ip es i ip)
unfolding find_ip
find_ip_lem [] i ip = FindOutcome.absent refl (λ j h. absurd (omega arith))
find_ip_lem (e ∷ es) i ip = elim (Bool-cases (e.ip == ip)) [
  | inl here ↦
      FindOutcome.present 0 (rw here (ap some (omega arith))) (omega arith)
        ((==_iff e.ip ip).0 here)
  | inr other ↦ rw other (extend other (find_ip_lem es (i + 1) ip))
]
  where
    none_of :
        (e.ip == ip) ≡ false
        → ((j : ℕ) → j < length es → ip_at es j ≢ ip)
        → (j : ℕ) → j < length (e ∷ es)
        → ip_at (e ∷ es) j ≢ ip
    none_of other all zero h = λ q. ground arith
    none_of other all (suc j) h = all j (omega arith)

    extend :
        {r : Option ℕ}
        → (e.ip == ip) ≡ false
        → FindOutcome es (i + 1) ip r
        → FindOutcome (e ∷ es) i ip r
    extend other (FindOutcome.absent none' all) = FindOutcome.absent none' (none_of other all)
    extend other (FindOutcome.present j some' h eq) =
        FindOutcome.present (suc j) (some' ∙ ap some (omega arith)) (omega arith) eq

-- The entry that `find_oldest` finds is no newer than any that it has seen.
data OldestOutcome (es : List Entry) (i tick slot r : ℕ) : Type 0 where
  kept : r ≡ slot → ((j : ℕ) → j < length es → tick ≤ tick_at es j) → OldestOutcome es i tick slot r
  better :
      (j : ℕ)
      → r ≡ i + j
      → j < length es
      → tick_at es j ≤ tick
      → ((k : ℕ) → k < length es → tick_at es j ≤ tick_at es k)
      → OldestOutcome es i tick slot r

bound_all :
    (e : Entry) (es : List Entry) (t : ℕ)
    → t ≤ e.learned_tick
    → ((j : ℕ) → j < length es → t ≤ tick_at es j)
    → (j : ℕ) → j < length (e ∷ es)
    → t ≤ tick_at (e ∷ es) j
bound_all e es t first rest zero h = first
bound_all e es t first rest (suc j) h = rest j (omega arith)

find_oldest_lem :
    (es : List Entry) (i tick slot : ℕ) → OldestOutcome es i tick slot (find_oldest es i tick slot)
unfolding find_oldest
find_oldest_lem [] i tick slot = OldestOutcome.kept refl (λ j h. absurd (omega arith))
find_oldest_lem (e ∷ es) i tick slot = elim (Bool-cases (ltb e.learned_tick tick)) [
  | inl older ↦ rw older (first_better older (find_oldest_lem es (i + 1) e.learned_tick i))
  | inr newer ↦ rw newer (first_kept newer (find_oldest_lem es (i + 1) tick slot))
]
  where
    first_better :
        {r : ℕ}
        → ltb e.learned_tick tick ≡ true
        → OldestOutcome es (i + 1) e.learned_tick i r
        → OldestOutcome (e ∷ es) i tick slot r
    first_better older (OldestOutcome.kept same rest) =
        OldestOutcome.better 0 (omega (arith, same)) (omega arith) (ground arith)
          (bound_all e es e.learned_tick (omega arith) rest)
    first_better older (OldestOutcome.better j same h le rest) =
        OldestOutcome.better (suc j) (omega (arith, same)) (omega arith) (ground arith)
          (bound_all e es (tick_at es j) le rest)

    first_kept :
        {r : ℕ}
        → ltb e.learned_tick tick ≡ false
        → OldestOutcome es (i + 1) tick slot r
        → OldestOutcome (e ∷ es) i tick slot r
    first_kept newer (OldestOutcome.kept same rest) =
        OldestOutcome.kept same (bound_all e es tick (ground arith) rest)
    first_kept newer (OldestOutcome.better j same h le rest) =
        OldestOutcome.better (suc j) (omega (arith, same)) (omega arith) le
          (bound_all e es (tick_at es j) (ground arith) rest)

-- Which entry a new address replaces: its own old one, an unused slot if the address is new, or the
-- entry learned longest ago if no slot is unused.
pub data Victim (es : List Entry) (ip slot : ℕ) : Type 0 where
  own : ip_at es slot ≡ ip → Victim es ip slot
  unused : ip_at es slot ≡ 0 → ((j : ℕ) → j < arp_cache_size → ip_at es j ≢ ip) → Victim es ip slot
  oldest :
      ((j : ℕ) → j < arp_cache_size → (ip_at es j ≢ ip) × (ip_at es j ≢ 0))
      → ((j : ℕ) → j < arp_cache_size → tick_at es slot ≤ tick_at es j)
      → Victim es ip slot

oldest_of :
    (es : List Entry)
    → length es ≡ arp_cache_size
    → let r = find_oldest (drop 1 es) 1 (tick_at es 0) 0 in
      (r < arp_cache_size) × ((j : ℕ) → j < arp_cache_size → tick_at es r ≤ tick_at es j)
oldest_of [] size = absurd (omega arith)
oldest_of (e ∷ es) size = found (find_oldest_lem es 1 e.learned_tick 0)
  where
    found :
        {r : ℕ}
        → OldestOutcome es 1 e.learned_tick 0 r
        → (r < arp_cache_size)
          × ((j : ℕ) → j < arp_cache_size → tick_at (e ∷ es) r ≤ tick_at (e ∷ es) j)
    found (OldestOutcome.kept same rest) =
        let there = ap (tick_at (e ∷ es)) same in
        (
          omega (arith, same),
          λ j h. omega (
            arith,
            there,
            bound_all e es e.learned_tick (omega arith) rest j (omega (arith, size)),
          ),
        )
    found (OldestOutcome.better k same h le rest) =
        let next : 1 + k ≡ suc k = omega arith in
        let there = ap (tick_at (e ∷ es)) (same ∙ next) in
        (
          omega (arith, same, size),
          λ j q.
              omega (arith, there, bound_all e es (tick_at es k) le rest j (omega (arith, size))),
        )

pub learn_slot_lem :
    (es : List Entry) (ip : ℕ)
    → length es ≡ arp_cache_size
    → (learn_slot ip es < arp_cache_size) × Victim es ip (learn_slot ip es)
unfolding learn_slot
learn_slot_lem es ip size = elim (find_ip_lem es 0 ip) [
  | FindOutcome.present j e h eq ↦
      rw (e, learn_slot) (omega (arith, size), Victim.own (ap (ip_at es) (omega arith) ∙ eq))
  | FindOutcome.absent e all ↦ elim (find_ip_lem es 0 0) [
    | FindOutcome.present j f h eq ↦
        rw (e, f, learn_slot)
          (
            omega (arith, size),
            Victim.unused (ap (ip_at es) (omega arith) ∙ eq) (λ k q. all k (omega (arith, size))),
          )
    | FindOutcome.absent f used ↦
        rw (e, f, learn_slot)
          (
            (oldest_of es size).0,
            Victim.oldest (λ j q. (all j (omega (arith, size)), used j (omega (arith, size))))
                (oldest_of es size).1,
          )
  ]
]
