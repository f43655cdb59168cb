-- ===== src/Task/RoundRobin.antt =====
-- The choice of pick_next and the slots after a switch, task.c.
use gannet_os.Base.{
  ℕ, zero, suc, ◌+◌, ◌%◌, ◌≤◌, ◌<◌, ◌≡◌, ◌≢◌, ◌⊎◌, refl, sym, ap, ◌∙◌, inl, inr, Bool, true, false,
  List, [], ◌∷◌, arith, ◌==◌, ==_iff, if◌then◌else◌, Bool-cases, length, length-set, get_or, set,
  get_or-set, get_or-set_ne, get_or-set_self,
}
use gannet_os.Vm.{Vm}
use gannet_os.Task.{
  max_tasks, is_ready, is_running, ready, running, Task, blank, Kernel, slot_of, set_slot,
}
use gannet_os.Task.Schedule.{pick_loop, pick_next, switch_to}

module _ (V : Vm) where
  abbrev pub is_ready_at : Kernel V → ℕ → Bool
  is_ready_at k i = is_ready (slot_of V k i).state

  -- The result of looking at the `n` slots that lie `step` and more behind `from`.
  abbrev PickOutcome : Kernel V → (n step from r : ℕ) → Type 0
  PickOutcome k n step from r =
      (((d : ℕ) → step ≤ d → d < step + n → is_ready_at k ((from + d) % max_tasks) ≡ false)
        × (r ≡ from))
      ⊎ ((d : ℕ) × (step ≤ d)
          × (d < step + n)
          × (r ≡ (from + d) % max_tasks)
          × (is_ready_at k r ≡ true)
          × ((e : ℕ) → step ≤ e → e < d → is_ready_at k ((from + e) % max_tasks) ≡ false))

  pick_loop-PickOutcome :
      (n step from : ℕ) (k : Kernel V) → PickOutcome k n step from (pick_loop V n step from k)
  unfolding pick_loop
  pick_loop-PickOutcome zero step from k = inl (λ d p q. absurd (omega arith), refl)
  pick_loop-PickOutcome (suc n) step from k =
      elim (Bool-cases (is_ready_at k ((from + step) % max_tasks))) [
        | inl here ↦
            rw here
              (inr (step, omega arith, omega arith, refl, here, λ e p q. absurd (omega arith)))
        | inr later ↦ rw later (extend later (pick_loop-PickOutcome n (step + 1) from k))
      ]
    where
      at_step :
          is_ready_at k ((from + step) % max_tasks) ≡ false
          → (e : ℕ) → step ≡ e
          → is_ready_at k ((from + e) % max_tasks) ≡ false
      at_step h e same = ap (λ x. is_ready_at k ((from + x) % max_tasks)) (sym same) ∙ h

      extend :
          {r : ℕ}
          → is_ready_at k ((from + step) % max_tasks) ≡ false
          → PickOutcome k n (step + 1) from r
          → PickOutcome k (suc n) step from r
      extend later (inl (nowhere, e)) = inl (
        λ d p q. elim (Bool-cases (step == d)) [
          | inl same ↦ at_step later d ((==_iff step d).0 same)
          | inr other ↦ nowhere d (ground arith) (omega arith)
        ],
        e,
      )
      extend later (inr (d, lo, hi, at, yes', before)) = inr (
        d,
        omega arith,
        omega arith,
        at,
        yes',
        λ e p q. elim (Bool-cases (step == e)) [
          | inl same ↦ at_step later e ((==_iff step e).0 same)
          | inr other ↦ before e (ground arith) q
        ],
      )

  -- What the scheduler chooses: the first ready slot behind `from`, or `from` where none is ready.
  abbrev pub PickNext : ℕ → Kernel V → Type 0
  PickNext from k =
      (((d : ℕ) → 1 ≤ d → d ≤ max_tasks → is_ready_at k ((from + d) % max_tasks) ≡ false)
        × (pick_next V from k ≡ from))
      ⊎ ((d : ℕ) × (1 ≤ d)
          × (d ≤ max_tasks)
          × (pick_next V from k ≡ (from + d) % max_tasks)
          × (is_ready_at k (pick_next V from k) ≡ true)
          × ((e : ℕ) → 1 ≤ e → e < d → is_ready_at k ((from + e) % max_tasks) ≡ false))

  -- `pick_next` returns the first ready slot behind `from`, going round the table once, `from`
  -- itself last; where no slot is ready it returns `from`.
  pub pick_next_lem : (from : ℕ) (k : Kernel V) → PickNext from k
  unfolding pick_next
  pick_next_lem from k = elim (pick_loop-PickOutcome max_tasks 1 from k) [
    | inl (nowhere, e) ↦ inl (λ d p q. nowhere d p (omega arith), e)
    | inr (d, lo, hi, at, yes', before) ↦ inr (d, lo, omega arith, at, yes', before)
  ]

  pub pick_next-lt : (from : ℕ) (k : Kernel V) → from < max_tasks → pick_next V from k < max_tasks
  pick_next-lt from k h = elim (pick_next_lem from k) [
    | inl (nowhere, e) ↦ omega (arith, e)
    | inr (d, lo, hi, at, yes', before) ↦ omega (arith, at)
  ]

  slot_of-set_slot :
      (k : Kernel V) (i j : ℕ) (t : Task)
      → i < length k.tasks
      → slot_of V (set_slot V k i t) j ≡ (if i == j then t else slot_of V k j)
  slot_of-set_slot k i j t h = get_or-set k.tasks i j t blank h

  -- The table after the three writes of a switch, for `old` a slot that is made ready or not.
  switched : (saved old next : ℕ) (t : Task) (ts : List Task) → List Task
  switched saved old next t ts =
      let ts2 =
        set (set ts old t) next (record (get_or (set ts old t) next blank) { state = running }) in
      set ts2 old (record (get_or ts2 old blank) { esp = saved })

  get_or-switched :
      (saved old next : ℕ) (t : Task) (ts : List Task) (j : ℕ)
      → old < length ts
      → next < length ts
      → old ≢ next
      → get_or (switched saved old next t ts) j blank ≡ (
          if old == j
          then record t { esp = saved }
          else if next == j
          then record (get_or ts next blank) { state = running }
          else get_or ts j blank)
  unfolding switched
  get_or-switched saved old next t ts j ho hn ne =
      rw (stays, now)
        (get_or-set ts2 old j (record t { esp = saved }) blank
            (omega (arith, length-set ts1 next run, length-set ts old t))
          ∙ ap (λ u. if old == j then record t { esp = saved } else u)
              (get_or-set ts1 next j run blank (omega (arith, length-set ts old t)))
          ∙ ground (arith, get_or-set ts old j t blank))
    where
      ts1 : List Task
      ts1 = set ts old t

      run : Task
      run = record (get_or ts next blank) { state = running }

      ts2 : List Task
      ts2 = set ts1 next run

      stays : get_or ts1 next blank ≡ get_or ts next blank
      stays = get_or-set_ne ts old next t blank ne

      now : get_or ts2 old blank ≡ t
      now =
          get_or-set_ne ts1 next old run blank (λ e. ne (sym e)) ∙ get_or-set_self ts old t blank ho

  set_same : (ts : List Task) (i : ℕ) → set ts i (get_or ts i blank) ≡ ts
  set_same [] i = refl
  set_same (t ∷ ts) zero = refl
  set_same (t ∷ ts) (suc i) = ap (λ us. t ∷ us) (set_same ts i)

  -- What a switch leaves in each slot: the old task is ready again if it was running, and its stack
  -- pointer is saved; the new one is running; no other slot changes.
  pub slot_of-switch_to :
      (saved old next : ℕ) (k : Kernel V) (j : ℕ)
      → old < length k.tasks
      → next < length k.tasks
      → old ≢ next
      → slot_of V (switch_to V saved old next k) j ≡ (
          if old == j
          then (record (slot_of V k old) {
            state = if is_running (slot_of V k old).state then ready else (slot_of V k old).state;
            esp = saved;
          })
          else if next == j
          then record (slot_of V k next) { state = running }
          else slot_of V k j)
  unfolding switch_to switched
  slot_of-switch_to saved old next k j ho hn ne =
      elim (Bool-cases (is_running (slot_of V k old).state)) [
        | inl run ↦ rw run (
            get_or-switched saved old next (record (slot_of V k old) { state = ready }) k.tasks j ho
              hn ne)
        | inr idle ↦ rw idle (
            rw (set_same k.tasks old) at
              (get_or-switched saved old next (slot_of V k old) k.tasks j ho hn ne))
      ]
