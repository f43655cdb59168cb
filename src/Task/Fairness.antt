-- ===== src/Task/Fairness.antt =====
-- Successive calls of the scheduler of task.c while a task waits.
use gannet_os.Base.{
  ℕ, zero, suc, ◌+◌, ◌-◌, ◌%◌, ◌≤◌, ◌<◌, ◌≡◌, ◌≢◌, ◌⊎◌, refl, sym, ap, ◌∙◌, inl, inr, true, false,
  some, arith, ltb, ◌==◌, if◌then◌else◌, Bool-cases, length, length-set,
}
use native.Mathlib.Decide.{ℕ_discrete}
use gannet_os.Vm.{Vm}
use gannet_os.Task.{max_tasks, is_running, ready, running, Kernel, slot_of}
use gannet_os.Task.Schedule.{pick_next, switch_to, schedule}
use gannet_os.Task.RoundRobin.{is_ready_at, pick_next_lem, pick_next-lt, slot_of-switch_to}

module _ (V : Vm) where
  -- How many slots behind `c` the slot `t` lies, going round, `c` itself last.
  abbrev pub distance : ℕ → ℕ → ℕ
  distance c t = (t + max_tasks - c - 1) % max_tasks + 1

  pub length-switch_to :
      (saved old next : ℕ) (k : Kernel V)
      → length (switch_to V saved old next k).tasks ≡ length k.tasks
  unfolding switch_to
  length-switch_to saved old next k = elim (Bool-cases (is_running (slot_of V k old).state)) [
    | inl run ↦ length-set _ old _ ∙ length-set _ next _ ∙ rw run (length-set k.tasks old _)
    | inr idle ↦ length-set _ old _ ∙ length-set _ next _ ∙ rw idle refl
  ]

  pub schedule-switch :
      (saved c : ℕ) (k : Kernel V)
      → k.current_task ≡ some c
      → pick_next V c k ≢ c
      → schedule V saved k ≡ switch_to V saved c (pick_next V c k) k
  unfolding schedule
  schedule-switch saved c k e ne = ground arith

  pub schedule-stay :
      (saved c : ℕ) (k : Kernel V)
      → k.current_task ≡ some c
      → pick_next V c k ≡ c
      → schedule V saved k ≡ k
  unfolding schedule
  schedule-stay saved c k e same = ground arith

  pub current-switch_to :
      (saved old next : ℕ) (k : Kernel V) → (switch_to V saved old next k).current_task ≡ some next
  unfolding switch_to
  current-switch_to saved old next k = refl

  -- The task of slot `t` waits in a table where slot `c` runs.
  pub record Waits (k : Kernel V) (c t : ℕ) : Type 0 where
    pub size : length k.tasks ≡ max_tasks
    pub current : k.current_task ≡ some c
    pub c_in : c < max_tasks
    pub t_in : t < max_tasks
    pub other : t ≢ c
    pub is_waiting : is_ready_at V k t ≡ true

  -- The task of slot `t` runs.
  pub record Runs (k : Kernel V) (t : ℕ) : Type 0 where
    pub current : k.current_task ≡ some t
    pub is_on : is_running (slot_of V k t).state ≡ true

  -- Going `distance c t` slots on from `c` leads to `t`.
  distance_lem : (c t : ℕ) → c < max_tasks → t < max_tasks → (c + distance c t) % max_tasks ≡ t
  distance_lem c t p q = omega arith

  module _ (saved c t : ℕ) (k : Kernel V) (w : Waits k c t) where
    abbrev next : ℕ
    next = pick_next V c k

    slot-switch_to :
        (j : ℕ)
        → next ≢ c
        → slot_of V (switch_to V saved c next k) j ≡ (
            if c == j
            then (record (slot_of V k c) {
              state = if is_running (slot_of V k c).state then ready else (slot_of V k c).state;
              esp = saved;
            })
            else if next == j
            then record (slot_of V k next) { state = running }
            else slot_of V k j)
    slot-switch_to j ne =
        slot_of-switch_to V saved c next k j (omega (arith, w.size, w.c_in))
          (omega (arith, w.size, pick_next-lt V c k w.c_in)) (λ e. ne (sym e))

    schedule-Runs : next ≡ t → Runs (schedule V saved k) t
    schedule-Runs e = rw (schedule-switch saved c k w.current ne) (record {
      current = current-switch_to saved c next k ∙ ap some e;
      is_on = ground (arith, slot-switch_to t ne, e);
    })
      where
        ne : next ≢ c
        ne same = w.other (sym e ∙ same)

    schedule-Waits : next ≢ t → next ≢ c → Waits (schedule V saved k) next t
    schedule-Waits other ne = rw (schedule-switch saved c k w.current ne) (record {
      size = length-switch_to saved c next k ∙ w.size;
      current = current-switch_to saved c next k;
      c_in = pick_next-lt V c k w.c_in;
      t_in = w.t_in;
      other = λ e. other (sym e);
      is_waiting = ground (arith, slot-switch_to t ne, w.is_waiting, w.other);
    })

    -- The scheduler does not look further than the waiting task.
    not_past :
        (d : ℕ)
        → ((e : ℕ) → 1 ≤ e → e < d → is_ready_at V k ((c + e) % max_tasks) ≡ false)
        → d ≤ distance c t
    not_past d before = elim (Bool-cases (ltb (distance c t) d)) [
      | inl past ↦
          let missed = before (distance c t) (omega arith) (ground arith) in
          cc (missed, ap (is_ready_at V k) (distance_lem c t w.c_in w.t_in), w.is_waiting)
      | inr near ↦ ground arith
    ]

    -- One call of the scheduler runs a waiting task, or brings its turn nearer.
    schedule-progress :
        Runs (schedule V saved k) t
        ⊎ ((c' : ℕ) × Waits (schedule V saved k) c' t × (distance c' t < distance c t))
    schedule-progress = elim (pick_next_lem V c k) [
      | inl (nowhere, e) ↦ absurd (
          let missed = nowhere (distance c t) (omega arith) (omega arith) in
          cc (missed, ap (is_ready_at V k) (distance_lem c t w.c_in w.t_in), w.is_waiting))
      | inr (d, lo, hi, at, found, before) ↦
          let near = not_past d before in
          elim (ℕ_discrete next t) [
            | yes same ↦ inl (schedule-Runs same)
            | no differ ↦ inr (
              next,
              schedule-Waits differ (λ e. omega (arith, e, at, w.c_in, w.t_in, w.other, near)),
              omega (arith, at, near, differ, w.c_in, w.t_in),
            )
          ]
    ]

  -- The scheduler called again and again; `saved` gives the stack pointers that are stored.
  unfoldable pub schedules : ℕ → (ℕ → ℕ) → Kernel V → Kernel V
  schedules zero saved k = k
  schedules (suc n) saved k = schedules n (λ i. saved (suc i)) (schedule V (saved 0) k)

  schedules_within :
      (n c t : ℕ) (saved : ℕ → ℕ) (k : Kernel V)
      → Waits k c t
      → distance c t ≤ n
      → (m : ℕ) × (m ≤ n) × Runs (schedules m saved k) t
  unfolding schedules
  schedules_within zero c t saved k w h = absurd (omega arith)
  schedules_within (suc n) c t saved k w h = elim (schedule-progress (saved 0) c t k w) [
    | inl now ↦ (1, omega arith, now)
    | inr (c', w', less) ↦
        let (m, le, runs) =
          schedules_within n c' t (λ i. saved (suc i)) (schedule V (saved 0) k) w' (omega arith) in
        (suc m, omega arith, runs)
  ]

  -- No starvation: while the other tasks only yield or are interrupted, a task that is ready runs
  -- after at most seven calls of the scheduler, whatever the states of the other slots are.
  pub schedules-Runs :
      (c t : ℕ) (saved : ℕ → ℕ) (k : Kernel V)
      → Waits k c t
      → (m : ℕ) × (m < max_tasks) × Runs (schedules m saved k) t
  schedules-Runs c t saved k w =
      let (m, le, runs) =
        schedules_within 7 c t saved k w (omega (arith, w.c_in, w.t_in, w.other)) in
      (m, omega arith, runs)
