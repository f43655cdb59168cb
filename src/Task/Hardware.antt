-- ===== src/Task/Hardware.antt =====
-- The task that runs, and what the processor holds of it, under the scheduler of task.c and task_exit.
use gannet_os.Base.{
  ℕ, ◌<◌, ◌⊎◌, inl, inr, ◌≡◌, ◌≢◌, sym, ap, subst, ◌∙◌, true, false, some, arith, ◌==◌,
  if◌then◌else◌, length, length-set, get_or-set, get_or-set_ne,
}
use native.Mathlib.Decide.{ℕ_discrete}
use gannet_os.Vm.{Vm}
use gannet_os.Task.{
  max_tasks, is_running, is_unused, ready, running, zombie, Task, blank, Kernel, slot_of, set_slot,
}
use gannet_os.Task.Schedule.{
  pick_next, stop_old, start_next, load_next, save_esp, switch_to, schedule, task_exit,
}
use gannet_os.Task.RoundRobin.{pick_next-lt, slot_of-switch_to}
use gannet_os.Task.Fairness.{length-switch_to, schedule-switch, schedule-stay, current-switch_to}

module _ (V : Vm) where
  -- The table and the processor agree that no task but that of slot `c` has the processor.
  pub record Holds (k : Kernel V) (c : ℕ) : Type 0 where
    pub size : length k.tasks ≡ max_tasks
    pub current : k.current_task ≡ some c
    pub c_in : c < max_tasks
    pub alive : is_unused (slot_of V k c).state ≡ false
    pub only : (i : ℕ) → is_running (slot_of V k i).state ≡ true → i ≡ c
    pub cr3 : k.current_cr3 ≡ (slot_of V k c).cr3
    pub loaded : k.loaded_cr3 ≡ k.current_cr3
    pub esp0 : (slot_of V k c).is_ring3 ≡ true → k.tss_esp0 ≡ (slot_of V k c).kernel_stack_top

  -- They agree that the task of slot `c` has the processor: it is marked as running, and no other is.
  pub record IsSound (k : Kernel V) (c : ℕ) : Type 0 where
    pub holds : Holds k c
    pub runs : is_running (slot_of V k c).state ≡ true

  -- The processor holds the page directory of task `t`, and its kernel stack if it needs one.
  abbrev pub Loads : Kernel V → Task → Type 0
  Loads k t =
      (k.current_cr3 ≡ t.cr3)
      × (k.loaded_cr3 ≡ k.current_cr3)
      × (t.is_ring3 ≡ true → k.tss_esp0 ≡ t.kernel_stack_top)

  load_next-Loads :
      (next : ℕ) (u : Kernel V)
      → u.loaded_cr3 ≡ u.current_cr3
      → Loads (load_next V next u) (slot_of V u next)
  unfolding load_next
  load_next-Loads next u h = (ground arith, ground arith, λ r. ground arith)

  stop_old-loaded :
      (old : ℕ) (k : Kernel V)
      → k.loaded_cr3 ≡ k.current_cr3
      → (stop_old V old k).loaded_cr3 ≡ (stop_old V old k).current_cr3
  unfolding stop_old
  stop_old-loaded old k h = ground arith

  module _ (saved old next : ℕ) (k : Kernel V) (ne : old ≢ next) where
    loaded_slot :
        (u : Kernel V)
        → slot_of V (save_esp V saved old (load_next V next u)) next ≡ slot_of V u next
    unfolding save_esp load_next
    loaded_slot u = get_or-set_ne u.tasks old next _ blank ne

    switch_to-Loads :
        k.loaded_cr3 ≡ k.current_cr3
        → Loads (switch_to V saved old next k) (slot_of V (switch_to V saved old next k) next)
    unfolding switch_to
    switch_to-Loads h =
        let u = start_next V next (stop_old V old k) in
        subst (λ t. Loads (load_next V next u) t) (sym (loaded_slot u))
          (load_next-Loads next u (stop_old-loaded old k h))

  module _ (saved : ℕ) (k : Kernel V) (c : ℕ) (s : Holds k c) where
    abbrev next : ℕ
    next = pick_next V c k

    switch-IsSound : next ≢ c → IsSound (switch_to V saved c next k) next
    switch-IsSound ne = record {
      holds = record {
        size = length-switch_to V saved c next k ∙ s.size;
        current = current-switch_to V saved c next k;
        c_in = pick_next-lt V c k s.c_in;
        alive = ground (arith, slots next, ne);
        only = λ i h. ground (arith, slots i, s.only i);
        cr3 = loads.0;
        loaded = loads.1;
        esp0 = loads.2;
      };
      runs = ground (arith, slots next, ne);
    }
      where
        slots :
            (j : ℕ)
            → slot_of V (switch_to V saved c next k) j ≡ (
                if c == j
                then (record (slot_of V k c) {
                  state = if is_running (slot_of V k c).state then ready else (slot_of V k c).state;
                  esp = saved;
                })
                else if next == j
                then record (slot_of V k next) { state = running }
                else slot_of V k j)
        slots j =
            slot_of-switch_to V saved c next k j (omega (arith, s.size, s.c_in))
              (omega (arith, s.size, pick_next-lt V c k s.c_in)) (λ e. ne (sym e))

        loads : Loads (switch_to V saved c next k) (slot_of V (switch_to V saved c next k) next)
        loads = switch_to-Loads saved c next k (λ e. ne (sym e)) s.loaded

    schedule_running :
        is_running (slot_of V k c).state ≡ true → IsSound (schedule V saved k) (pick_next V c k)
    schedule_running now = elim (ℕ_discrete next c) [
      | yes same ↦
          rw (schedule-stay V saved c k s.current same, same) (record { holds = s; runs = now })
      | no ne ↦ rw (schedule-switch V saved c k s.current ne) (switch-IsSound ne)
    ]

  -- Let the table of eight slots and the processor agree on the running task: it is marked as
  -- running and no other is, and the processor holds its page directory and, for a ring3 task, its
  -- kernel stack. Then `schedule` leaves them in agreement on the task that `pick_next` picks, which
  -- is the one that is now marked as running.
  pub schedule-IsSound :
      (saved : ℕ) (k : Kernel V) (c : ℕ)
      → IsSound k c
      → IsSound (schedule V saved k) (pick_next V c k)
  schedule-IsSound saved k c s = schedule_running saved k c s.holds s.runs

module _ (V : Vm) (saved : ℕ) (k : Kernel V) (c : ℕ) (s : IsSound V k c) where
  pub dead : Kernel V
  dead = set_slot V k c (record (slot_of V k c) { state = zombie })

  slot_of-dead :
      (j : ℕ)
      → slot_of V dead j
        ≡ (if c == j then record (slot_of V k c) { state = zombie } else slot_of V k j)
  unfolding dead
  slot_of-dead j = get_or-set k.tasks c j _ blank (omega (arith, s.holds.size, s.holds.c_in))

  dead-Holds : Holds V dead c
  unfolding dead
  dead-Holds = record {
    size = length-set k.tasks c _ ∙ s.holds.size;
    current = s.holds.current;
    c_in = s.holds.c_in;
    alive = ground (arith, slot_of-dead c);
    only = λ i h. ground (arith, slot_of-dead i, s.holds.only i);
    cr3 = ground (arith, slot_of-dead c, s.holds.cr3);
    loaded = s.holds.loaded;
    esp0 = λ r. ground (arith, slot_of-dead c, s.holds.esp0);
  }

  task_exit-schedule : task_exit V saved k ≡ schedule V saved dead
  unfolding task_exit dead
  task_exit-schedule = ground (arith, s.holds.current)

  zombie_after :
      pick_next V c dead ≢ c
      → (slot_of V (switch_to V saved c (pick_next V c dead) dead) c).state ≡ zombie
  zombie_after ne = ground (
    arith,
    slot_of-switch_to V saved c (pick_next V c dead) dead c
        (omega (arith, dead-Holds.size, s.holds.c_in))
        (omega (arith, dead-Holds.size, pick_next-lt V c dead s.holds.c_in)) (λ e. ne (sym e)),
    slot_of-dead c,
  )

  exit_switch :
      pick_next V c dead ≢ c → task_exit V saved k ≡ switch_to V saved c (pick_next V c dead) dead
  exit_switch ne = task_exit-schedule ∙ schedule-switch V saved c dead dead-Holds.current ne

  -- Let the table of eight slots and the processor agree on the running task. If another task is
  -- ready, its exit leaves them in agreement on that task, which is now the one marked as running,
  -- and the slot of the task that exited is a zombie. If none is, the processor stays with the
  -- task, which is a zombie, and the rest of the table is as before.
  pub task_exit-IsSound :
      ((pick_next V c dead ≢ c)
        × IsSound V (task_exit V saved k) (pick_next V c dead)
        × ((slot_of V (task_exit V saved k) c).state ≡ zombie))
      ⊎ ((pick_next V c dead ≡ c)
          × (task_exit V saved k ≡ set_slot V k c (record (slot_of V k c) { state = zombie })))
  unfolding dead
  task_exit-IsSound = elim (ℕ_discrete (pick_next V c dead) c) [
    | no ne ↦ inl (
      ne,
      subst (λ u. IsSound V u (pick_next V c dead)) (sym (exit_switch ne))
          (switch-IsSound V saved dead c dead-Holds ne),
      ap (λ u. (slot_of V u c).state) (exit_switch ne) ∙ zombie_after ne,
    )
    | yes same ↦
        inr (same, task_exit-schedule ∙ schedule-stay V saved c dead dead-Holds.current same)
  ]
