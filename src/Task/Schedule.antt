-- ===== src/Task/Schedule.antt =====
-- The round-robin scheduler and the calls that give up the processor. `saved` is the stack pointer
-- that `task_switch_asm` stores for the task that stops running.
use gannet_os.Base.{
  ℕ, zero, suc, ◌+◌, ◌%◌, Bool, false, Option, none, some, List, [], ◌∷◌, ◌==◌, if◌then◌else◌,
}
use gannet_os.Vm.{Vm}
use gannet_os.Task.{
  max_tasks, is_ready, is_running, is_zombie, ready, running, zombie, Task, Kernel, slot_of,
  set_slot, same_id,
}

module _ (V : Vm) where
  -- The loop of `pick_next` from `step` on, with the number of steps left.
  unfoldable pub pick_loop : ℕ → ℕ → ℕ → Kernel V → ℕ
  pick_loop zero step from k = from
  pick_loop (suc left) step from k =
      let rest = pick_loop left (step + 1) from k in
      let idx = (from + step) % max_tasks in if is_ready (slot_of V k idx).state then idx else rest

  unfoldable pub pick_next : ℕ → Kernel V → ℕ
  pick_next from k = pick_loop max_tasks 1 from k

  unfoldable pub stop_old : ℕ → Kernel V → Kernel V
  stop_old old k =
      if is_running (slot_of V k old).state
      then set_slot V k old (record (slot_of V k old) { state = ready })
      else k

  unfoldable pub start_next : ℕ → Kernel V → Kernel V
  start_next next k = set_slot V k next (record (slot_of V k next) { state = running })

  -- `current_task`, the page directory, the kernel stack of the next system call and the stack
  -- pointer are those of `next`.
  unfoldable pub load_next : ℕ → Kernel V → Kernel V
  load_next next k =
      let t = slot_of V k next in
      record k {
        current_task = some next;
        loaded_cr3 = if t.cr3 == k.current_cr3 then k.loaded_cr3 else t.cr3;
        current_cr3 = if t.cr3 == k.current_cr3 then k.current_cr3 else t.cr3;
        tss_esp0 = if t.is_ring3 then t.kernel_stack_top else k.tss_esp0;
        cpu_esp = t.esp;
      }

  unfoldable pub save_esp : (saved old : ℕ) → Kernel V → Kernel V
  save_esp saved old k = set_slot V k old (record (slot_of V k old) { esp = saved })

  -- The part of `schedule` behind its early returns: `old` stops and `next` runs.
  unfoldable pub switch_to : (saved old next : ℕ) → Kernel V → Kernel V
  unfolding stop_old start_next load_next save_esp
  switch_to saved old next k =
      save_esp saved old (load_next next (start_next next (stop_old old k)))

  unfoldable pub schedule : (saved : ℕ) → Kernel V → Kernel V
  schedule saved k = elim k.current_task [
    | none ↦ k
    | some old ↦ let next = pick_next old k in if next == old then k else switch_to saved old next k
  ]

  -- With interrupts off around it, which the model's steps are in any case.
  unfoldable pub task_yield : (saved : ℕ) → Kernel V → Kernel V
  task_yield saved k = schedule saved k

  unfoldable pub task_tick : (saved : ℕ) → Kernel V → Kernel V
  task_tick saved k = schedule saved k

  -- Where the result still runs the task that exits, the processor halts for good.
  unfoldable pub task_exit : (saved : ℕ) → Kernel V → Kernel V
  task_exit saved k = elim k.current_task [
    | none ↦ k
    | some c ↦ schedule saved (set_slot V k c (record (slot_of V k c) { state = zombie }))
  ]

  unfoldable pub task_current_id : Kernel V → Option ℕ
  task_current_id k = elim k.current_task [ none ↦ none | some c ↦ (slot_of V k c).id ]

  unfoldable pub task_current_cr3 : Kernel V → ℕ
  task_current_cr3 k = elim k.current_task [ none ↦ 0 | some c ↦ (slot_of V k c).cr3 ]

-- The loop of `task_is_zombie` over the table: the first slot with the id decides.
unfoldable pub zombie_in : List Task → Option ℕ → Bool
zombie_in [] id = false
zombie_in (t ∷ ts) id = if same_id t.id id then is_zombie t.state else zombie_in ts id

unfoldable pub task_is_zombie : (V : Vm) → Kernel V → Option ℕ → Bool
task_is_zombie V k id = zombie_in k.tasks id
