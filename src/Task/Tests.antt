-- ===== src/Task/Tests.antt =====
-- The scheduler and the creation of tasks over the real paging code, at a table of three tasks.
use gannet_os.Base.{
  ℕ, zero, suc, ◌<◌, ◌≡◌, ◌⊎◌, ◌≢◌, refl, true, false, none, some, [], ◌∷◌, arith, replicate,
}
use gannet_os.Pmm.{Pmm}
use gannet_os.Vm.{Vm}
use gannet_os.Paging.{Statics, Paging}
use gannet_os.Paging.AsVm.{paging_vm}
use gannet_os.Task.{
  set_slot, Task, blank, ready, running, zombie, Kernel, Layout, slot_of, max_tasks, is_running,
}
use gannet_os.Task.Create.{task_create, task_create_ring3_child}
use gannet_os.Task.Schedule.{pick_next, pick_loop, switch_to, schedule, task_exit}
use gannet_os.Task.RoundRobin.{PickNext, pick_next_lem}
use gannet_os.Task.Fairness.{Waits, Runs, schedules, schedules-Runs}
use gannet_os.Task.Hardware.{IsSound, schedule-IsSound, dead, task_exit-IsSound}
use gannet_os.Task.Identity.{
  CreateOutcome, ChildOutcome, registers, task_create_lem, task_create_ring3_child_lem,
}

abbrev statics : Statics
statics = record {
  page_directory = 0x10000;
  page_tables = 0x20000;
  task_directories = 0x60000;
  task_private_tables = 0x80000;
}

abbrev layout : Layout
layout = record {
  task_stacks = 0xa0000;
  task_trampoline = 0x9000;
  ring3_entry_trampoline = 0x9100;
  app_entry_trampoline = 0x9200;
  ring3_entry_arg_trampoline = 0x9300;
}

abbrev vm : Vm
vm = paging_vm statics (omega arith) (omega arith)

abbrev pool : Pmm
pool = record { bitmap = replicate 256 0; memory = λ a. 0 }

abbrev paging : Paging
paging = record {
  mem = λ a. 0;
  next_free_table = 17;
  directory_used = true ∷ true ∷ replicate 6 false;
  table_owner = replicate 20 0;
  pmm = pool;
}

abbrev main_task : Task
main_task = record blank { cr3 = 0x10000; state = running; id = some 0; parent_id = none }

abbrev app_task : Task
app_task = record blank {
  esp = 5000;
  cr3 = 0x60000;
  state = ready;
  id = some 1;
  is_ring3 = true;
  kernel_stack_top = 0xb0000;
  parent_id = none;
}

abbrev shell_task : Task
shell_task = record blank {
  esp = 7000;
  cr3 = 0x61000;
  state = ready;
  id = some 2;
  parent_id = none;
}

abbrev three : Kernel vm
three = record {
  tasks = main_task ∷ app_task ∷ shell_task ∷ replicate 5 blank;
  current_task = some 0;
  next_task_id = 3;
  current_cr3 = 0x10000;
  loaded_cr3 = 0x10000;
  tss_esp0 = 0;
  cpu_esp = 0;
  stacks = λ a. 0;
  vm = paging;
}

only_first : (i : ℕ) → is_running (slot_of vm three i).state ≡ true → i ≡ 0
only_first zero h = refl
only_first (suc zero) h = cc
only_first (suc (suc zero)) h = cc
only_first (suc (suc (suc zero))) h = cc
only_first (suc (suc (suc (suc zero)))) h = cc
only_first (suc (suc (suc (suc (suc zero))))) h = cc
only_first (suc (suc (suc (suc (suc (suc zero)))))) h = cc
only_first (suc (suc (suc (suc (suc (suc (suc zero))))))) h = cc
only_first (suc (suc (suc (suc (suc (suc (suc (suc i)))))))) h = cc

-- The same table while the application runs.
abbrev parent_runs : Kernel vm
parent_runs = record three { current_task = some 1; current_cr3 = 0x60000; loaded_cr3 = 0x60000 }

three-IsSound : IsSound vm three 0
three-IsSound = record {
  holds = record {
    size = refl;
    current = refl;
    c_in = omega arith;
    alive = refl;
    only = only_first;
    cr3 = refl;
    loaded = refl;
    esp0 = λ h. cc;
  };
  runs = refl;
}

shell-Waits : Waits vm three 0 2
shell-Waits = record {
  size = refl;
  current = refl;
  c_in = omega arith;
  t_in = omega arith;
  other = omega arith;
  is_waiting = refl;
}

schedules-Runs_example :
    let saved : ℕ → ℕ = λ i. i in (m : ℕ) × (m < max_tasks) × Runs vm (schedules vm m saved three) 2
schedules-Runs_example = schedules-Runs vm 0 2 (λ i. i) three shell-Waits

app_comes_next : (schedule vm 9000 three).current_task ≡ some 1
unfolding schedule pick_next pick_loop switch_to
app_comes_next = refl

app_stack_loaded : (schedule vm 9000 three).tss_esp0 ≡ 0xb0000
unfolding schedule pick_next pick_loop switch_to
app_stack_loaded = refl

pick_next_lem_example : PickNext vm 0 three
pick_next_lem_example = pick_next_lem vm 0 three

schedule-IsSound_example : IsSound vm (schedule vm 9000 three) (pick_next vm 0 three)
schedule-IsSound_example = schedule-IsSound vm 9000 three 0 three-IsSound

task_exit-IsSound_example :
    let gone = dead vm 9000 three 0 three-IsSound in
    ((pick_next vm 0 gone ≢ 0)
      × IsSound vm (task_exit vm 9000 three) (pick_next vm 0 gone)
      × ((slot_of vm (task_exit vm 9000 three) 0).state ≡ zombie))
    ⊎ ((pick_next vm 0 gone ≡ 0)
        × (task_exit vm 9000 three
            ≡ set_slot vm three 0 (record (slot_of vm three 0) { state = zombie })))
task_exit-IsSound_example = task_exit-IsSound vm 9000 three 0 three-IsSound

task_create_lem_example :
    CreateOutcome vm layout three
      (77 ∷ 0x9999 ∷ 0x9000 ∷ registers)
      none
      (task_create vm layout 0x9999 77 (b'w' ∷ []) three)
task_create_lem_example = task_create_lem vm layout three 0x9999 77 (b'w' ∷ [])

task_create_ring3_child_lem_example :
    ChildOutcome vm layout parent_runs
      (0x50004000 ∷ 5 ∷ 0x200100 ∷ 0x9300 ∷ registers)
      (task_create_ring3_child vm layout 0x200100 5 (b'c' ∷ []) parent_runs)
task_create_ring3_child_lem_example =
    task_create_ring3_child_lem vm layout parent_runs 0x200100 5 (b'c' ∷ [])
