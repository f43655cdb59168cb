-- ===== src/Task.antt =====
-- The task table and the scheduler, kernel/proc/task.c and task.h. The table is over the interface
-- `Vm` of the paging code. The addresses that the linker and isr_wrappers.s choose are parameters.
pub mod Create
pub mod Schedule
pub mod RoundRobin
pub mod Fairness
pub mod Hardware
pub mod Installed
pub mod Identity
mod Tests
use gannet_os.Base.{
  ℕ, zero, suc, ◌+◌, ◌-◌, ◌*◌, ◌%◌, ◌^◌, ◌≡◌, Bool, true, false, not, ◌&&◌, ◌||◌, Option, none,
  some, List, [], ◌∷◌, ltb, ◌==◌, if◌then◌else◌, get_or, set, replicate,
}
use gannet_os.Vm.{Vm}

abbrev pub max_tasks : ℕ
max_tasks = 8

abbrev pub page_size : ℕ
page_size = 4096

abbrev pub task_stack_size : ℕ
task_stack_size = 16 * 1024

abbrev pub task_name_max : ℕ
task_name_max = 16

abbrev pub task_private_vaddr : ℕ
task_private_vaddr = 0x40000000

abbrev pub app_load_addr : ℕ
app_load_addr = 0x200000

abbrev pub spawn_child_stack_vaddr : ℕ
spawn_child_stack_vaddr = 0x50000000

abbrev pub spawn_child_stack_pages : ℕ
spawn_child_stack_pages = 4

pub data TaskState : Type 0 where
  unused ready running blocked zombie : TaskState

abbrev pub is_unused : TaskState → Bool
is_unused unused = true
is_unused ready = false
is_unused running = false
is_unused blocked = false
is_unused zombie = false

abbrev pub is_ready : TaskState → Bool
is_ready unused = false
is_ready ready = true
is_ready running = false
is_ready blocked = false
is_ready zombie = false

abbrev pub is_running : TaskState → Bool
is_running unused = false
is_running ready = false
is_running running = true
is_running blocked = false
is_running zombie = false

abbrev pub is_zombie : TaskState → Bool
is_zombie unused = false
is_zombie ready = false
is_zombie running = false
is_zombie blocked = false
is_zombie zombie = true

-- `a == b` for two ids, which are `int`s; `none` is -1.
abbrev pub same_id : Option ℕ → Option ℕ → Bool
same_id none none = true
same_id none (some b) = false
same_id (some a) none = false
same_id (some a) (some b) = a == b

pub record Task : Type 0 where
  pub esp : ℕ
  pub cr3 : ℕ
  pub state : TaskState
  pub name : List ℕ
  pub id : Option ℕ
  pub is_ring3 : Bool
  pub kernel_stack_top : ℕ
  pub parent_id : Option ℕ

-- A slot of the table as it stands in .bss.
abbrev pub blank : Task
blank = record {
  esp = 0;
  cr3 = 0;
  state = unused;
  name = replicate task_name_max 0;
  id = some 0;
  is_ring3 = false;
  kernel_stack_top = 0;
  parent_id = some 0;
}

-- Where the linker puts `task_stacks` and the entry stubs of isr_wrappers.s.
pub record Layout : Type 0 where
  pub task_stacks : ℕ
  pub task_trampoline : ℕ
  pub ring3_entry_trampoline : ℕ
  pub app_entry_trampoline : ℕ
  pub ring3_entry_arg_trampoline : ℕ

-- `task_stack_top`
abbrev pub task_stack_top : Layout → ℕ → ℕ
task_stack_top a slot =
    a.task_stacks + slot * (page_size + task_stack_size) + page_size + task_stack_size

-- `*(--sp) = v` for each word of the list, in order.
abbrev pub Stack : Type 0
Stack = ℕ → ℕ

unfoldable pub push_words : List ℕ → ℕ → Stack → ℕ × Stack
push_words [] sp m = (sp, m)
push_words (v ∷ vs) sp m = push_words vs (sp - 4) (λ a. if (sp - 4) == a then v else m a)

-- `while (name[i] && i < TASK_NAME_MAX - 1)`, and the terminator behind it.
unfoldable pub copy_name : List ℕ → ℕ → List ℕ → List ℕ
copy_name [] i out = set out i 0
copy_name (c ∷ cs) i out =
    if not (c == 0) && ltb i (task_name_max - 1)
    then copy_name cs (i + 1) (set out i c)
    else set out i 0

-- The first slot that is TASK_UNUSED, searched from slot `i` on.
unfoldable pub find_unused : List Task → ℕ → Option ℕ
find_unused [] i = none
find_unused (t ∷ ts) i = if is_unused t.state then some i else find_unused ts (i + 1)

module _ (V : Vm) where
  -- `current_task` is `none` for -1. `loaded_cr3` and `tss_esp0` are what the processor holds, and
  -- `cpu_esp` is its stack pointer when a switch has just been made.
  pub record Kernel : Type 0 where
    pub tasks : List Task
    pub current_task : Option ℕ
    pub next_task_id : ℕ
    pub current_cr3 : ℕ
    pub loaded_cr3 : ℕ
    pub tss_esp0 : ℕ
    pub cpu_esp : ℕ
    pub stacks : Stack
    pub vm : V.State

  abbrev pub slot_of : Kernel → ℕ → Task
  slot_of k i = get_or k.tasks i blank

  abbrev pub set_slot : Kernel → ℕ → Task → Kernel
  set_slot k i t = record k { tasks = set k.tasks i t }
