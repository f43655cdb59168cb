-- ===== src/Task/Identity.antt =====
-- The outcomes of the four ways to create a task in task.c.
use gannet_os.Base.{
  ℕ, ◌≡◌, refl, inl, inr, Option, Bool, not, ◌==◌, none, some, List, [], ◌∷◌, arith, Option-cases,
  if_both,
}
use gannet_os.Vm.{Vm}
use gannet_os.Task.{
  Task, Kernel, Layout, find_unused, task_private_vaddr, app_load_addr, spawn_child_stack_pages,
}
use gannet_os.Task.Create.{
  task_create, task_create_ring3, task_create_app_ring3, task_create_ring3_child, sharing_parent,
  map_stack,
}
use gannet_os.Task.Installed.{Failed, Created, install-Created}

-- The outcome of a creation, for a new task with this frame on its stack and this parent.
pub data CreateOutcome (V : Vm) (a : Layout) (k : Kernel V) (frame : List ℕ) (parent : Option ℕ)
    (r : Option ℕ × Kernel V) : Type 0 where
  failed : Failed V k r.0 r.1 → CreateOutcome V a k frame parent r
  created :
      (slot : ℕ) → Created V a k frame parent slot r.0 r.1 → CreateOutcome V a k frame parent r

-- The same for `task_create_ring3`, which passes no frame out when it fails.
pub data Ring3Outcome (V : Vm) (a : Layout) (k : Kernel V) (frame : List ℕ)
    (r : Option ℕ × Option ℕ × Kernel V) : Type 0 where
  failed : r.1 ≡ none → Failed V k r.0 r.2 → Ring3Outcome V a k frame r
  created :
      (slot page : ℕ)
      → r.1 ≡ some page
      → Created V a k frame none slot r.0 r.2
      → Ring3Outcome V a k frame r

-- The same for a child: it is created only while a task runs that it can share with.
pub data ChildOutcome (V : Vm) (a : Layout) (k : Kernel V) (frame : List ℕ)
    (r : Option ℕ × Kernel V) : Type 0 where
  failed : Failed V k r.0 r.1 → ChildOutcome V a k frame r
  created :
      (parent : Task) (slot : ℕ)
      → sharing_parent V a k ≡ some parent
      → Created V a k frame parent.id slot r.0 r.1
      → ChildOutcome V a k frame r

-- The words behind the arguments of every frame: the saved registers, and the flags on top.
abbrev pub registers : List ℕ
registers = 0 ∷ 0 ∷ 0 ∷ 0 ∷ 0x202 ∷ []

module _ (V : Vm) (a : Layout) (k : Kernel V) where
  vm_only : (w : V.State) → Failed V k none (record k { vm = w })
  vm_only w = record {
    refused = refl;
    same_tasks = refl;
    same_next = refl;
    same_current = refl;
    same_stacks = refl;
  }

  abbrev private_page : ℕ × V.State → ℕ × V.State
  private_page (d, v) = V.map_private_page d task_private_vaddr v

  -- The directory of a child of `parent`, with its shared code and its own stack.
  abbrev child_stack : Task → Bool × V.State
  child_stack parent =
      let (d, v) = V.clone_directory k.vm in
      map_stack V a spawn_child_stack_pages 0 d (V.share_pde d parent.cr3 app_load_addr v)

  -- `task_create` changes nothing in the table and returns -1, or makes a task ready in one unused
  -- slot under a new id, whose first switch enters the trampoline with its entry and argument.
  pub task_create_lem :
      (entry arg : ℕ) (name : List ℕ)
      → CreateOutcome V a k
          (arg ∷ entry ∷ a.task_trampoline ∷ registers)
          none
          (task_create V a entry arg name k)
  unfolding task_create
  task_create_lem entry arg name = elim (Option-cases (find_unused k.tasks 0)) [
    | inl full ↦ rw (full, task_create) (CreateOutcome.failed (vm_only k.vm))
    | inr (slot, found) ↦
        rw (found, task_create)
          (if_both Outcome ((V.clone_directory k.vm).0 == 0) (CreateOutcome.failed (vm_only _)) (
            if_both Outcome ((private_page (V.clone_directory k.vm)).0 == 0)
              (CreateOutcome.failed (vm_only _))
              (CreateOutcome.created slot
                (install-Created V a k _ slot _ _ found (omega arith) refl refl refl))))
  ]
    where
      Outcome : Option ℕ × Kernel V → Type 0
      Outcome = CreateOutcome V a k (arg ∷ entry ∷ a.task_trampoline ∷ registers) none

  -- `task_create_ring3` changes nothing in the table, passes no frame out and returns -1, or makes
  -- a task ready in one unused slot, whose first switch enters ring 3 at its entry.
  pub task_create_ring3_lem :
      (entry user_stack_top : ℕ) (name : List ℕ)
      → Ring3Outcome V a k
          (user_stack_top ∷ entry ∷ a.ring3_entry_trampoline ∷ registers)
          (task_create_ring3 V a entry user_stack_top name k)
  unfolding task_create_ring3
  task_create_ring3_lem entry user_stack_top name = elim (Option-cases (find_unused k.tasks 0)) [
    | inl full ↦ rw (full, task_create_ring3) (Ring3Outcome.failed refl (vm_only k.vm))
    | inr (slot, found) ↦
        rw (found, task_create_ring3)
          (if_both Outcome ((V.clone_directory k.vm).0 == 0) (Ring3Outcome.failed refl (vm_only _))
            (if_both Outcome ((private_page (V.clone_directory k.vm)).0 == 0)
              (Ring3Outcome.failed refl (vm_only _))
              (Ring3Outcome.created slot _ refl
                (install-Created V a k _ slot _ _ found (omega arith) refl refl refl))))
  ]
    where
      Outcome : Option ℕ × Option ℕ × Kernel V → Type 0
      Outcome = Ring3Outcome V a k (user_stack_top ∷ entry ∷ a.ring3_entry_trampoline ∷ registers)

  -- `task_create_app_ring3` changes nothing in the table and returns -1, or makes a task ready in
  -- one unused slot, whose first switch enters the application with its arguments.
  pub task_create_app_ring3_lem :
      (dir_phys app_main_addr argc argv api user_stack_top : ℕ) (name : List ℕ)
      → CreateOutcome V a k
          (user_stack_top ∷ api ∷ argv ∷ argc ∷ app_main_addr ∷ a.app_entry_trampoline ∷ registers)
          none
          (task_create_app_ring3 V a dir_phys app_main_addr argc argv api user_stack_top name k)
  unfolding task_create_app_ring3
  task_create_app_ring3_lem dir_phys app_main_addr argc argv api user_stack_top name =
      elim (Option-cases (find_unused k.tasks 0)) [
        | inl full ↦ rw (full, task_create_app_ring3) (CreateOutcome.failed (vm_only k.vm))
        | inr (slot, found) ↦
            rw (found, task_create_app_ring3)
              (if_both Outcome ((private_page (dir_phys, k.vm)).0 == 0)
                (CreateOutcome.failed (vm_only _))
                (CreateOutcome.created slot
                  (install-Created V a k _ slot _ _ found (omega arith) refl refl refl)))
      ]
    where
      Outcome : Option ℕ × Kernel V → Type 0
      Outcome =
          CreateOutcome V a k
            (user_stack_top ∷ api ∷ argv ∷ argc ∷ app_main_addr ∷ a.app_entry_trampoline
              ∷ registers)
            none

  -- `task_create_ring3_child` changes nothing in the table and returns -1, or a ring3 task is
  -- running and the new task is its child, made ready in one unused slot with its entry and
  -- argument and the top of its own stack.
  pub task_create_ring3_child_lem :
      (entry arg : ℕ) (name : List ℕ)
      → ChildOutcome V a k
          (0x50004000 ∷ arg ∷ entry ∷ a.ring3_entry_arg_trampoline ∷ registers)
          (task_create_ring3_child V a entry arg name k)
  unfolding task_create_ring3_child
  task_create_ring3_child_lem entry arg name = elim (Option-cases (find_unused k.tasks 0)) [
    | inl full ↦ rw (full, task_create_ring3_child) (ChildOutcome.failed (vm_only k.vm))
    | inr (slot, found) ↦ elim (Option-cases (sharing_parent V a k)) [
      | inl alone ↦ rw (found, alone, task_create_ring3_child) (ChildOutcome.failed (vm_only k.vm))
      | inr (parent, shared) ↦
          rw (found, shared, task_create_ring3_child)
            (if_both Outcome ((V.clone_directory k.vm).0 == 0) (ChildOutcome.failed (vm_only _)) (
              if_both Outcome (not (child_stack parent).0) (ChildOutcome.failed (vm_only _)) (
                if_both Outcome
                  ((private_page ((V.clone_directory k.vm).0, (child_stack parent).1)).0 == 0)
                  (ChildOutcome.failed (vm_only _))
                  (ChildOutcome.created parent slot shared
                    (install-Created V a k _ slot _ _ found (omega arith) refl refl refl)))))
    ]
  ]
    where
      Outcome : Option ℕ × Kernel V → Type 0
      Outcome =
          ChildOutcome V a k (0x50004000 ∷ arg ∷ entry ∷ a.ring3_entry_arg_trampoline ∷ registers)
