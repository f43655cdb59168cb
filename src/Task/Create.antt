-- ===== src/Task/Create.antt =====
-- `task_init` and the four ways to create a task. Each returns the new id, `none` for -1, and the
-- kernel that it leaves: on a failure that is the old one but for what the paging code has already
-- handed out.
use gannet_os.Base.{
  ℕ, zero, suc, ◌+◌, ◌*◌, Bool, true, false, not, Option, none, some, List, [], ◌∷◌, ◌==◌,
  if◌then◌else◌, get_or, set,
}
use gannet_os.Vm.{Vm}
use gannet_os.Task.{
  page_size, task_private_vaddr, app_load_addr, spawn_child_stack_vaddr, spawn_child_stack_pages,
  max_tasks, unused, ready, running, Task, blank, Layout, task_stack_top, push_words, copy_name,
  find_unused, Kernel, slot_of, task_stack_size,
}

module _ (V : Vm) (a : Layout) where
  -- The assignments that end every creation: the slot gets its contents and the task its id.
  unfoldable pub install : ℕ → Task → Kernel V → Option ℕ × Kernel V
  install slot t k = (
    some k.next_task_id,
    record k { tasks = set k.tasks slot t; next_task_id = suc k.next_task_id },
  )

  -- The guard page of every stack, from task `i` on.
  unfoldable pub stacks_init_guards : ℕ → ℕ → V.State → V.State
  stacks_init_guards zero i v = v
  stacks_init_guards (suc left) i v =
      stacks_init_guards left (i + 1)
        (V.unmap_page (a.task_stacks + i * (page_size + task_stack_size)) v)

  clear_slots : List Task → List Task
  clear_slots [] = []
  clear_slots (t ∷ ts) = record t { state = unused; id = none } ∷ clear_slots ts

  unfoldable pub task_init : Kernel V → Kernel V
  unfolding clear_slots
  task_init k =
      let v = stacks_init_guards max_tasks 0 k.vm in
      let ts = clear_slots k.tasks in
      let first = record (get_or ts 0 blank) {
        state = running;
        id = some k.next_task_id;
        cr3 = V.kernel_directory;
        parent_id = none;
        name = copy_name (b'm' ∷ b'a' ∷ b'i' ∷ b'n' ∷ []) 0 (get_or ts 0 blank).name;
      } in
      record k {
        tasks = set ts 0 first;
        next_task_id = suc k.next_task_id;
        current_task = some 0;
        current_cr3 = V.kernel_directory;
        vm = (V.map_private_page V.kernel_directory task_private_vaddr v).1;
      }

  unfoldable pub task_create : (entry arg : ℕ) (name : List ℕ) → Kernel V → Option ℕ × Kernel V
  unfolding install
  task_create entry arg name k = elim (find_unused k.tasks 0) [
    | none ↦ (none, k)
    | some slot ↦
        let (cr3, v) = V.clone_directory k.vm in
        let (frame, w) = V.map_private_page cr3 task_private_vaddr v in
        let (sp, m) =
          push_words (arg ∷ entry ∷ a.task_trampoline ∷ 0 ∷ 0 ∷ 0 ∷ 0 ∷ 0x202 ∷ [])
            (task_stack_top a slot) k.stacks in
        let t = record (slot_of V k slot) {
          esp = sp;
          cr3 = cr3;
          state = ready;
          id = some k.next_task_id;
          parent_id = none;
          name = copy_name name 0 (slot_of V k slot).name;
        } in
        if cr3 == 0
        then (none, record k { vm = v })
        else if frame == 0
        then (none, record k { vm = w })
        else install slot t (record k { vm = w; stacks = m })
  ]

  -- The second component is what goes through `out_private_frame`, when the call gets that far.
  unfoldable pub task_create_ring3 :
      (entry user_stack_top : ℕ) (name : List ℕ) → Kernel V → Option ℕ × Option ℕ × Kernel V
  unfolding install
  task_create_ring3 entry user_stack_top name k = elim (find_unused k.tasks 0) [
    | none ↦ (none, none, k)
    | some slot ↦
        let (cr3, v) = V.clone_directory k.vm in
        let (frame, w) = V.map_private_page cr3 task_private_vaddr v in
        let (sp, m) =
          push_words
            (user_stack_top ∷ entry ∷ a.ring3_entry_trampoline ∷ 0 ∷ 0 ∷ 0 ∷ 0 ∷ 0x202 ∷ [])
            (task_stack_top a slot) k.stacks in
        let t = record (slot_of V k slot) {
          esp = sp;
          cr3 = cr3;
          state = ready;
          id = some k.next_task_id;
          is_ring3 = true;
          kernel_stack_top = task_stack_top a slot;
          parent_id = none;
          name = copy_name name 0 (slot_of V k slot).name;
        } in
        if cr3 == 0
        then (none, none, record k { vm = v })
        else if frame == 0
        then (none, none, record k { vm = w })
        else (let (id, k') = install slot t (record k { vm = w; stacks = m }) in
            (id, some frame, k'))
  ]

  unfoldable pub task_create_app_ring3 :
      (dir_phys app_main_addr argc argv api user_stack_top : ℕ) (name : List ℕ)
      → Kernel V
      → Option ℕ × Kernel V
  unfolding install
  task_create_app_ring3 dir_phys app_main_addr argc argv api user_stack_top name k =
      elim (find_unused k.tasks 0) [
        | none ↦ (none, k)
        | some slot ↦
            let (frame, w) = V.map_private_page dir_phys task_private_vaddr k.vm in
            let (sp, m) =
              push_words
                (user_stack_top ∷ api ∷ argv ∷ argc ∷ app_main_addr ∷ a.app_entry_trampoline ∷ 0 ∷ 0
                  ∷ 0 ∷ 0 ∷ 0x202 ∷ [])
                (task_stack_top a slot) k.stacks in
            let t = record (slot_of V k slot) {
              esp = sp;
              cr3 = dir_phys;
              state = ready;
              id = some k.next_task_id;
              is_ring3 = true;
              kernel_stack_top = task_stack_top a slot;
              parent_id = none;
              name = copy_name name 0 (slot_of V k slot).name;
            } in
            if frame == 0
            then (none, record k { vm = w })
            else install slot t (record k { vm = w; stacks = m })
      ]

  -- The loop that maps the stack of a child, from page `p` on: whether every page was mapped.
  unfoldable pub map_stack : ℕ → ℕ → ℕ → V.State → Bool × V.State
  map_stack zero p cr3 v = (true, v)
  map_stack (suc left) p cr3 v =
      let (frame, w) = V.map_private_page cr3 (spawn_child_stack_vaddr + p * page_size) v in
      let rest = map_stack left (p + 1) cr3 w in if frame == 0 then (false, w) else rest

  -- `current_task < 0 || !tasks[current_task].is_ring3` does not hold: the task to share from.
  unfoldable pub sharing_parent : Kernel V → Option Task
  sharing_parent k = elim k.current_task [
    | none ↦ none
    | some c ↦ if (slot_of V k c).is_ring3 then some (slot_of V k c) else none
  ]

  unfoldable pub task_create_ring3_child :
      (entry arg : ℕ) (name : List ℕ) → Kernel V → Option ℕ × Kernel V
  unfolding install sharing_parent
  task_create_ring3_child entry arg name k = elim (find_unused k.tasks 0) [
    | none ↦ (none, k)
    | some slot ↦ elim (sharing_parent k) [
      | none ↦ (none, k)
      | some parent ↦
          let (cr3, v) = V.clone_directory k.vm in
          let (mapped, u) =
            map_stack spawn_child_stack_pages 0 cr3 (V.share_pde cr3 parent.cr3 app_load_addr v) in
          let user_stack_top = spawn_child_stack_vaddr + spawn_child_stack_pages * page_size in
          let (frame, w) = V.map_private_page cr3 task_private_vaddr u in
          let (sp, m) =
            push_words
              (user_stack_top ∷ arg ∷ entry ∷ a.ring3_entry_arg_trampoline ∷ 0 ∷ 0 ∷ 0 ∷ 0 ∷ 0x202
                ∷ [])
              (task_stack_top a slot) k.stacks in
          let t = record (slot_of V k slot) {
            esp = sp;
            cr3 = cr3;
            state = ready;
            id = some k.next_task_id;
            is_ring3 = true;
            kernel_stack_top = task_stack_top a slot;
            parent_id = parent.id;
            name = copy_name name 0 (slot_of V k slot).name;
          } in
          if cr3 == 0
          then (none, record k { vm = v })
          else if not mapped
          then (none, record k { vm = u })
          else if frame == 0
          then (none, record k { vm = w })
          else install slot t (record k { vm = w; stacks = m })
    ]
  ]
