-- ===== src/Task/Installed.antt =====
-- The end of every creation in task.c: the slot and the stack of the new task.
use gannet_os.Base.{
  ℕ, zero, suc, ◌+◌, ◌-◌, ◌*◌, ◌≤◌, ◌<◌, ◌≡◌, ◌≢◌, refl, sym, ap, ◌∙◌, inl, inr, true, Option, none,
  some, List, [], ◌∷◌, arith, ◌==◌, if◌then◌else◌, Bool-cases, length, length-set, get_or, set,
  get_or-set_self, get_or-set_ne,
}
use gannet_os.Vm.{Vm}
use gannet_os.Task.{
  is_unused, ready, Task, blank, Kernel, slot_of, Layout, task_stack_top, Stack, push_words,
  find_unused,
}
use gannet_os.Task.Create.{install}

-- The pushes of `*(--sp) = v`: the i-th word lies i + 1 words below the top, and nothing above the
-- top is touched.
push_words-sp : (vs : List ℕ) (sp : ℕ) (m : Stack) → (push_words vs sp m).0 ≡ sp - 4 * length vs
unfolding push_words
push_words-sp [] sp m = omega arith
push_words-sp (v ∷ vs) sp m =
    omega (arith, push_words-sp vs (sp - 4) (λ a. if (sp - 4) == a then v else m a))

push_words-above :
    (vs : List ℕ) (sp : ℕ) (m : Stack) (a : ℕ)
    → 4 * length vs ≤ sp
    → sp ≤ a
    → (push_words vs sp m).1 a ≡ m a
unfolding push_words
push_words-above [] sp m a h p = refl
push_words-above (v ∷ vs) sp m a h p =
    push_words-above vs (sp - 4) (λ x. if (sp - 4) == x then v else m x) a (omega arith)
      (omega arith)
    ∙ ground arith

push_words-word :
    (vs : List ℕ) (sp : ℕ) (m : Stack) (i : ℕ)
    → 4 * length vs ≤ sp
    → i < length vs
    → (push_words vs sp m).1 (sp - 4 * (i + 1)) ≡ get_or vs i 0
unfolding push_words
push_words-word [] sp m i h p = absurd (omega arith)
push_words-word (v ∷ vs) sp m zero h p =
    push_words-above vs (sp - 4) (λ x. if (sp - 4) == x then v else m x) (sp - 4) (omega arith)
      (omega arith)
    ∙ ground arith
push_words-word (v ∷ vs) sp m (suc i) h p =
    let m' : Stack = λ x. if (sp - 4) == x then v else m x in
    let same : sp - 4 * (suc i + 1) ≡ sp - 4 - 4 * (i + 1) = omega arith in
    ap (push_words vs (sp - 4) m').1 same
    ∙ push_words-word vs (sp - 4) m' i (omega arith) (omega arith)

-- The first unused slot.
pub find_unused_lem :
    (ts : List Task) (i s : ℕ)
    → find_unused ts i ≡ some s
    → (i ≤ s) × (s < i + length ts) × (is_unused (get_or ts (s - i) blank).state ≡ true)
unfolding find_unused
find_unused_lem [] i s h = cc
find_unused_lem (t ∷ ts) i s h = elim (Bool-cases (is_unused t.state)) [
  | inl here ↦
      let e : i ≡ s = ground arith in
      let front : s - i ≡ 0 = omega (arith, e) in
      (
        omega (arith, e),
        omega (arith, e),
        ap (λ n. is_unused (get_or (t ∷ ts) n blank).state) front ∙ here,
      )
  | inr later ↦
      let rest : find_unused ts (i + 1) ≡ some s = ground arith in
      let (lo, hi, free) = find_unused_lem ts (i + 1) s rest in
      let behind : s - i ≡ suc (s - (i + 1)) = omega (arith, lo) in
      (
        omega (arith, lo),
        omega (arith, hi),
        ap (λ n. is_unused (get_or (t ∷ ts) n blank).state) behind ∙ free,
      )
]

-- A creation that failed: nothing but the state of the paging code may have changed.
pub record Failed (V : Vm) (k : Kernel V) (r : Option ℕ) (k' : Kernel V) : Type 0 where
  pub refused : r ≡ none
  pub same_tasks : k'.tasks ≡ k.tasks
  pub same_next : k'.next_task_id ≡ k.next_task_id
  pub same_current : k'.current_task ≡ k.current_task
  pub same_stacks : k'.stacks ≡ k.stacks

-- A creation that succeeded in slot `slot`: the task is ready under the next id with the contents
-- `t`, and the words `frame` lie on its stack, the last one where its stack pointer is.
pub record Created (V : Vm) (a : Layout) (k : Kernel V) (frame : List ℕ) (parent : Option ℕ)
    (slot : ℕ) (r : Option ℕ) (k' : Kernel V) : Type 0 where
  pub in_table : slot < length k.tasks
  pub was_unused : is_unused (slot_of V k slot).state ≡ true
  pub named : (r ≡ some k.next_task_id) × ((slot_of V k' slot).id ≡ some k.next_task_id)
  pub is_on : (slot_of V k' slot).state ≡ ready
  pub child_of : (slot_of V k' slot).parent_id ≡ parent
  pub next : k'.next_task_id ≡ suc k.next_task_id
  pub size : length k'.tasks ≡ length k.tasks
  pub others : (j : ℕ) → slot ≢ j → slot_of V k' j ≡ slot_of V k j
  pub same_current : k'.current_task ≡ k.current_task
  pub stack_pointer : (slot_of V k' slot).esp ≡ task_stack_top a slot - 4 * length frame
  pub on_stack :
      (i : ℕ)
      → i < length frame
      → k'.stacks (task_stack_top a slot - 4 * (i + 1)) ≡ get_or frame i 0

module _ (V : Vm) (a : Layout) (k : Kernel V) (frame : List ℕ) (slot : ℕ) (t : Task)
    (w : V.State) where
  abbrev pub made : Kernel V
  made = record k { vm = w; stacks = (push_words frame (task_stack_top a slot) k.stacks).1 }

  pub install-Created :
      find_unused k.tasks 0 ≡ some slot
      → 4 * length frame ≤ 100
      → t.id ≡ some k.next_task_id
      → t.state ≡ ready
      → t.esp ≡ (push_words frame (task_stack_top a slot) k.stacks).0
      → Created V a k frame t.parent_id slot (install V a slot t made).0 (install V a slot t made).1
  unfolding install
  install-Created found short named is_on sp =
      let (lo, hi, free) = find_unused_lem k.tasks 0 slot found in
      let in_table : slot < length k.tasks = omega (arith, hi) in
      let index : slot - 0 ≡ slot = omega arith in
      let here : get_or (set k.tasks slot t) slot blank ≡ t =
        get_or-set_self k.tasks slot t blank in_table in
      record {
        in_table = in_table;
        was_unused = ap (λ n. is_unused (slot_of V k n).state) (sym index) ∙ free;
        named = (refl, ap (λ (u : Task). u.id) here ∙ named);
        is_on = ap (λ (u : Task). u.state) here ∙ is_on;
        child_of = ap (λ (u : Task). u.parent_id) here;
        next = refl;
        size = length-set k.tasks slot t;
        others = λ j ne. get_or-set_ne k.tasks slot j t blank ne;
        same_current = refl;
        stack_pointer =
            ap (λ (u : Task). u.esp) here
            ∙ sp
            ∙ push_words-sp frame (task_stack_top a slot) k.stacks;
        on_stack = λ i h. push_words-word frame (task_stack_top a slot) k.stacks i (omega arith) h;
      }
