-- ===== src/Paging/Private.antt =====
-- Private page tables and private pages of a task, and a directory entry shared with a child.
use gannet_os.Base.{
  ℕ, zero, suc, ◌+◌, ◌*◌, not, ◌&&◌, Option, none, some, List, [], ◌∷◌, ◌==◌, if◌then◌else◌, set,
}
use gannet_os.Pmm
use gannet_os.Paging.{
  page_size, page_entries, Statics, Paging, entry_at, set_entry, is_present, table_of, pd_index,
  pt_index, user_entry,
}
use gannet_os.Paging.Boot.{clear_entries}
use gannet_os.Paging.Directories.{copy_entries}

-- The first table that nobody owns, searched from table `i` on.
unfoldable pub find_unowned : List ℕ → ℕ → Option ℕ
find_unowned [] i = none
find_unowned (o ∷ os) i = if o == 0 then some i else find_unowned os (i + 1)

module _ (a : Statics) where
  -- `task_private_tables[i]`
  abbrev pub table_address : ℕ → ℕ
  table_address i = a.task_private_tables + i * page_size

  -- The new table's address, `none` when the pool is exhausted.
  unfoldable pub alloc_task_private_table : (owner existing_pde : ℕ) → Paging → Option (ℕ × Paging)
  alloc_task_private_table owner existing_pde s = elim (find_unowned s.table_owner 0) [
    | none ↦ none
    | some i ↦ some (
      table_address i,
      record s {
        table_owner = set s.table_owner i owner;
        mem =
            if is_present existing_pde
            then copy_entries page_entries (table_of existing_pde) (table_address i) 0 s.mem
            else clear_entries page_entries (table_address i) 0 s.mem;
      },
    )
  ]

  -- The loop of `task_private_table_owner_of` over the tables from `i` on: `dir_phys` or 0.
  unfoldable pub owner_of : List ℕ → (i pt dir_phys : ℕ) → ℕ
  owner_of [] i pt dir_phys = 0
  owner_of (o ∷ os) i pt dir_phys =
      if (table_address i == pt) && (o == dir_phys)
      then dir_phys
      else owner_of os (i + 1) pt dir_phys

  -- The loop of `free_task_private_table`.
  unfoldable pub release_table : List ℕ → (i pt : ℕ) → List ℕ
  release_table [] i pt = []
  release_table (o ∷ os) i pt =
      if table_address i == pt then 0 ∷ os else o ∷ release_table os (i + 1) pt

  -- The table that `paging_map_private_page` is going to write to: the one that this directory
  -- already owns there, or a new one.
  unfoldable pub private_table : (dir_phys pd : ℕ) → Paging → Option (ℕ × Paging)
  private_table dir_phys pd s =
      let pde = s.mem (entry_at dir_phys pd) in
      if is_present pde && (owner_of s.table_owner 0 (table_of pde) dir_phys == dir_phys)
      then some (table_of pde, s)
      else elim (alloc_task_private_table dir_phys pde s) [
        | none ↦ none
        | some (pt, t) ↦ some (pt, set_entry t dir_phys pd (user_entry pt))
      ]

  -- The frame that was mapped, 0 on a failure.
  unfoldable pub map_private_page : (dir_phys vaddr : ℕ) → Paging → ℕ × Paging
  map_private_page dir_phys vaddr s = elim (private_table dir_phys (pd_index vaddr) s) [
    | none ↦ (0, s)
    | some (pt, t) ↦
        let (frame, p) = Pmm.alloc_frame t.pmm in
        if frame == 0
        then (0, record t { pmm = p })
        else (frame, set_entry (record t { pmm = p }) pt (pt_index vaddr) (user_entry frame))
  ]

  -- The loop that frees the frames of a table, from entry `i` on.
  unfoldable pub free_frames : ℕ → (pt i : ℕ) → Paging → Paging
  free_frames zero pt i s = s
  free_frames (suc left) pt i s =
      let pte = s.mem (entry_at pt i) in
      free_frames left pt (i + 1)
        (if is_present pte then record s { pmm = Pmm.free_frame (table_of pte) s.pmm } else s)

  unfoldable pub free_slot : (dir_phys pd : ℕ) → Paging → Paging
  free_slot dir_phys pd s =
      let pde = s.mem (entry_at dir_phys pd) in
      let pt = table_of pde in
      let t = free_frames page_entries pt 0 s in
      if not (is_present pde)
      then s
      else if not (owner_of s.table_owner 0 pt dir_phys == dir_phys)
      then s
      else set_entry (record t { table_owner = release_table t.table_owner 0 pt }) dir_phys pd 0

  unfoldable pub free_slots : ℕ → (dir_phys pd : ℕ) → Paging → Paging
  free_slots zero dir_phys pd s = s
  free_slots (suc left) dir_phys pd s = free_slots left dir_phys (pd + 1) (free_slot dir_phys pd s)

  unfoldable pub free_private_pages : ℕ → Paging → Paging
  free_private_pages dir_phys s = free_slots page_entries dir_phys 0 s

  unfoldable pub share_pde : (dst src vaddr : ℕ) → Paging → Paging
  share_pde dst src vaddr s =
      set_entry s dst (pd_index vaddr) (s.mem (entry_at src (pd_index vaddr)))
