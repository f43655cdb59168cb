-- ===== src/Paging/AsVm.antt =====
-- The operations of paging.c as the task table uses them: the interface `Vm`.
use gannet_os.Base.{
  ℕ, zero, suc, ◌+◌, ◌<◌, ◌≡◌, ◌≢◌, inl, inr, refl, ap, ◌∙◌, arith, if◌then◌else◌, if_both,
  Option-cases, some,
}
use gannet_os.Pmm
use gannet_os.Vm.{Vm}
use gannet_os.Paging.{Statics, Paging, page_entries, table_of, is_present, entry_at, pd_index}
use gannet_os.Paging.Boot.{unmap_page}
use gannet_os.Paging.Directories.{clone_kernel_directory, free_directory}
use gannet_os.Paging.Private.{
  alloc_task_private_table, private_table, map_private_page, free_frames, free_slot, free_slots,
  free_private_pages, share_pde,
}
use gannet_os.Paging.Pool.{owned, owned_in, owned-clone, owned-clone_failed, clone-ge, owned-free}

module _ (a : Statics) where
  -- Two states hand out the same directories.
  abbrev pub SameUsed : Paging → Paging → Type 0
  SameUsed s t = t.directory_used ≡ s.directory_used

  pub owned_of_same : (s t : Paging) (d : ℕ) → SameUsed s t → owned a t d ≡ owned a s d
  unfolding owned
  owned_of_same s t d h = ap (λ us. owned_in a us 0 d) h

  pub share_same : (d e v : ℕ) (s : Paging) (x : ℕ) → owned a (share_pde a d e v s) x ≡ owned a s x
  unfolding owned share_pde
  share_same d e v s x = refl

  alloc_used :
      (o e : ℕ) (s : Paging) (pt : ℕ) (t : Paging)
      → alloc_task_private_table a o e s ≡ some (pt, t)
      → SameUsed s t
  unfolding alloc_task_private_table
  alloc_used o e s pt t h = ground arith

  private_used :
      (d pd : ℕ) (s : Paging) (pt : ℕ) (t : Paging)
      → private_table a d pd s ≡ some (pt, t)
      → SameUsed s t
  unfolding private_table
  private_used d pd s pt t h =
      elim (Option-cases (alloc_task_private_table a d (s.mem (entry_at d pd)) s)) [
        | inl full ↦ ground arith
        | inr ((q, u), found) ↦ ground (arith, alloc_used d (s.mem (entry_at d pd)) s q u found)
      ]

  pub map_used : (d v : ℕ) (s : Paging) → SameUsed s (map_private_page a d v s).1
  unfolding map_private_page
  map_used d v s = elim (Option-cases (private_table a d (pd_index v) s)) [
    | inl full ↦ ground arith
    | inr ((pt, t), found) ↦ ground (arith, private_used d (pd_index v) s pt t found)
  ]

  free_frames_used : (n pt i : ℕ) (s : Paging) → SameUsed s (free_frames a n pt i s)
  unfolding free_frames
  free_frames_used zero pt i s = refl
  free_frames_used (suc n) pt i s =
      free_frames_used n pt (i + 1) (
        if is_present (s.mem (entry_at pt i))
        then record s { pmm = Pmm.free_frame (table_of (s.mem (entry_at pt i))) s.pmm }
        else s)
      ∙ if_both (SameUsed s) (is_present (s.mem (entry_at pt i))) refl refl

  free_slot_used : (d pd : ℕ) (s : Paging) → SameUsed s (free_slot a d pd s)
  unfolding free_slot
  free_slot_used d pd s =
      ground (arith, free_frames_used page_entries (table_of (s.mem (entry_at d pd))) 0 s)

  pub free_slots_used : (n d pd : ℕ) (s : Paging) → SameUsed s (free_slots a n d pd s)
  unfolding free_slots
  free_slots_used zero d pd s = refl
  free_slots_used (suc n) d pd s =
      free_slots_used n d (pd + 1) (free_slot a d pd s) ∙ free_slot_used d pd s

  pub map_same :
      (d v : ℕ) (s : Paging) (x : ℕ) → owned a (map_private_page a d v s).1 x ≡ owned a s x
  map_same d v s x = owned_of_same s (map_private_page a d v s).1 x (map_used d v s)

  pub pages_same : (d : ℕ) (s : Paging) (x : ℕ) → owned a (free_private_pages a d s) x ≡ owned a s x
  unfolding free_private_pages
  pages_same d s x =
      owned_of_same s (free_slots a page_entries d 0 s) x (free_slots_used page_entries d 0 s)

  -- The task directories lie above the kernel's own, which is not at address 0.
  module _ (nonzero : 0 < a.page_directory) (above : a.page_directory < a.task_directories) where
    pub clone_not_kernel : (s : Paging) → (clone_kernel_directory a s).0 ≢ a.page_directory
    clone_not_kernel s e = elim (clone-ge a s) [ inl zero' ↦ omega arith | inr high ↦ omega arith ]

    -- The pools of paging.c meet what the task table asks of them.
    abbrev pub paging_vm : Vm
    paging_vm = record {
      State = Paging;
      kernel_directory = a.page_directory;
      clone_directory = clone_kernel_directory a;
      map_private_page = map_private_page a;
      share_pde = share_pde a;
      free_private_pages = free_private_pages a;
      free_directory = free_directory a;
      unmap_page = unmap_page a;
      owned = owned a;
      clone_fresh = owned-clone a;
      clone_not_kernel = clone_not_kernel;
      clone_failed = λ s. owned-clone_failed a s (omega arith);
      map_owned = map_same;
      share_owned = share_same;
      free_pages_owned = pages_same;
      free_directory_owned = owned-free a;
    }
