-- ===== src/Paging/Directories.antt =====
-- The pool of page directories for tasks.
use gannet_os.Base.{
  ℕ, zero, suc, ◌+◌, ◌*◌, Bool, true, false, not, Option, none, some, List, [], ◌∷◌, ◌==◌,
  if◌then◌else◌, set,
}
use gannet_os.Paging.{page_size, page_entries, Statics, Words, Paging, entry_at, write_word}

-- The first slot that is not in use, searched from slot `i` on.
unfoldable pub find_free : List Bool → ℕ → Option ℕ
find_free [] i = none
find_free (u ∷ us) i = if not u then some i else find_free us (i + 1)

-- `for (i = 0; i < PAGE_ENTRIES; i++) to[i] = from[i];` from entry `i` on.
unfoldable pub copy_entries : ℕ → (from to i : ℕ) → Words → Words
copy_entries zero from to i m = m
copy_entries (suc left) from to i m =
    copy_entries left from to (i + 1) (write_word m (entry_at to i) (m (entry_at from i)))

module _ (a : Statics) where
  -- `(uint32_t)task_directories[i]`
  abbrev pub directory_address : ℕ → ℕ
  directory_address i = a.task_directories + i * page_size

  unfoldable pub clone_kernel_directory : Paging → ℕ × Paging
  clone_kernel_directory s = elim (find_free s.directory_used 0) [
    | none ↦ (0, s)
    | some slot ↦ (
      directory_address slot,
      record s {
        directory_used = set s.directory_used slot true;
        mem = copy_entries page_entries a.page_directory (directory_address slot) 0 s.mem;
      },
    )
  ]

  -- The loop of `paging_free_directory` over the slots from `i` on.
  unfoldable pub release_slot : List Bool → ℕ → ℕ → List Bool
  release_slot [] i dir_phys = []
  release_slot (u ∷ us) i dir_phys =
      if directory_address i == dir_phys then false ∷ us else u ∷ release_slot us (i + 1) dir_phys

  unfoldable pub free_directory : ℕ → Paging → Paging
  free_directory dir_phys s = record s { directory_used = release_slot s.directory_used 0 dir_phys }
