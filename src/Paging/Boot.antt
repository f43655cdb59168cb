-- ===== src/Paging/Boot.antt =====
-- The boot-time tables: the identity map, and the changes that the kernel makes to it.
use gannet_os.Base.{
  ℕ, zero, suc, ◌+◌, ◌-◌, ◌*◌, ◌/◌, ◌%◌, ◌^◌, not, Option, none, some, ltb, if◌then◌else◌, bit_or,
}
use gannet_os.Pmm
use gannet_os.Paging.{
  paging_identity_low_bytes, page_size, page_entries, page_present, page_rw, page_user,
  max_static_page_tables, Statics, Words, Paging, entry_at, write_word, set_entry, is_present,
  table_of, pd_index, pt_index,
}

-- A chain of steps of which one may halt the machine, `none`.
infixl 5 ◌>>=◌
abbrev ◌>>=◌ : Option Paging → (Paging → Option Paging) → Option Paging
none >>= f = none
some s >>= f = f s

-- `for (i = 0; i < n; i++) table[i] = 0;` from entry `i` on.
unfoldable pub clear_entries : ℕ → ℕ → ℕ → Words → Words
clear_entries zero table i m = m
clear_entries (suc left) table i m =
    clear_entries left table (i + 1) (write_word m (entry_at table i) 0)

module _ (a : Statics) where
  -- The new table's address; `none` where the kernel prints its message and halts.
  unfoldable pub alloc_page_table : Paging → Option (ℕ × Paging)
  alloc_page_table s =
      if ltb s.next_free_table max_static_page_tables
      then some (
        a.page_tables + s.next_free_table * page_size,
        record s {
          next_free_table = s.next_free_table + 1;
          mem = clear_entries page_entries (a.page_tables + s.next_free_table * page_size) 0 s.mem;
        },
      )
      else none

  -- The first half of the loop of `identity_map_range`: the directory entry exists afterwards.
  unfoldable pub ensure_table : ℕ → Paging → Option Paging
  ensure_table addr s =
      if not (is_present (s.mem (entry_at a.page_directory (pd_index addr))))
      then elim (alloc_page_table s) [
        | none ↦ none
        | some (pt, t) ↦
            some (
              set_entry t a.page_directory (pd_index addr)
                (bit_or (bit_or pt page_present) page_rw))
      ]
      else some s

  unfoldable pub map_identity : (flags addr : ℕ) → Paging → Option Paging
  map_identity flags addr s = do
    t ← ensure_table addr s
    let pt = table_of (t.mem (entry_at a.page_directory (pd_index addr)))
    some (set_entry t pt (pt_index addr) (bit_or (bit_or addr flags) page_present))

  -- The loop of `identity_map_range`, with the number of pages left.
  unfoldable pub map_pages : ℕ → (flags addr : ℕ) → Paging → Option Paging
  map_pages zero flags addr s = some s
  map_pages (suc left) flags addr s =
      map_identity flags addr s >>= λ t. map_pages left flags (addr + page_size) t

  -- The first page of a range, and the number of pages up to its rounded end.
  abbrev pub first_page : ℕ → ℕ
  first_page start = start / page_size * page_size

  abbrev pub page_count : ℕ → ℕ → ℕ
  page_count start length =
      ((start + length + page_size - 1) % 2 ^ 32 / page_size * page_size - first_page start)
      / page_size

  unfoldable pub identity_map_range : (phys_start length flags : ℕ) → Paging → Option Paging
  identity_map_range phys_start length flags s =
      map_pages (page_count phys_start length) flags (first_page phys_start) s

  unfoldable pub mark_user : ℕ → Paging → Paging
  mark_user addr s =
      let pde = s.mem (entry_at a.page_directory (pd_index addr)) in
      let t = set_entry s a.page_directory (pd_index addr) (bit_or pde page_user) in
      let pt = table_of (t.mem (entry_at a.page_directory (pd_index addr))) in
      let pte = t.mem (entry_at pt (pt_index addr)) in
      if not (is_present pde)
      then s
      else if is_present pte
      then set_entry t pt (pt_index addr) (bit_or pte page_user)
      else t

  unfoldable pub mark_pages : ℕ → ℕ → Paging → Paging
  mark_pages zero addr s = s
  mark_pages (suc left) addr s = mark_pages left (addr + page_size) (mark_user addr s)

  unfoldable pub mark_kernel_region_user : (vaddr length : ℕ) → Paging → Paging
  mark_kernel_region_user vaddr length s = mark_pages (page_count vaddr length) (first_page vaddr) s

  -- `e & ~PAGE_PRESENT`; the page's translation is dropped from the TLB besides.
  unfoldable pub unmap_page : ℕ → Paging → Paging
  unmap_page vaddr s =
      let addr = first_page vaddr in
      let pde = s.mem (entry_at a.page_directory (pd_index addr)) in
      let pt = table_of pde in
      let pte = s.mem (entry_at pt (pt_index addr)) in
      if not (is_present pde) then s else set_entry s pt (pt_index addr) (pte - pte % 2)

  -- `paging_init` behind its two parameters, the address and the size of the frame buffer. The
  -- registers that turn paging on are not modelled.
  unfoldable pub paging_init : (fb_phys_base fb_height fb_pitch : ℕ) → Paging → Option Paging
  paging_init fb_phys_base fb_height fb_pitch s =
      let cleared : Paging = record s {
        mem = clear_entries page_entries a.page_directory 0 s.mem;
        next_free_table = 0;
      } in
      elim (identity_map_range 0 paging_identity_low_bytes page_rw cleared) [
        | none ↦ none
        | some low ↦
            elim (identity_map_range fb_phys_base (fb_height * fb_pitch % 2 ^ 32) page_rw low) [
              | none ↦ none
              | some t ↦ some (record t { pmm = Pmm.init t.pmm })
            ]
      ]
