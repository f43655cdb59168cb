-- ===== src/Paging/MapPage.antt =====
-- paging_map_private_page of paging.c on each of its branches.
use gannet_os.Base.{
  ℕ, ◌^◌, ◌<◌, ◌≡◌, ◌≢◌, ◌⊎◌, inl, inr, refl, sym, subst, true, false, some, arith, ◌==◌,
}
use gannet_os.Pmm
use gannet_os.Pmm.Frames.{IsValid, alloc_frame_lem}
use gannet_os.Paging.{Statics, Paging, pd_index, pt_index, user_entry}
use gannet_os.Paging.Private.{map_private_page}
use gannet_os.Paging.Copies.{IsPage}
use gannet_os.Paging.Translate.{translate, user_access, IsDirectory}
use gannet_os.Paging.Isolation.{
  TableOutcome, private_table_lem, translate-written, user_access-written, others_translate,
}

-- The outcome of mapping a private page at slot `pd` and entry `k` of a directory: a failure, with
-- the entry of every page as it was, or a page frame that user code may use there, and the entry of
-- every other page as it was.
pub data MapOutcome (s : Paging) (dir pd k : ℕ) (r : ℕ × Paging) : Type 0 where
  failed :
      r.0 ≡ 0
      → ((pd' k' : ℕ)
          → pd' < 1024
          → k' < 1024
          → translate r.1.mem dir pd' k' ≡ translate s.mem dir pd' k')
      → MapOutcome s dir pd k r
  mapped :
      IsPage r.0
      → translate r.1.mem dir pd k ≡ some (user_entry r.0)
      → user_access r.1.mem dir pd k ≡ true
      → ((pd' k' : ℕ)
          → pd' < 1024
          → k' < 1024
          → (pd ≢ pd') ⊎ (k ≢ k')
          → translate r.1.mem dir pd' k' ≡ translate s.mem dir pd' k')
      → MapOutcome s dir pd k r

-- Let a directory and the pool of private tables be aligned to pages, the directory's tables be other
-- pages than its own, none of them a private table without an
-- owner, and each of its own private tables in one slot only, behind a directory entry with PAGE_RW
-- and PAGE_USER; let the frame allocator be valid and the address of 32 bits. Then
-- `paging_map_private_page` either fails with 0 and leaves the table entry that each page of the
-- directory has, or the page of the address has the frame that it returns, the entries of both
-- levels are present and let user code read and write, and every other page of the directory has
-- the table entry, or none, that it had.
pub map_private_page_lem :
    (a : Statics) (s : Paging) (dir vaddr : ℕ)
    → IsDirectory a s dir
    → IsValid s.pmm
    → vaddr < 2 ^ 32
    → MapOutcome s dir (pd_index vaddr) (pt_index vaddr) (map_private_page a dir vaddr s)
unfolding map_private_page
map_private_page_lem a s dir vaddr d v h =
    elim (private_table_lem a s dir (pd_index vaddr) d (omega arith)) [
      | TableOutcome.exhausted e ↦
          rw (map_private_page, e) (MapOutcome.failed refl (λ pd' k' h' l. refl))
      | TableOutcome.ready pt t e p ↦
          elim (alloc_frame_lem t.pmm (subst IsValid (sym p.same_pmm) v)) [
            | inl (full, none') ↦ rw (map_private_page, e, none') (MapOutcome.failed refl p.kept)
            | inr (i, c, below) ↦
                let frame : ℕ = (Pmm.alloc_frame t.pmm).0 in
                let page : IsPage frame = record { aligned = omega (arith, c.address) } in
                let some' : (frame == 0) ≡ false = ground (arith, c.address) in
                let pd_in : pd_index vaddr < 1024 = omega arith in
                let k_in : pt_index vaddr < 1024 = omega arith in
                rw (map_private_page, e, some')
                  (MapOutcome.mapped page
                    (translate-written a s dir (pd_index vaddr) d pd_in (pt_index vaddr) k_in pt t p
                      frame page)
                    (user_access-written a s dir (pd_index vaddr) d pd_in (pt_index vaddr) k_in pt t
                      p frame page)
                    (others_translate a s dir (pd_index vaddr) d pd_in (pt_index vaddr) k_in pt t p
                      frame page))
          ]
    ]
