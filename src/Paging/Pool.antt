-- ===== src/Paging/Pool.antt =====
-- The set of directories that are handed out, under paging_clone_kernel_directory and
-- paging_free_directory.
use gannet_os.Base.{
  ℕ, suc, ◌+◌, ◌-◌, ◌≤◌, ◌<◌, ◌≡◌, ◌≢◌, ◌⊎◌, refl, ap, ◌∙◌, inl, inr, Bool, true, false, ◌&&◌, ◌||◌,
  some, List, [], ◌∷◌, arith, ◌==◌, if◌then◌else◌, Option-cases, set,
}
use gannet_os.Paging.{Statics, Paging}
use gannet_os.Paging.Directories.{
  find_free, directory_address, clone_kernel_directory, release_slot, free_directory,
}

module _ (a : Statics) where
  unfoldable pub owned_in : List Bool → ℕ → ℕ → Bool
  owned_in [] i d = false
  owned_in (u ∷ us) i d = (u && (directory_address a i == d)) || owned_in us (i + 1) d

  unfoldable pub owned : Paging → ℕ → Bool
  owned s d = owned_in s.directory_used 0 d

  owned_in-below : (us : List Bool) (i d : ℕ) → d < directory_address a i → owned_in us i d ≡ false
  unfolding owned_in
  owned_in-below [] i d h = refl
  owned_in-below (u ∷ us) i d h = ground (arith, owned_in-below us (i + 1) d)

  find_free-ge : (us : List Bool) (i n : ℕ) → find_free us i ≡ some n → i ≤ n
  unfolding find_free
  find_free-ge [] i n h = cc
  find_free-ge (u ∷ us) i n h = ground (arith, find_free-ge us (i + 1) n)

  owned_in-claimed :
      (us : List Bool) (i n d : ℕ)
      → find_free us i ≡ some n
      → owned_in (set us (n - i) true) i d
        ≡ (if directory_address a n == d then true else owned_in us i d)
  unfolding owned_in find_free
  owned_in-claimed [] i n d h = cc
  owned_in-claimed (true ∷ us) i n d h =
      let lo = find_free-ge us (i + 1) n h in
      let behind : n - i ≡ suc (n - (i + 1)) = omega (arith, lo) in
      rw behind (ground (arith, owned_in-claimed us (i + 1) n d h))
  owned_in-claimed (false ∷ us) i n d h =
      let e : i ≡ n = ground arith in
      let front : n - i ≡ 0 = omega (arith, e) in rw front (ground (arith, e))

  owned_in-unclaimed :
      (us : List Bool) (i n : ℕ)
      → find_free us i ≡ some n
      → owned_in us i (directory_address a n) ≡ false
  unfolding owned_in find_free
  owned_in-unclaimed [] i n h = refl
  owned_in-unclaimed (true ∷ us) i n h =
      let lo = find_free-ge us (i + 1) n h in ground (arith, owned_in-unclaimed us (i + 1) n h)
  owned_in-unclaimed (false ∷ us) i n h =
      let e : i ≡ n = ground arith in
      owned_in-below us (i + 1) (directory_address a n) (omega (arith, e))

  owned_in-released :
      (us : List Bool) (i d e : ℕ)
      → owned_in (release_slot a us i d) i e ≡ (if d == e then false else owned_in us i e)
  unfolding owned_in release_slot
  owned_in-released [] i d e = ground arith
  owned_in-released (u ∷ us) i d e =
      ground (arith, owned_in-released us (i + 1) d e, owned_in-below us (i + 1) e)

  -- Where `paging_clone_kernel_directory` does not fail, the directory that it hands out was nobody's
  -- before, and no other changes hands.
  pub owned-clone :
      (s : Paging)
      → let (d, t) = clone_kernel_directory a s in
        d ≢ 0 → (owned s d ≡ false) × ((e : ℕ) → owned t e ≡ (if d == e then true else owned s e))
  unfolding owned clone_kernel_directory
  owned-clone s = elim (Option-cases (find_free s.directory_used 0)) [
    | inl full ↦ rw (full, clone_kernel_directory) (λ h. absurd (h refl))
    | inr (n, found) ↦
        rw (found, clone_kernel_directory)
          (λ h. (
            owned_in-unclaimed s.directory_used 0 n found,
            λ e.
                let index : n ≡ n - 0 = omega arith in
                ap (λ m. owned_in (set s.directory_used m true) 0 e) index
                ∙ owned_in-claimed s.directory_used 0 n e found,
          ))
  ]

  pub owned-clone_failed :
      (s : Paging)
      → a.task_directories ≢ 0
      → let (d, t) = clone_kernel_directory a s in d ≡ 0 → (e : ℕ) → owned t e ≡ owned s e
  unfolding owned clone_kernel_directory
  owned-clone_failed s pos = elim (Option-cases (find_free s.directory_used 0)) [
    | inl full ↦ rw (full, clone_kernel_directory) (λ h e. refl)
    | inr (n, found) ↦ rw (found, clone_kernel_directory) (λ h. absurd (omega arith))
  ]

  pub clone-ge :
      (s : Paging) → let d = (clone_kernel_directory a s).0 in (d ≡ 0) ⊎ (a.task_directories ≤ d)
  unfolding clone_kernel_directory
  clone-ge s = elim (Option-cases (find_free s.directory_used 0)) [
    | inl full ↦ rw (full, clone_kernel_directory) (inl refl)
    | inr (n, found) ↦ rw (found, clone_kernel_directory) (inr (omega arith))
  ]

  -- Giving a directory back takes it, and no other, out of the set that is handed out; an address that is
  -- no task directory changes nothing.
  pub owned-free :
      (d : ℕ) (s : Paging) (e : ℕ)
      → owned (free_directory a d s) e ≡ (if d == e then false else owned s e)
  unfolding owned free_directory
  owned-free d s e = owned_in-released s.directory_used 0 d e
