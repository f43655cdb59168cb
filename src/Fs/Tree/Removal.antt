-- ===== src/Fs/Tree/Removal.antt =====
-- Removals of filesys/fs.c: fs_delete, fs_rmdir and the recursive fs_rrmdr take away what they are
-- given, with what lies below it, and nothing else.
use gannet_os.Base.{
  ℕ, ◌<◌, ◌≡◌, ◌≢◌, refl, ap, ◌∙◌, sym, subst, Bool, true, ◌⊎◌, inl, inr, List, none, some, ◌==◌,
  Bool-cases, arith,
}
use gannet_os.Disk.{Disk}
use gannet_os.Fs.{Fs, Inode, max_inodes, type_free, type_dir, zero_inode}
use gannet_os.Fs.Inodes.{
  inode_at, put_inode, put_inode-IsSound, inode_at-put_inode_self, inode_at-put_inode_ne,
}
use gannet_os.Fs.Paths.{str_eq, text, root, fs_get_parent, fs_find}
use gannet_os.Fs.Names.{str_eq_iff}
use gannet_os.Fs.Lookup.{name_at, IsUsed, IsDir, matches_iff, fs_find-cases, inode_read_below}
use gannet_os.Fs.Files.{erase, release, fs_delete}
use gannet_os.Fs.Directories.{removable, child_at}
use gannet_os.Fs.Tree.{erase-IsTree, zero_inode-IsInode}
use gannet_os.Fs.Tree.Changes.{IsWell, leaves, erase_lem}

-- The name lies below the directory.
pub data Below (path : List ℕ) : List ℕ → Type 0 where
  child : {name : List ℕ} → fs_get_parent name ≡ path → Below path name
  deeper : {name : List ℕ} → Below path (fs_get_parent name) → Below path name

pub Below-trans : {a b c : List ℕ} → fs_get_parent b ≡ a → Below b c → Below a c
Below-trans {a} e (child h) = deeper (child (ap fs_get_parent h ∙ e))
Below-trans e (deeper h) = deeper (Below-trans e h)

-- Entries go away or stay as they are, and stay unless they are in the set.
pub record Shrinks (Gone : List ℕ → Type 0) (d d' : Disk) : Type 0 where
  pub well : IsWell d'
  pub kept : (j : ℕ) → j < max_inodes → IsUsed j d' → inode_at j d' ≡ inode_at j d
  pub untouched :
      (j : ℕ) → j < max_inodes → IsUsed j d → ¬ Gone (name_at j d) → inode_at j d' ≡ inode_at j d

pub Shrinks-refl : {Gone : List ℕ → Type 0} {d : Disk} → IsWell d → Shrinks Gone d d
Shrinks-refl w = record { well = w; kept = λ j p u. refl; untouched = λ j p u g. refl }

pub Shrinks-trans :
    {Gone : List ℕ → Type 0} {a b c : Disk} → Shrinks Gone a b → Shrinks Gone b c → Shrinks Gone a c
Shrinks-trans {Gone} {a} {b} {c} s t = record {
  well = t.well;
  kept = λ j p u.
      t.kept j p u ∙ s.kept j p (subst (λ (m : Inode). m.kind ≢ type_free) (t.kept j p u) u);
  untouched = λ j p u g.
      let same = s.untouched j p u g in
      t.untouched j p (subst (λ (m : Inode). m.kind ≢ type_free) (sym same) u)
        (λ gone. g (subst Gone (ap (λ m. text m.name) same) gone))
      ∙ same;
}

pub Shrinks-mono :
    {G H : List ℕ → Type 0} {a b : Disk}
    → ((n : List ℕ) → G n → H n)
    → Shrinks G a b
    → Shrinks H a b
Shrinks-mono f s = record {
  well = s.well;
  kept = s.kept;
  untouched = λ j p u h. s.untouched j p u (λ g. h (f _ g));
}

-- An inode that holds no directory of another entry is erased.
pub put_zero-Shrinks :
    {d : Disk} (w : IsWell d) (idx : ℕ)
    → idx < max_inodes
    → ((j : ℕ)
        → j < max_inodes
        → j ≢ idx
        → IsUsed j d
        → IsDir idx d
        → name_at idx d ≢ fs_get_parent (name_at j d))
    → Shrinks (λ n. n ≡ name_at idx d) d (put_inode idx zero_inode d)
      × ((inode_at idx (put_inode idx zero_inode d)).kind ≡ type_free)
unfolding zero_inode
put_zero-Shrinks {d} w idx below childless = (
  record {
    well = record {
      sound = put_inode-IsSound w.sound idx zero_inode-IsInode;
      tree = erase-IsTree w.sound w.tree idx childless;
    };
    kept = λ j p u.
        other j (λ e. u (ap (λ k. (inode_at k (put_inode idx zero_inode d)).kind) e ∙ freed));
    untouched = λ j p u g. other j (λ e. g (ap (λ k. name_at k d) e));
  },
  freed,
)
  where
    other : (j : ℕ) → j ≢ idx → inode_at j (put_inode idx zero_inode d) ≡ inode_at j d
    other j h = inode_at-put_inode_ne w.sound idx zero_inode-IsInode j h

    freed : (inode_at idx (put_inode idx zero_inode d)).kind ≡ type_free
    freed = ap Inode.kind (inode_at-put_inode_self w.sound idx zero_inode-IsInode)

-- The result of a call that removed the entry of inode `i`, with what is in the set.
pub record Removes (Gone : List ℕ → Type 0) (i : ℕ) (d : Disk) (r : Bool × Fs) : Type 0 where
  pub done : r.0 ≡ true
  pub shrinks : Shrinks Gone d r.1.disk
  pub freed : (inode_at i r.1.disk).kind ≡ type_free

release_disk : (inode : Inode) (fs : Fs) → (release inode fs).disk ≡ fs.disk
unfolding release
release_disk inode fs = ground arith

module _ (fs : Fs) (w : IsWell fs.disk) where
  -- An entry is found by its name.
  pub find_self :
      (i : ℕ) → i < max_inodes → IsUsed i fs.disk → fs_find (name_at i fs.disk) fs.disk ≡ some i
  find_self i below used = elim (fs_find-cases w.sound (name_at i fs.disk)) [
    | inl (missing, unmatched) ↦
        cc (unmatched i below, (matches_iff i (name_at i fs.disk) fs.disk).1 (used, refl))
    | inr (k, found, k_below, m) ↦
        let same = (matches_iff k (name_at i fs.disk) fs.disk).0 m in
        found ∙ ap some (w.tree.unique k i k_below below same.0 used same.1)
  ]

  pub erase-Removes :
      (idx : ℕ)
      → idx < max_inodes
      → ((j : ℕ)
          → j < max_inodes
          → j ≢ idx
          → IsUsed j fs.disk
          → IsDir idx fs.disk
          → name_at idx fs.disk ≢ fs_get_parent (name_at j fs.disk))
      → Removes (λ n. n ≡ name_at idx fs.disk) idx fs.disk (erase idx fs)
  erase-Removes idx below childless =
      subst (Removes (λ n. n ≡ name_at idx fs.disk) idx fs.disk) (sym (erase_lem fs w idx below))
        (record {
          done = refl;
          shrinks = (put_zero-Shrinks w idx below childless).0;
          freed = (put_zero-Shrinks w idx below childless).1;
        })

module _ (fs : Fs) (w : IsWell fs.disk) where
  -- Deleting a file takes its inode away, and no other.
  pub fs_delete-Removes :
      (i : ℕ)
      → i < max_inodes
      → IsUsed i fs.disk
      → (inode_at i fs.disk).kind ≢ type_dir
      → Removes (λ n. n ≡ name_at i fs.disk) i fs.disk (fs_delete (name_at i fs.disk) fs)
  unfolding fs_delete
  fs_delete-Removes i below used file =
      subst (Removes (λ n. n ≡ name_at i fs.disk) i fs.disk) (sym reached) moved
    where
      inode : Inode
      inode = inode_at i fs.disk

      same : (release inode fs).disk ≡ fs.disk
      same = release_disk inode fs

      reached : fs_delete (name_at i fs.disk) fs ≡ erase i (release inode fs)
      reached = ground (arith, find_self fs w i below used, inode_read_below w.sound i below)

      moved : Removes (λ n. n ≡ name_at i fs.disk) i fs.disk (erase i (release inode fs))
      moved =
          subst (λ d. Removes (λ n. n ≡ name_at i d) i d (erase i (release inode fs))) same
            (erase-Removes (release inode fs) (leaves same w) i below
              λ j p q u dir. absurd (file (ap (λ d. (inode_at i d).kind) (sym same) ∙ dir)))

  -- The inode of a directory.
  pub removable_lem :
      (i : ℕ)
      → i < max_inodes
      → IsDir i fs.disk
      → name_at i fs.disk ≢ root
      → removable (name_at i fs.disk) fs.disk ≡ some i
  unfolding removable
  removable_lem i below dir other = ground (
    arith,
    (str_eq_iff (name_at i fs.disk) root).0,
    find_self fs w i below (λ free. ground arith),
    inode_read_below w.sound i below,
  )

  -- A child of the directory, as the loops see it.
  pub child_at_lem :
      (i idx : ℕ) (path : List ℕ)
      → i < max_inodes
      → (child_at i idx path fs.disk ≡ none)
          × (i ≢ idx → IsUsed i fs.disk → fs_get_parent (name_at i fs.disk) ≢ path)
        ⊎ (child_at i idx path fs.disk ≡ some (inode_at i fs.disk))
          × (i ≢ idx)
          × IsUsed i fs.disk
          × (fs_get_parent (name_at i fs.disk) ≡ path)
  unfolding child_at
  child_at_lem i idx path below = elim (Bool-cases (i == idx)) [
    | inl same ↦ inl (ground arith, λ h. absurd (ground arith))
    | inr other ↦ elim (Bool-cases ((inode_at i fs.disk).kind == type_free)) [
      | inl free ↦
          inl (ground (arith, inode_read_below w.sound i below), λ h u. absurd (ground arith))
      | inr used ↦ elim (Bool-cases (str_eq (fs_get_parent (name_at i fs.disk)) path)) [
        | inl is_child ↦ inr (
          ground (arith, inode_read_below w.sound i below),
          (λ h. ground arith),
          (λ h. ground arith),
          (str_eq_iff (fs_get_parent (name_at i fs.disk)) path).0 is_child,
        )
        | inr no_child ↦ inl (
          ground (arith, inode_read_below w.sound i below),
          λ h u e. cc ((str_eq_iff (fs_get_parent (name_at i fs.disk)) path).1 e),
        )
      ]
    ]
  ]
