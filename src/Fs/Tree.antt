-- ===== src/Fs/Tree.antt =====
-- The directory tree of filesys/fs.c: no two entries have one name, and every entry lies in a
-- directory that exists. The operations keep it so.
pub mod Changes
pub mod Removal
pub mod Emptied
pub mod Recursive
use gannet_os.Base.{
  ℕ, zero, suc, ◌+◌, ◌≤◌, ◌<◌, ◌≡◌, ◌≢◌, ◌↔◌, refl, ap, ◌∙◌, sym, subst, Bool, true, false, ◌⊎◌,
  inl, inr, List, Option, none, some, leb, ◌==◌, ==_iff, if◌then◌else◌, Bool-cases, Option-cases,
  length, replicate, length-replicate, arith,
}
use gannet_os.Disk.{Disk, IsSound}
use gannet_os.Fs.{
  Fs, Inode, inode_write, max_inodes, type_free, type_file, type_dir, name_max, zero_inode,
}
use gannet_os.Fs.Inodes.{
  IsInode, inode_at, put_inode, inode_read_lem, inode_write_lem, put_inode-IsSound,
  inode_at-put_inode_self, inode_at-put_inode_ne,
}
use gannet_os.Fs.Paths.{
  str_eq, text, root, fs_get_parent, find_free_inode, fs_find, parent_exists, str_copy,
}
use gannet_os.Fs.Names.{str_eq_iff, Free, text-str_copy, length-copy_text}
use gannet_os.Fs.Lookup.{
  name_at, IsUsed, IsDir, HasDir, matches, matches_iff, First-cases, find_free_lem, fs_find-cases,
  fs_isdir-HasDir, inode_read_below,
}
use gannet_os.Fs.Files.{named, create_inode}

pub record IsTree (d : Disk) : Type 0 where
  pub unique :
      (i j : ℕ)
      → i < max_inodes
      → j < max_inodes
      → IsUsed i d
      → IsUsed j d
      → name_at i d ≡ name_at j d
      → i ≡ j
  pub parents : (i : ℕ) → i < max_inodes → IsUsed i d → HasDir (fs_get_parent (name_at i d)) d

pub named-IsInode : (path : List ℕ) (kind : ℕ) → kind < 256 → IsInode (named path kind)
unfolding named zero_inode str_copy
named-IsInode path kind h = record {
  name_fits = length-copy_text 127 (replicate 128 0) path;
  size_fits = omega arith;
  start_fits = omega arith;
  count_fits = omega arith;
  kind_fits = h;
  pad_fits = refl;
}

pub zero_inode-IsInode : IsInode zero_inode
unfolding zero_inode
zero_inode-IsInode = record {
  name_fits = refl;
  size_fits = omega arith;
  start_fits = omega arith;
  count_fits = omega arith;
  kind_fits = omega arith;
  pad_fits = refl;
}

-- A path that fits into an inode.
pub record IsPath (path : List ℕ) : Type 0 where
  pub short : length path < name_max
  pub no_nul : Free 0 path

named-name : (path : List ℕ) (kind : ℕ) → IsPath path → text (named path kind).name ≡ path
unfolding named
named-name path kind v = text-str_copy (replicate 128 0) path 128 v.short (omega arith) v.no_nul

module _ {d : Disk} (sound : IsSound d) (tree : IsTree d) where
  module _ (idx : ℕ) {n : Inode} (v : IsInode n) where
    -- A directory that is not overwritten is still there.
    keeps_dir :
        (path : List ℕ)
        → (IsDir idx d → name_at idx d ≢ path)
        → HasDir path d
        → HasDir path (put_inode idx n d)
    keeps_dir path h (inl e) = inl e
    keeps_dir path h (inr (k, below, dir, e)) = elim (Bool-cases (k == idx)) [
      | inl same ↦
          let e' : k ≡ idx = ground arith in
          absurd (h (subst (λ j. IsDir j d) e' dir) (subst (λ j. name_at j d ≡ path) e' e))
      | inr other ↦
          let stays : inode_at k (put_inode idx n d) ≡ inode_at k d =
            inode_at-put_inode_ne sound idx v k (λ p. ground arith) in
          inr (k, below, ap Inode.kind stays ∙ dir, ap (λ m. text m.name) stays ∙ e)
    ]

  module _ (idx : ℕ) where
    erased : Disk
    erased = put_inode idx zero_inode d

    erased_other : (j : ℕ) → IsUsed j erased → j ≢ idx
    unfolding erased zero_inode
    erased_other j u e = u (
        ap (λ k. (inode_at k (put_inode idx zero_inode d)).kind) e
        ∙ ap Inode.kind (inode_at-put_inode_self sound idx zero_inode-IsInode))

    erased_same : (j : ℕ) → IsUsed j erased → inode_at j erased ≡ inode_at j d
    unfolding erased
    erased_same j u = inode_at-put_inode_ne sound idx zero_inode-IsInode j (erased_other j u)

    erased-IsUsed : (j : ℕ) → IsUsed j erased → IsUsed j d
    erased-IsUsed j u = subst (λ (m : Inode). m.kind ≢ type_free) (erased_same j u) u

    erased_name : (j : ℕ) → IsUsed j erased → name_at j erased ≡ name_at j d
    erased_name j u = ap (λ m. text m.name) (erased_same j u)

    -- An inode is erased that is no directory, or the directory of no entry.
    pub erase-IsTree :
        ((j : ℕ)
          → j < max_inodes
          → j ≢ idx
          → IsUsed j d
          → IsDir idx d
          → name_at idx d ≢ fs_get_parent (name_at j d))
        → IsTree (put_inode idx zero_inode d)
    unfolding erased
    erase-IsTree childless = record {
      unique = λ i j p q u w e.
          tree.unique i j p q (erased-IsUsed i u) (erased-IsUsed j w)
            (sym (erased_name i u) ∙ e ∙ erased_name j w);
      parents = λ i p u.
          subst (λ s. HasDir (fs_get_parent s) erased) (sym (erased_name i u))
            (keeps_dir idx zero_inode-IsInode (fs_get_parent (name_at i d))
              (childless i p (erased_other i u) (erased-IsUsed i u))
              (tree.parents i p (erased-IsUsed i u)));
    }

  module _ (idx : ℕ) (free : (inode_at idx d).kind ≡ type_free) (path : List ℕ) (v : IsPath path)
      (kind : ℕ) (kind_fits : kind < 256)
      (new : (k : ℕ) → k < max_inodes → matches k path d ≡ false)
      (parent : HasDir (fs_get_parent path) d) where
    created : Disk
    created = put_inode idx (named path kind) d

    created_self : name_at idx created ≡ path
    unfolding created
    created_self =
        ap (λ m. text m.name)
          (inode_at-put_inode_self sound idx (named-IsInode path kind kind_fits))
        ∙ named-name path kind v

    created_same : (j : ℕ) → j ≢ idx → inode_at j created ≡ inode_at j d
    unfolding created
    created_same j h = inode_at-put_inode_ne sound idx (named-IsInode path kind kind_fits) j h

    created-IsUsed : (j : ℕ) → j ≢ idx → IsUsed j created → IsUsed j d
    created-IsUsed j h u = subst (λ (m : Inode). m.kind ≢ type_free) (created_same j h) u

    created_name : (j : ℕ) → j ≢ idx → name_at j created ≡ name_at j d
    created_name j h = ap (λ m. text m.name) (created_same j h)

    created_dir : (s : List ℕ) → HasDir s d → HasDir s created
    unfolding created
    created_dir s =
        keeps_dir idx (named-IsInode path kind kind_fits) s (λ dir. absurd (ground arith))

    not_new : (j : ℕ) → j < max_inodes → j ≢ idx → IsUsed j created → name_at j created ≢ path
    not_new j p h u e =
        cc (new j p, (matches_iff j path d).1 (created-IsUsed j h u, sym (created_name j h) ∙ e))

    created_unique :
        (i j : ℕ)
        → i < max_inodes
        → j < max_inodes
        → IsUsed i created
        → IsUsed j created
        → name_at i created ≡ name_at j created
        → i ≡ j
    created_unique i j p q u w e = elim (Bool-cases (i == idx)) [
      | inl i_new ↦ elim (Bool-cases (j == idx)) [
        | inl j_new ↦ ground arith
        | inr j_old ↦
            let e' : i ≡ idx = ground arith in
            absurd (
              not_new j q (λ x. ground arith) w
                (sym e ∙ ap (λ k. name_at k created) e' ∙ created_self))
      ]
      | inr i_old ↦ elim (Bool-cases (j == idx)) [
        | inl j_new ↦
            let e' : j ≡ idx = ground arith in
            absurd (
              not_new i p (λ x. ground arith) u (e ∙ ap (λ k. name_at k created) e' ∙ created_self))
        | inr j_old ↦
            let h : i ≢ idx = λ x. ground arith in
            let h' : j ≢ idx = λ x. ground arith in
            tree.unique i j p q (created-IsUsed i h u) (created-IsUsed j h' w)
              (sym (created_name i h) ∙ e ∙ created_name j h')
      ]
    ]

    created_parents :
        (i : ℕ)
        → i < max_inodes
        → IsUsed i created
        → HasDir (fs_get_parent (name_at i created)) created
    created_parents i p u = elim (Bool-cases (i == idx)) [
      | inl new' ↦
          let e' : i ≡ idx = ground arith in
          subst (λ s. HasDir (fs_get_parent s) created)
            (sym (ap (λ k. name_at k created) e' ∙ created_self))
            (created_dir (fs_get_parent path) parent)
      | inr old ↦
          let h : i ≢ idx = λ x. ground arith in
          subst (λ s. HasDir (fs_get_parent s) created) (sym (created_name i h))
            (created_dir (fs_get_parent (name_at i d)) (tree.parents i p (created-IsUsed i h u)))
    ]

    -- A new entry in a directory that exists, under a name that no entry has.
    pub create-IsTree : IsTree (put_inode idx (named path kind) d)
    unfolding created
    create-IsTree = record { unique = created_unique; parents = created_parents }
