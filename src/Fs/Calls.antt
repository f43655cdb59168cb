-- ===== src/Fs/Calls.antt =====
-- Sequences of calls of the file system, filesys/fs.c: the tree stays a tree, and the files stay
-- apart.
pub mod Removals
pub mod Sequences
use gannet_os.Base.{
  ℕ, zero, suc, ◌+◌, ◌≤◌, ◌<◌, ◌≡◌, ◌≢◌, ◌^◌, refl, ap, ◌∙◌, sym, subst, Bool, true, false, ◌⊎◌,
  inl, inr, List, Option, none, some, leb, ◌==◌, if◌then◌else◌, Bool-cases, Option-cases, length,
  get_elem?, arith,
}
use gannet_os.Disk.{Disk, IsSound}
use gannet_os.Fs.{Fs, Inode, max_inodes, type_file, type_dir, zero_inode}
use gannet_os.Fs.Inodes.{IsInode, inode_at, put_inode}
use gannet_os.Fs.Paths.{text, root, fs_find}
use gannet_os.Fs.Names.{str_eq_iff}
use gannet_os.Fs.Lookup.{
  name_at, matches, matches_iff, fs_find-cases, inode_read_below, IsUsed, IsDir, HasDir,
}
use gannet_os.Fs.Files.{
  named, erase, release, fs_delete, open_inode, find_fd, fs_open, fs_close, fs_read, create_inode,
  set_fd,
}
use gannet_os.Fs.Writes.{fs_write}
use gannet_os.Fs.Directories.{
  fs_mkdir, removable, child_at, has_children, fs_rmdir, remove_loop, rrmdr, fs_rrmdr,
}
use gannet_os.Fs.Tree.{IsTree, IsPath, named-IsInode}
use gannet_os.Fs.Tree.Changes.{IsWell, create_inode-IsWell, fs_mkdir-IsWell, fs_open-IsWell, leaves}
use gannet_os.Fs.Tree.Removal.{fs_delete-Removes, erase-Removes}
use gannet_os.Fs.Tree.Recursive.{fs_rrmdr_lem}
use gannet_os.Fs.Layout.{IsLaid}
use gannet_os.Fs.Layout.Ready.{IsLaidOut}
use gannet_os.Fs.Layout.Contents.{opened, fs_read_lem}
use gannet_os.Fs.Layout.Refines.{Overwrites, fs_write_lem}
use gannet_os.Fs.Layout.Erasure.{put_empty-IsLaid, erase-IsLaid, release-erase-IsLaid}

-- The tree and the layout of the files.
pub record IsConsistent (fs : Fs) : Type 0 where
  pub well : IsWell fs.disk
  pub laid : IsLaidOut fs

named_empty :
    (path : List ℕ) (kind : ℕ) → ((named path kind).block_count ≡ 0) × ((named path kind).size ≡ 0)
unfolding named zero_inode
named_empty path kind = (refl, refl)

pub laid_as : (f' f : Fs) → f' ≡ f → IsLaidOut f → IsLaidOut f'
laid_as f' f e l = subst IsLaidOut (sym e) l

module _ (fs : Fs) (laid : IsLaidOut fs) where
  pub delete-IsLaid : (path : List ℕ) → IsLaidOut (fs_delete path fs).1
  unfolding fs_delete
  delete-IsLaid path = elim (fs_find-cases laid.sound path) [
    | inl (missing, _) ↦ laid_as (fs_delete path fs).1 fs (ground arith) laid
    | inr (k, found, below, _) ↦ elim (Bool-cases ((inode_at k fs.disk).kind == type_dir)) [
      | inl dir ↦
          laid_as (fs_delete path fs).1 fs (ground (arith, inode_read_below laid.sound k below))
            laid
      | inr file ↦
          laid_as (fs_delete path fs).1 (erase k (release (inode_at k fs.disk) fs)).1
            (ground (arith, inode_read_below laid.sound k below))
            (release-erase-IsLaid fs laid k below)
    ]
  ]

  pub rmdir-IsLaid : (path : List ℕ) → IsLaidOut (fs_rmdir path fs).1
  unfolding fs_rmdir
  rmdir-IsLaid path = elim (Option-cases (removable path fs.disk)) [
    | inl refused ↦ laid_as (fs_rmdir path fs).1 fs (ground arith) laid
    | inr (idx, found) ↦ elim (Bool-cases (has_children max_inodes 0 idx path fs.disk)) [
      | inl full ↦ laid_as (fs_rmdir path fs).1 fs (ground arith) laid
      | inr empty ↦
          laid_as (fs_rmdir path fs).1 (erase idx fs).1 (ground arith) (erase-IsLaid fs laid idx)
    ]
  ]

module _ (fs : Fs) (c : IsConsistent fs) where
  -- A new entry has no sectors.
  created-IsLaid :
      (path : List ℕ) (kind : ℕ) (d : Disk) (idx : ℕ)
      → IsPath path
      → kind < 256
      → ((k : ℕ) → k < max_inodes → matches k path fs.disk ≡ false)
      → create_inode path kind fs.disk ≡ some (idx, d)
      → IsLaid d fs.alloc_bitmap fs.data_sector_count
  created-IsLaid path kind d idx v fits new made =
      let (stored, below, _, _) = create_inode-IsWell c.well path kind d idx v fits new made in
      subst (λ d. IsLaid d fs.alloc_bitmap fs.data_sector_count) (sym stored)
        (put_empty-IsLaid fs c.laid idx (named path kind) below (named-IsInode path kind fits)
          (named_empty path kind).0 (named_empty path kind).1)

  pub mkdir-IsLaid : (path : List ℕ) → IsPath path → IsLaidOut (fs_mkdir path fs).1
  unfolding fs_mkdir
  mkdir-IsLaid path v = elim (fs_find-cases c.well.sound path) [
    | inr (k, found, _, _) ↦ laid_as (fs_mkdir path fs).1 fs (ground arith) c.laid
    | inl (missing, new) ↦ elim (Option-cases (create_inode path type_dir fs.disk)) [
      | inl refused ↦ laid_as (fs_mkdir path fs).1 fs (ground arith) c.laid
      | inr ((idx, d), made) ↦
          laid_as (fs_mkdir path fs).1 (record fs { disk = d }) (ground arith)
            (created-IsLaid path type_dir d idx v (omega arith) new made)
    ]
  ]

  open_inode-IsLaid :
      (path : List ℕ) (create : Bool) (idx : ℕ) (d : Disk)
      → IsPath path
      → open_inode path create fs.disk ≡ some (idx, d)
      → IsLaid d fs.alloc_bitmap fs.data_sector_count
  unfolding open_inode
  open_inode-IsLaid path create idx d v h = elim (fs_find-cases c.well.sound path) [
    | inr (k, found, below, _) ↦
        let same : fs.disk ≡ d = ground (arith, inode_read_below c.well.sound k below) in
        subst (λ d. IsLaid d fs.alloc_bitmap fs.data_sector_count) same c.laid
    | inl (missing, new) ↦ created-IsLaid path type_file d idx v (omega arith) new (ground arith)
  ]

  pub open-IsLaid :
      (path : List ℕ) (create : Bool) → IsPath path → IsLaidOut (fs_open path create fs).1
  unfolding fs_open
  open-IsLaid path create v = elim (Option-cases (find_fd fs.fds 0)) [
    | inl full ↦ laid_as (fs_open path create fs).1 fs (ground arith) c.laid
    | inr (fd, free) ↦ elim (Option-cases (open_inode path create fs.disk)) [
      | inl refused ↦ laid_as (fs_open path create fs).1 fs (ground arith) c.laid
      | inr ((idx, d), found) ↦
          laid_as (fs_open path create fs).1 (set_fd fd (some idx) 0 (record fs { disk = d }))
            (ground arith) (open_inode-IsLaid path create idx d v found)
    ]
  ]

  -- Where a path names no file, fs_delete changes nothing.
  pub delete-IsWell : (path : List ℕ) → IsWell (fs_delete path fs).1.disk
  unfolding fs_delete
  delete-IsWell path = elim (fs_find-cases c.well.sound path) [
    | inl (missing, _) ↦ leaves {d = fs.disk} (ground arith) c.well
    | inr (k, found, below, m) ↦ elim (Bool-cases ((inode_at k fs.disk).kind == type_dir)) [
      | inl dir ↦
          leaves {d = fs.disk} (ground (arith, inode_read_below c.well.sound k below)) c.well
      | inr file ↦
          let entry = (matches_iff k path fs.disk).0 m in
          let gone = fs_delete-Removes fs c.well k below entry.0 (λ d. ground arith) in
          subst (λ p. IsWell (fs_delete p fs).1.disk) entry.1 gone.shrinks.well
    ]
  ]
