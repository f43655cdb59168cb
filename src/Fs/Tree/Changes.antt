-- ===== src/Fs/Tree/Changes.antt =====
-- What the operations of filesys/fs.c that create and remove one entry do to the directory tree.
use gannet_os.Base.{
  ℕ, ◌<◌, ◌≡◌, sym, subst, Bool, true, false, inl, inr, List, some, Bool-cases, Option-cases, arith,
}
use gannet_os.Disk.{Disk, IsSound}
use gannet_os.Fs.{Fs, Inode, inode_write, max_inodes, type_free, type_file, type_dir, zero_inode}
use gannet_os.Fs.Inodes.{inode_at, put_inode, inode_write_lem, put_inode-IsSound}
use gannet_os.Fs.Paths.{fs_get_parent, parent_exists}
use gannet_os.Fs.Lookup.{
  matches, First-cases, find_free_lem, fs_find-cases, fs_isdir-HasDir, inode_read_below,
}
use gannet_os.Fs.Files.{named, create_inode, erase, open_inode, find_fd, fs_open}
use gannet_os.Fs.Directories.{fs_mkdir}
use gannet_os.Fs.Tree.{IsTree, IsPath, create-IsTree, named-IsInode}

-- A drive without faults that holds a directory tree.
pub record IsWell (d : Disk) : Type 0 where
  pub sound : IsSound d
  pub tree : IsTree d

module _ {d : Disk} (w : IsWell d) where
  pub inode_write_below :
      (idx : ℕ) (n : Inode) → idx < max_inodes → inode_write idx n d ≡ some (put_inode idx n d)
  inode_write_below idx n h = ground (arith, inode_write_lem w.sound idx n)

  -- What create_inode leaves where the path is the name of no entry.
  pub create_inode-IsWell :
      (path : List ℕ) (kind : ℕ) (d' : Disk) (idx : ℕ)
      → IsPath path
      → kind < 256
      → ((k : ℕ) → k < max_inodes → matches k path d ≡ false)
      → create_inode path kind d ≡ some (idx, d')
      → (d' ≡ put_inode idx (named path kind) d)
        × (idx < max_inodes)
        × ((inode_at idx d).kind ≡ type_free)
        × IsWell d'
  unfolding create_inode parent_exists
  create_inode-IsWell path kind d' idx v fits new h = elim (Bool-cases (parent_exists path d)) [
    | inr orphan ↦ absurd (ground arith)
    | inl present ↦ elim (First-cases (find_free_lem w.sound)) [
      | inl (full, _) ↦ absurd (ground arith)
      | inr (k, found, below, free) ↦
          let stored = inode_write_below k (named path kind) below in
          let same : k ≡ idx = ground arith in
          let result : put_inode k (named path kind) d ≡ d' = ground arith in
          let free' : (inode_at k d).kind ≡ type_free = ground arith in
          let well : IsWell (put_inode k (named path kind) d) = record {
            sound = put_inode-IsSound w.sound k (named-IsInode path kind fits);
            tree =
                create-IsTree w.sound w.tree k free' path v kind fits new
                  (fs_isdir-HasDir w.sound (fs_get_parent path) present);
          } in
          (
            subst (λ j. d' ≡ put_inode j (named path kind) d) same (sym result),
            subst (λ j. j < max_inodes) same below,
            subst (λ j. (inode_at j d).kind ≡ type_free) same free',
            subst IsWell result well,
          )
    ]
  ]

-- Where an operation leaves the drive in a state that is well, it is.
pub leaves : {d' d : Disk} → d' ≡ d → IsWell d → IsWell d'
leaves e v = subst IsWell (sym e) v

module _ (fs : Fs) (w : IsWell fs.disk) where
  pub erase_lem :
      (idx : ℕ)
      → idx < max_inodes
      → erase idx fs ≡ (true, record fs { disk = put_inode idx zero_inode fs.disk })
  unfolding erase
  erase_lem idx h = ground (arith, inode_write_below w idx zero_inode h)

  pub fs_mkdir-IsWell : (path : List ℕ) → IsPath path → IsWell (fs_mkdir path fs).1.disk
  unfolding fs_mkdir
  fs_mkdir-IsWell path v = elim (fs_find-cases w.sound path) [
    | inr (k, found, _, _) ↦ leaves {d = fs.disk} (ground arith) w
    | inl (missing, new) ↦ elim (Option-cases (create_inode path type_dir fs.disk)) [
      | inl refused ↦ leaves {d = fs.disk} (ground arith) w
      | inr ((idx, d'), made) ↦
          leaves {d = d'} (ground arith)
            (create_inode-IsWell w path type_dir d' idx v (omega arith) new made).3
    ]
  ]

  open_inode-IsWell :
      (path : List ℕ) (create : Bool) (idx : ℕ) (d' : Disk)
      → IsPath path
      → open_inode path create fs.disk ≡ some (idx, d')
      → IsWell d'
  unfolding open_inode
  open_inode-IsWell path create idx d' v h = elim (fs_find-cases w.sound path) [
    | inr (k, found, below, _) ↦
        let same : fs.disk ≡ d' = ground (arith, inode_read_below w.sound k below) in
        subst IsWell same w
    | inl (missing, new) ↦
        (create_inode-IsWell w path type_file d' idx v (omega arith) new (ground arith)).3
  ]

  pub fs_open-IsWell :
      (path : List ℕ) (create : Bool) → IsPath path → IsWell (fs_open path create fs).1.disk
  unfolding fs_open
  fs_open-IsWell path create v = elim (Option-cases (find_fd fs.fds 0)) [
    | inl full ↦ leaves {d = fs.disk} (ground arith) w
    | inr (fd, free) ↦ elim (Option-cases (open_inode path create fs.disk)) [
      | inl refused ↦ leaves {d = fs.disk} (ground arith) w
      | inr ((idx, d'), opened) ↦
          leaves {d = d'} (ground arith) (open_inode-IsWell path create idx d' v opened)
    ]
  ]
