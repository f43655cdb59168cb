-- ===== src/Fs/Calls/Sequences.antt =====
-- Any sequence of calls of the file system, filesys/fs.c, as a step relation.
use gannet_os.Base.{
  ℕ, ◌+◌, ◌≤◌, ◌<◌, ◌≡◌, ◌^◌, ap, ◌∙◌, sym, subst, Bool, inl, inr, List, Option, some, ◌==◌,
  Bool-cases, length, get_elem?, arith,
}
use gannet_os.Disk.{Disk}
use gannet_os.Fs.{Fs, Inode, max_inodes}
use gannet_os.Fs.Inodes.{inode_at}
use gannet_os.Fs.Paths.{text}
use gannet_os.Fs.Lookup.{name_at, HasDir}
use gannet_os.Fs.Files.{fs_delete, fs_open, fs_close, fs_read}
use gannet_os.Fs.Writes.{fs_write}
use gannet_os.Fs.Directories.{fs_mkdir, fs_rmdir, fs_rrmdr}
use gannet_os.Fs.Tree.{IsTree, IsPath}
use gannet_os.Fs.Tree.Changes.{IsWell, fs_mkdir-IsWell, fs_open-IsWell}
use gannet_os.Fs.Layout.{IsLaid}
use gannet_os.Fs.Layout.Contents.{opened}
use gannet_os.Fs.Layout.Refines.{Overwrites, fs_write_lem}
use gannet_os.Fs.Paths.{fs_get_parent}
use gannet_os.Fs.Files.{read_part}
use gannet_os.Fs.Calls.{
  IsConsistent, mkdir-IsLaid, open-IsLaid, delete-IsLaid, delete-IsWell, rmdir-IsLaid,
}
use gannet_os.Fs.Calls.Removals.{rmdir-IsWell, rrmdr-IsWell, rrmdr-IsLaid}

-- A call. New entries have names that fit; a write goes to an open file, at an offset within it.
pub data Call : Fs → Fs → Type 0 where
  mkdir : (path : List ℕ) {fs : Fs} → IsPath path → Call fs (fs_mkdir path fs).1
  rmdir : (path : List ℕ) {fs : Fs} → Call fs (fs_rmdir path fs).1
  rrmdr_call : (path : List ℕ) {fs : Fs} → Call fs (fs_rrmdr path fs).1
  open_call :
      (path : List ℕ) (create : Bool) {fs : Fs} → IsPath path → Call fs (fs_open path create fs).1
  close : (fd : ℕ) {fs : Fs} → Call fs (fs_close fd fs)
  delete : (path : List ℕ) {fs : Fs} → Call fs (fs_delete path fs).1
  read : (fd len : ℕ) {fs : Fs} → Call fs (fs_read fd len fs).2
  write :
      (fd idx off : ℕ) (buf : List ℕ) {fs : Fs}
      → idx < max_inodes
      → get_elem? fs.fds fd ≡ some (opened idx off)
      → 0 < length buf
      → off ≤ (inode_at idx fs.disk).size
      → off + length buf + 511 < 2 ^ 32
      → Call fs (fs_write fd buf fs).1

pub data Calls (fs : Fs) : Fs → Type 0 where
  start : Calls fs fs
  next : {fs1 fs2 : Fs} → Calls fs fs1 → Call fs1 fs2 → Calls fs fs2

-- A tree depends on the names and types alone.
module _ (d d' : Disk) (names : (j : ℕ) → j < max_inodes → name_at j d' ≡ name_at j d)
    (kinds : (j : ℕ) → j < max_inodes → (inode_at j d').kind ≡ (inode_at j d).kind) where
  dir_stays : (path : List ℕ) → HasDir path d → HasDir path d'
  dir_stays path (inl r) = inl r
  dir_stays path (inr (k, below, dir, n)) = inr (k, below, kinds k below ∙ dir, names k below ∙ n)

  same-IsTree : IsTree d → IsTree d'
  same-IsTree t = record {
    unique = λ i j p q u w e.
        t.unique i j p q (λ z. u (kinds i p ∙ z)) (λ z. w (kinds j q ∙ z))
          (sym (names i p) ∙ e ∙ names j q);
    parents = λ i p u.
        subst (λ s. HasDir (fs_get_parent s) d') (sym (names i p))
          (dir_stays (fs_get_parent (name_at i d)) (t.parents i p (λ z. u (kinds i p ∙ z))));
  }

overwrites-IsConsistent :
    {fs : Fs} (fd idx off : ℕ) (buf : List ℕ) (r : Option ℕ × Fs)
    → IsConsistent fs
    → idx < max_inodes
    → Overwrites fs fd idx off buf r
    → IsConsistent r.1
overwrites-IsConsistent {fs} fd idx off buf r c below o = record {
  laid = o.laid;
  well = record {
    sound = o.laid.sound;
    tree = same-IsTree fs.disk r.1.disk (λ j p. ap text (name j p)) kind c.well.tree;
  };
}
  where
    name : (j : ℕ) → j < max_inodes → (inode_at j r.1.disk).name ≡ (inode_at j fs.disk).name
    name j p = elim (Bool-cases (j == idx)) [
      | inl same ↦
          let e : idx ≡ j = ground arith in
          subst (λ k. (inode_at k r.1.disk).name ≡ (inode_at k fs.disk).name) e o.same_name
      | inr other ↦ ap Inode.name (o.other_inodes j p (λ e. ground arith))
    ]

    kind : (j : ℕ) → j < max_inodes → (inode_at j r.1.disk).kind ≡ (inode_at j fs.disk).kind
    kind j p = elim (Bool-cases (j == idx)) [
      | inl same ↦
          let e : idx ≡ j = ground arith in
          subst (λ k. (inode_at k r.1.disk).kind ≡ (inode_at k fs.disk).kind) e o.same_kind
      | inr other ↦ ap Inode.kind (o.other_inodes j p (λ e. ground arith))
    ]

-- A read moves an offset and nothing else.
read_state :
    (fd len : ℕ) (fs : Fs)
    → ((fs_read fd len fs).2.disk ≡ fs.disk)
      × ((fs_read fd len fs).2.alloc_bitmap ≡ fs.alloc_bitmap)
      × ((fs_read fd len fs).2.data_sector_count ≡ fs.data_sector_count)
unfolding fs_read read_part
read_state fd len fs = (ground arith, ground arith, ground arith)

same_state-IsConsistent :
    {fs fs' : Fs}
    → IsConsistent fs
    → (fs'.disk ≡ fs.disk)
      × (fs'.alloc_bitmap ≡ fs.alloc_bitmap)
      × (fs'.data_sector_count ≡ fs.data_sector_count)
    → IsConsistent fs'
same_state-IsConsistent {fs} {fs'} c (d, ws, n) = record {
  well = subst IsWell (sym d) c.well;
  laid = subst (IsLaid fs'.disk fs'.alloc_bitmap) (sym n) (
      subst (λ b. IsLaid fs'.disk b fs.data_sector_count) (sym ws)
        (subst (λ x. IsLaid x fs.alloc_bitmap fs.data_sector_count) (sym d) c.laid));
}

Call-IsConsistent : {fs fs' : Fs} → IsConsistent fs → Call fs fs' → IsConsistent fs'
unfolding fs_close
Call-IsConsistent c (mkdir path v) = record {
  well = fs_mkdir-IsWell _ c.well path v;
  laid = mkdir-IsLaid _ c path v;
}
Call-IsConsistent c (rmdir path) = record {
  well = rmdir-IsWell _ c.well path;
  laid = rmdir-IsLaid _ c.laid path;
}
Call-IsConsistent c (rrmdr_call path) = record {
  well = rrmdr-IsWell _ c.well path;
  laid = rrmdr-IsLaid _ path c.laid;
}
Call-IsConsistent c (open_call path create v) = record {
  well = fs_open-IsWell _ c.well path create v;
  laid = open-IsLaid _ c path create v;
}
Call-IsConsistent c (close fd) = record { well = c.well; laid = c.laid }
Call-IsConsistent c (delete path) = record {
  well = delete-IsWell _ c path;
  laid = delete-IsLaid _ c.laid path;
}
Call-IsConsistent c (read fd len {fs}) = same_state-IsConsistent c (read_state fd len fs)
Call-IsConsistent c (write fd idx off buf {fs} below op some_bytes starts small) =
    elim (fs_write_lem fs c.laid fd idx off below op buf some_bytes starts small) [
      | inl (full, _) ↦ subst (λ r. IsConsistent r.1) (sym full) c
      | inr o ↦ overwrites-IsConsistent fd idx off buf _ c below o
    ]

-- Whatever calls follow one another on a drive without faults, names stay unique, every entry lies
-- in a directory that exists, and every file keeps sectors of its own that the bitmap marks: let
-- the file system be so at first, and let new names fit into an inode, and let each write be of at
-- least one byte, through an open descriptor, start within its file and end, with a sector behind
-- it, below 4 GB, so that no sum of `uint32_t` wraps.
pub Calls-IsConsistent : {fs fs' : Fs} → IsConsistent fs → Calls fs fs' → IsConsistent fs'
Calls-IsConsistent c start = c
Calls-IsConsistent c (next before call) = Call-IsConsistent (Calls-IsConsistent c before) call
