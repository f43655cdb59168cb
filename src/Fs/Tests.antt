-- ===== src/Fs/Tests.antt =====
-- A drive that is formatted and filled, and the theorems about filesys/fs.c at it.
use gannet_os.Base.{
  ℕ, zero, suc, ◌+◌, ◌-◌, ◌≤◌, ◌<◌, ◌≡◌, ◌≢◌, refl, ap, ◌∙◌, sym, true, false, ◌⊎◌, inl, inr, List,
  [], ◌∷◌, none, some, Bool-cases, length, length-replicate, replicate, get_elem?, slice, arith,
}
use gannet_os.Disk.{Disk, IsSound}
use gannet_os.Net.Bytes.{load32}
use gannet_os.Bitmap.{test}
use gannet_os.Fs.{
  Fs, Inode, max_inodes, magic, super_sector, data_start, type_free, type_file, type_dir,
  zero_inode, run_is_free, inode_read, inode_write, inode_sector, total_sectors, bitmap_words,
}
use gannet_os.Fs.Inodes.{
  inode_at, put_inode, inode_at-put_inode_self, inode_at-put_inode_ne, put_inode-IsSound,
  inode_read-inode_write,
}
use gannet_os.Fs.Paths.{root, slash, text, str_copy, copy_text, fs_get_parent, last_slash}
use gannet_os.Fs.Lookup.{name_at, IsDir, matches, matches_iff}
use gannet_os.Fs.Files.{named, no_fd, fs_read}
use gannet_os.Fs.Writes.{fs_write}
use gannet_os.Fs.Directories.{fs_mkdir, fs_rrmdr}
use gannet_os.Fs.Mount.{fs_init}
use gannet_os.Fs.Mount.Format.{fs_init_lem}
use gannet_os.Fs.Tree.{IsPath, create-IsTree, named-IsInode}
use gannet_os.Fs.Tree.Changes.{IsWell}
use gannet_os.Fs.Layout.Ready.{IsLaidOut}
use gannet_os.Fs.Layout.Erasure.{put_empty-IsLaid}
use gannet_os.Fs.Layout.Contents.{contents, opened, fs_read_lem}
use gannet_os.Fs.Layout.Refines.{Overwrites, fs_write_lem}
use gannet_os.Fs.Calls.{IsConsistent}
use gannet_os.Fs.Calls.Sequences.{Call, Calls, Calls-IsConsistent}

-- A fresh drive of zeros.
abbrev pub zero_drive : Disk
zero_drive = record { sectors = λ l. replicate 512 0; can_read = λ l. true; can_write = λ l. true }

pub zero_drive-IsSound : IsSound zero_drive
zero_drive-IsSound = record {
  readable = λ l. refl;
  writable = λ l. refl;
  whole = λ l. length-replicate {A = ℕ} 512 0;
}

abbrev pub fresh : Fs
fresh = record {
  disk = zero_drive;
  alloc_bitmap = replicate bitmap_words 0;
  data_sector_count = 0;
  fds = no_fd ∷ no_fd ∷ [];
}

pub no_magic : load32 (replicate 512 0) 0 ≢ magic
unfolding load32
no_magic h = absurd (omega arith)

unfoldable pub formatted : Fs
formatted = (fs_init fresh).1

fs_init_lem_example :
    ((fs_init fresh).0 ≡ true)
    × IsWell (fs_init fresh).1.disk
    × IsLaidOut (fs_init fresh).1
    × (name_at 0 (fs_init fresh).1.disk ≡ root)
    × IsDir 0 (fs_init fresh).1.disk
    × ((inode_at 0 (fs_init fresh).1.disk).block_count ≡ 0)
    × ((j : ℕ) → j < max_inodes → j ≢ 0 → inode_at j (fs_init fresh).1.disk ≡ zero_inode)
    × (load32 ((fs_init fresh).1.disk.sectors super_sector) 0 ≡ magic)
    × (load32 ((fs_init fresh).1.disk.sectors super_sector) 16
        ≡ (fs_init fresh).1.data_sector_count)
    × ((fs_init fresh).1.data_sector_count ≡ total_sectors - data_start)
    × ((j : ℕ)
        → j < (fs_init fresh).1.data_sector_count
        → test (fs_init fresh).1.alloc_bitmap j ≡ false)
fs_init_lem_example = fs_init_lem fresh zero_drive-IsSound no_magic

pub formatted_lem :
    IsConsistent formatted
    × (name_at 0 formatted.disk ≡ root)
    × IsDir 0 formatted.disk
    × ((j : ℕ) → j < max_inodes → j ≢ 0 → inode_at j formatted.disk ≡ zero_inode)
unfolding formatted
formatted_lem =
    let f = fs_init_lem fresh zero_drive-IsSound no_magic in
    (record { well = f.1; laid = f.2 }, f.3, f.4, f.6)

-- The names "/a" and "/a/b".
abbrev pub dir_path : List ℕ
dir_path = slash ∷ b'a' ∷ []

abbrev pub file_path : List ℕ
file_path = slash ∷ b'a' ∷ slash ∷ b'b' ∷ []

dir_path-IsPath : IsPath dir_path
dir_path-IsPath = record { short = omega arith; no_nul = omega arith }

file_path-IsPath : IsPath file_path
file_path-IsPath = record { short = omega arith; no_nul = omega arith }

-- Calls that make the directory and the file and remove them again.
Calls-IsConsistent_example :
    IsConsistent (fs_rrmdr dir_path (fs_mkdir file_path (fs_mkdir dir_path formatted).1).1).1
Calls-IsConsistent_example = Calls-IsConsistent formatted_lem.0 (
    Calls.next
      (Calls.next (Calls.next Calls.start (Call.mkdir dir_path dir_path-IsPath))
        (Call.mkdir file_path file_path-IsPath))
      (Call.rrmdr_call dir_path))

inode_read-inode_write_example :
    (d' : Disk) × (inode_write 4 (named dir_path type_dir) zero_drive ≡ some d')
    × (inode_read 4 d' ≡ some (named dir_path type_dir))
    × ((j : ℕ) → j ≢ 4 → inode_read j d' ≡ inode_read j zero_drive)
    × ((l : ℕ) → l ≢ inode_sector 4 → d'.sectors l ≡ zero_drive.sectors l)
inode_read-inode_write_example =
    inode_read-inode_write zero_drive 4 (named dir_path type_dir) zero_drive-IsSound (omega arith)
      (named-IsInode dir_path type_dir (omega arith))

-- The formatted drive with an empty file in inode 1, open at descriptor 0.
unfoldable pub with_file : Fs
with_file = record formatted {
  disk = put_inode 1 (named dir_path type_file) formatted.disk;
  fds = opened 1 0 ∷ [];
}

pub with_file-IsLaidOut : IsLaidOut with_file
unfolding with_file named zero_inode
with_file-IsLaidOut =
    put_empty-IsLaid formatted formatted_lem.0.laid 1 (named dir_path type_file) (omega arith)
      (named-IsInode dir_path type_file (omega arith)) refl refl

with_file_open : get_elem? with_file.fds 0 ≡ some (opened 1 0)
unfolding with_file
with_file_open = refl

abbrev greeting : List ℕ
greeting = b'H' ∷ b'i' ∷ []

fs_write_lem_example :
    (fs_write 0 greeting with_file ≡ (none, with_file))
      × ((k : ℕ)
          → k + 1 ≤ with_file.data_sector_count
          → run_is_free 1 k with_file.alloc_bitmap ≡ false)
    ⊎ Overwrites with_file 0 1 0 greeting (fs_write 0 greeting with_file)
fs_write_lem_example =
    fs_write_lem with_file with_file-IsLaidOut 0 1 0 (omega arith) with_file_open greeting
      (omega arith) (omega arith) (omega arith)

fs_read_lem_example :
    ((fs_read 0 5 with_file).0
      ≡ some (length (slice 0 5 (contents with_file.disk (inode_at 1 with_file.disk)))))
    × ((fs_read 0 5 with_file).1 ≡ slice 0 5 (contents with_file.disk (inode_at 1 with_file.disk)))
    × (get_elem? (fs_read 0 5 with_file).2.fds 0
        ≡ some (
            opened 1
              (0 + length (slice 0 5 (contents with_file.disk (inode_at 1 with_file.disk))))))
    × ((fs_read 0 5 with_file).2.disk ≡ with_file.disk)
    × ((fs_read 0 5 with_file).2.alloc_bitmap ≡ with_file.alloc_bitmap)
fs_read_lem_example =
    fs_read_lem with_file with_file-IsLaidOut 0 1 0 (omega arith) with_file_open 5 (omega arith)

-- The directory "/a" in inode 1 and the file "/a/b" in inode 2.
unfoldable pub with_dir : Disk
with_dir = put_inode 1 (named dir_path type_dir) formatted.disk

unfoldable pub with_tree : Fs
with_tree = record formatted { disk = put_inode 2 (named file_path type_file) with_dir }

zero_unmatched :
    (k : ℕ) (d : Disk) (path : List ℕ) → inode_at k d ≡ zero_inode → matches k path d ≡ false
unfolding zero_inode
zero_unmatched k d path e = elim (Bool-cases (matches k path d)) [
  | inl m ↦ absurd (((matches_iff k path d).0 m).0 (ap Inode.kind e))
  | inr m ↦ m
]

other_unmatched : (k : ℕ) (d : Disk) (path : List ℕ) → name_at k d ≢ path → matches k path d ≡ false
other_unmatched k d path h = elim (Bool-cases (matches k path d)) [
  | inl m ↦ absurd (h ((matches_iff k path d).0 m).1)
  | inr m ↦ m
]

dir_parent : fs_get_parent dir_path ≡ root
unfolding fs_get_parent last_slash
dir_parent = refl

file_parent : fs_get_parent file_path ≡ dir_path
unfolding fs_get_parent last_slash
file_parent = refl

formatted_free : (j : ℕ) → j < max_inodes → j ≢ 0 → (inode_at j formatted.disk).kind ≡ type_free
unfolding zero_inode
formatted_free j p h = ap Inode.kind (formatted_lem.3 j p h)

pub with_dir-IsWell : IsWell with_dir
unfolding with_dir
with_dir-IsWell = record {
  sound =
      put_inode-IsSound formatted_lem.0.well.sound 1
        (named-IsInode dir_path type_dir (omega arith));
  tree =
      create-IsTree formatted_lem.0.well.sound formatted_lem.0.well.tree 1
        (formatted_free 1 (omega arith) (λ h. absurd (omega arith))) dir_path dir_path-IsPath
        type_dir (omega arith) new (inl dir_parent);
}
  where
    new : (k : ℕ) → k < max_inodes → matches k dir_path formatted.disk ≡ false
    new zero p =
        other_unmatched 0 formatted.disk dir_path
          (λ e. absurd (omega (arith, ap (λ (l : List ℕ). length l) (sym formatted_lem.1 ∙ e))))
    new (suc k) p =
        zero_unmatched (suc k) formatted.disk dir_path
          (formatted_lem.3 (suc k) p (λ h. absurd (omega arith)))

pub dir_inode : inode_at 1 with_dir ≡ named dir_path type_dir
unfolding with_dir
dir_inode =
    inode_at-put_inode_self formatted_lem.0.well.sound 1
      (named-IsInode dir_path type_dir (omega arith))

dir_others : (j : ℕ) → j ≢ 1 → inode_at j with_dir ≡ inode_at j formatted.disk
unfolding with_dir
dir_others =
    inode_at-put_inode_ne formatted_lem.0.well.sound 1
      (named-IsInode dir_path type_dir (omega arith))

pub named_text : text (named dir_path type_dir).name ≡ dir_path
unfolding text named str_copy copy_text zero_inode
named_text = refl

pub with_tree-IsWell : IsWell with_tree.disk
unfolding with_tree named zero_inode
with_tree-IsWell = record {
  sound =
      put_inode-IsSound with_dir-IsWell.sound 2 (named-IsInode file_path type_file (omega arith));
  tree =
      create-IsTree with_dir-IsWell.sound with_dir-IsWell.tree 2
        (ap Inode.kind (dir_others 2 (λ h. absurd (omega arith)))
          ∙ formatted_free 2 (omega arith) (λ h. absurd (omega arith)))
        file_path file_path-IsPath type_file (omega arith) new
        (inr (
          1,
          omega arith,
          ap Inode.kind dir_inode,
          ap (λ (m : Inode). text m.name) dir_inode ∙ named_text ∙ sym file_parent,
        ));
}
  where
    long : (l : List ℕ) → l ≡ file_path → length l ≡ 4
    long l e = ap (λ (l : List ℕ). length l) e

    new : (k : ℕ) → k < max_inodes → matches k file_path with_dir ≡ false
    new zero p = other_unmatched 0 with_dir file_path (λ e. absurd (
        omega (
          arith,
          long root (
              sym (
                ap (λ (m : Inode). text m.name) (dir_others 0 (λ h. absurd (omega arith)))
                ∙ formatted_lem.1)
              ∙ e),
        )))
    new (suc zero) p = other_unmatched 1 with_dir file_path (λ e. absurd (
        omega (
          arith,
          long dir_path (sym (ap (λ (m : Inode). text m.name) dir_inode ∙ named_text) ∙ e),
        )))
    new (suc (suc k)) p = zero_unmatched (suc (suc k)) with_dir file_path (
        dir_others (suc (suc k)) (λ h. absurd (omega arith))
        ∙ formatted_lem.3 (suc (suc k)) p (λ h. absurd (omega arith)))
