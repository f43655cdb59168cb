-- ===== src/Fs/Examples.antt =====
-- The theorems about removals, restarts and faults of filesys/fs.c at small drives.
use gannet_os.Base.{
  ℕ, zero, suc, ◌+◌, ◌-◌, ◌*◌, ◌≤◌, ◌<◌, ◌≡◌, ◌≢◌, refl, ap, ◌∙◌, sym, true, false, List, [], ◌∷◌,
  none, some, ◌==◌, if◌then◌else◌, length, replicate, ◌++◌, arith,
}
use gannet_os.Net.Bytes.{load32}
use gannet_os.Bitmap.{test}
use gannet_os.Fs.{
  Fs, Inode, max_inodes, magic, super_sector, data_start, type_free, type_file, type_dir,
  zero_inode, bm_set_run, inode_read, inode_write, total_sectors,
}
use gannet_os.Fs.Inodes.{
  inode_at, put_inode, inode_at-put_inode_self, inode_at-put_inode_ne, sectors-put_inode,
}
use gannet_os.Fs.Paths.{root, text, fs_find}
use gannet_os.Fs.Lookup.{name_at, IsUsed, IsDir}
use gannet_os.Fs.Files.{named, fs_delete}
use gannet_os.Fs.Writes.{placed}
use gannet_os.Fs.Directories.{fs_rrmdr}
use gannet_os.Fs.Mount.{fs_init}
use gannet_os.Fs.Mount.Format.{fs_init_lem}
use gannet_os.Fs.Tree.{named-IsInode}
use gannet_os.Fs.Tree.Changes.{IsWell}
use gannet_os.Fs.Tree.Recursive.{fs_rrmdr_lem}
use gannet_os.Fs.Tree.Emptied.{Within}
use gannet_os.Fs.Layout.{IsLaid}
use gannet_os.Fs.Layout.Ready.{IsLaidOut}
use gannet_os.Disk.{read_sector, write_sector}
use gannet_os.Fs.{inode_of, inode_bytes}
use gannet_os.Fs.Blocks.{IsFree}
use gannet_os.Fs.Faults.{fs_delete_fault}
use gannet_os.Fs.Layout.{Owns, FitsIn, update-IsLaid, updated_self, updated_other}
use gannet_os.Fs.Layout.Room.{first_FitsIn}
use gannet_os.Fs.Mount.Restart.{fs_init_restart}
use gannet_os.Fs.Paths.{str_eq, find_loop}
use gannet_os.Net.Bytes.{store32}
use gannet_os.Fs.Tests.{
  fresh, zero_drive-IsSound, formatted, formatted_lem, dir_path, file_path, with_file,
  with_file-IsLaidOut, with_dir-IsWell, with_tree, with_tree-IsWell, dir_inode, named_text,
  no_magic,
}

tree_dir : inode_at 1 with_tree.disk ≡ named dir_path type_dir
unfolding with_tree
tree_dir =
    inode_at-put_inode_ne with_dir-IsWell.sound 2 (named-IsInode file_path type_file (omega arith))
      1 (λ h. absurd (omega arith))
    ∙ dir_inode

tree-IsDir : IsDir 1 with_tree.disk
unfolding named
tree-IsDir = ap Inode.kind tree_dir

tree_dir_name : name_at 1 with_tree.disk ≢ root
tree_dir_name e =
    let named_so : name_at 1 with_tree.disk ≡ dir_path =
      ap (λ (m : Inode). text m.name) tree_dir ∙ named_text in
    absurd (omega (arith, ap (λ (l : List ℕ). length l) (sym named_so ∙ e)))

fs_rrmdr_lem_example :
    ((fs_rrmdr (name_at 1 with_tree.disk) with_tree).0 ≡ true)
    × IsWell (fs_rrmdr (name_at 1 with_tree.disk) with_tree).1.disk
    × ((j : ℕ)
        → j < max_inodes
        → IsUsed j (fs_rrmdr (name_at 1 with_tree.disk) with_tree).1.disk
        → ¬ Within
            (name_at 1 with_tree.disk)
            (name_at j (fs_rrmdr (name_at 1 with_tree.disk) with_tree).1.disk))
    × ((j : ℕ)
        → j < max_inodes
        → IsUsed j with_tree.disk
        → ¬ Within (name_at 1 with_tree.disk) (name_at j with_tree.disk)
        → inode_at j (fs_rrmdr (name_at 1 with_tree.disk) with_tree).1.disk
          ≡ inode_at j with_tree.disk)
fs_rrmdr_lem_example =
    fs_rrmdr_lem with_tree 1 with_tree-IsWell (omega arith) tree-IsDir tree_dir_name

-- The file with one data sector.
file_total : with_file.data_sector_count ≡ total_sectors - data_start
unfolding with_file formatted
file_total = (fs_init_lem fresh zero_drive-IsSound no_magic).9

file-IsFree : IsFree 0 1 with_file.alloc_bitmap
unfolding with_file formatted
file-IsFree j r = (fs_init_lem fresh zero_drive-IsSound no_magic).10 j (ground (arith, file_total))

file_inode : inode_at 1 with_file.disk ≡ named dir_path type_file
unfolding with_file
file_inode =
    inode_at-put_inode_self formatted_lem.0.well.sound 1
      (named-IsInode dir_path type_file (omega arith))

file_empty : (inode_at 1 with_file.disk).block_count < 1
unfolding named zero_inode
file_empty = omega (arith, ap Inode.block_count file_inode)

abbrev filled : Inode
filled = placed (inode_at 1 with_file.disk) 0 1

-- The drive with that sector in the inode, and the layout with its bit set.
refilled : Fs
refilled = record with_file { disk = put_inode 1 filled with_file.disk }

filled-FitsIn :
    FitsIn with_file.disk with_file.data_sector_count 1 filled
      (bm_set_run 1 0 with_file.alloc_bitmap)
filled-FitsIn =
    first_FitsIn with_file-IsLaidOut 1 (omega arith) 1 0 file_empty (omega (arith, file_total))
      file-IsFree

refilled-IsLaid :
    IsLaid refilled.disk (bm_set_run 1 0 with_file.alloc_bitmap) with_file.data_sector_count
unfolding refilled
refilled-IsLaid =
    update-IsLaid with_file-IsLaidOut 1 (omega arith) filled-FitsIn with_file.disk
      with_file-IsLaidOut.sound (λ a p. refl)

file_others : (j : ℕ) → j ≢ 1 → inode_at j with_file.disk ≡ inode_at j formatted.disk
unfolding with_file
file_others =
    inode_at-put_inode_ne formatted_lem.0.well.sound 1
      (named-IsInode dir_path type_file (omega arith))

refilled_other :
    (j : ℕ) → j < max_inodes → j ≢ 1 → inode_at j refilled.disk ≡ inode_at j formatted.disk
unfolding refilled
refilled_other j p h =
    updated_other with_file-IsLaidOut 1 (omega arith) filled-FitsIn with_file.disk
      with_file-IsLaidOut.sound (λ a p. refl) j p h
    ∙ file_others j h

refilled_self : (inode_at 1 refilled.disk).kind ≡ type_file
unfolding refilled named
refilled_self =
    ap Inode.kind (
      updated_self with_file-IsLaidOut 1 (omega arith) filled-FitsIn with_file.disk
        with_file-IsLaidOut.sound (λ a p. refl))
    ∙ ap Inode.kind file_inode

root_count : (inode_at 0 formatted.disk).block_count ≡ 0
unfolding formatted
root_count = (fs_init_lem fresh zero_drive-IsSound no_magic).5

unused_empty :
    (i : ℕ)
    → i < max_inodes
    → (inode_at i refilled.disk).kind ≡ type_free
    → (inode_at i refilled.disk).block_count ≡ 0
unfolding zero_inode
unused_empty zero p free =
    ap Inode.block_count (refilled_other 0 p (λ h. absurd (omega arith))) ∙ root_count
unused_empty (suc zero) p free = absurd (omega (arith, refilled_self, free))
unused_empty (suc (suc i)) p free = ap Inode.block_count (
    refilled_other (suc (suc i)) p (λ h. absurd (omega arith))
    ∙ formatted_lem.3 (suc (suc i)) p (λ h. absurd (omega arith)))

refilled_super : refilled.disk.sectors super_sector ≡ formatted.disk.sectors super_sector
unfolding refilled with_file
refilled_super =
    sectors-put_inode with_file-IsLaidOut.sound 1 filled-FitsIn.is_inode super_sector
      (λ h. absurd (omega arith))
    ∙ sectors-put_inode formatted_lem.0.well.sound 1
        (named-IsInode dir_path type_file (omega arith)) super_sector (λ h. absurd (omega arith))

refilled_magic : load32 (refilled.disk.sectors super_sector) 0 ≡ magic
unfolding formatted
refilled_magic =
    ap (λ s. load32 s 0) refilled_super ∙ (fs_init_lem fresh zero_drive-IsSound no_magic).7

refilled_total : load32 (refilled.disk.sectors super_sector) 16 ≡ with_file.data_sector_count
unfolding formatted with_file
refilled_total =
    ap (λ s. load32 s 16) refilled_super ∙ (fs_init_lem fresh zero_drive-IsSound no_magic).8

fs_init_restart_example :
    ((fs_init refilled).0 ≡ true)
    × IsLaidOut (fs_init refilled).1
    × ((fs_init refilled).1.disk ≡ refilled.disk)
    × ((j : ℕ)
        → j < total_sectors - data_start
        → test (fs_init refilled).1.alloc_bitmap j ≡ true
        → (i : ℕ) × (i < max_inodes) × Owns (inode_at i refilled.disk) (j + data_start))
fs_init_restart_example =
    fs_init_restart refilled (bm_set_run 1 0 with_file.alloc_bitmap) with_file.data_sector_count
      refilled-IsLaid unused_empty refilled_magic refilled_total

-- A drive that refuses to write the sector of the first three inodes, with a file in inode 0.
abbrev faulty_inode : Inode
faulty_inode = record {
  name = dir_path ++ replicate 126 0;
  size = 5;
  start_block = 430;
  block_count = 2;
  kind = type_file;
  pad = replicate 3 0;
}

faulty : Fs
unfolding inode_bytes
faulty = record {
  disk = record {
    sectors =
        λ l. if l == 257 then inode_bytes faulty_inode ++ replicate 368 0 else replicate 512 0;
    can_read = λ l. true;
    can_write = λ l. if l == 257 then false else true;
  };
  alloc_bitmap = 12 ∷ replicate 242 0;
  data_sector_count = 7764;
  fds = [];
}

faulty_read : inode_read 0 faulty.disk ≡ some faulty_inode
unfolding faulty inode_read read_sector inode_of inode_bytes load32 store32
faulty_read = refl

faulty_found : fs_find dir_path faulty.disk ≡ some 0
unfolding faulty fs_find find_loop inode_read read_sector inode_of inode_bytes load32 store32 str_eq
    text
faulty_found = refl

faulty_refused : inode_write 0 zero_inode faulty.disk ≡ none
unfolding faulty inode_write read_sector write_sector
faulty_refused = refl

faulty_fits : 430 + 2 ≤ data_start + length faulty.alloc_bitmap * 32
unfolding faulty
faulty_fits = omega arith

fs_delete_fault_example :
    ((fs_delete dir_path faulty).0 ≡ false)
    × ((fs_delete dir_path faulty).1.disk ≡ faulty.disk)
    × ((s : ℕ)
        → Owns faulty_inode s
        → test (fs_delete dir_path faulty).1.alloc_bitmap (s - data_start) ≡ false)
fs_delete_fault_example =
    fs_delete_fault faulty dir_path 0 faulty_inode faulty_found faulty_read
      (λ h. absurd (omega arith)) (omega arith) (omega arith) faulty_fits (omega arith)
      faulty_refused
