-- ===== src/Fs/Mount.antt =====
-- fs_init of filesys/fs.c: the format of a fresh drive, and the bitmap rebuilt from the inodes.
-- `uint32_t` differences wrap as in C; a bit outside the bitmap is not set.
pub mod Blank
pub mod Format
pub mod Restart
use gannet_os.Base.{
  ℕ, zero, suc, ◌+◌, ◌-◌, ◌*◌, ◌/◌, ◌%◌, ◌^◌, min, Bool, true, false, ◌&&◌, List, [], ◌∷◌, ◌++◌,
  Option, none, some, map, ltb, leb, ◌==◌, if◌then◌else◌, length, take, drop, get_elem?, get_or,
  set, replicate, arith, mem_copy,
}
use gannet_os.Net.Bytes.{store32, load32}
use gannet_os.Disk.{Disk, read_sector, write_sector}
use gannet_os.Fs.{
  Fs, Fd, Inode, type_free, type_file, type_dir, inode_read, inode_write, inode_start,
  inode_sectors, data_start, max_inodes, name_max, max_open, super_sector, total_sectors,
  bitmap_words, magic, zero_inode, bm_alloc, bm_set_run, bm_clr_run,
}
use gannet_os.Fs.Paths.{str_copy, root, fs_find, find_free_inode, parent_exists, text}
use gannet_os.Fs.Files.{inode_store}

-- The super block that is written when the drive is formatted.
unfoldable pub super_bytes : List ℕ
super_bytes =
    store32 magic
    ++ (store32 1
        ++ (store32 max_inodes
            ++ (store32 data_start ++ (store32 (total_sectors - data_start) ++ replicate 492 0))))

unfoldable pub zero_sector : List ℕ
zero_sector = replicate 512 0

-- The loop that clears the inode sectors: the disk, and whether all writes succeeded.
unfoldable pub zero_inodes : ℕ → ℕ → Disk → Bool × Disk
zero_inodes zero lba d = (true, d)
zero_inodes (suc left) lba d = elim (write_sector lba zero_sector d) [
  | none ↦ (false, d)
  | some d' ↦ zero_inodes left (lba + 1) d'
]

unfoldable pub root_inode : Inode
unfolding zero_inode str_copy
root_inode = record zero_inode {
  name = str_copy (replicate name_max 0) root name_max;
  kind = type_dir;
}

-- The rest of the format, when the super block is written.
unfoldable pub format_inodes : Disk → Fs → Bool × Fs
format_inodes d fs =
    let (done, d') = zero_inodes inode_sectors inode_start d in
    if done
    then (
      true,
      record fs {
        disk = inode_store 0 root_inode d';
        data_sector_count = total_sectors - data_start;
        alloc_bitmap = replicate bitmap_words 0;
      },
    )
    else (false, record fs { disk = d' })

unfoldable pub format : Fs → Bool × Fs
format fs = elim (write_sector super_sector super_bytes fs.disk) [
  | none ↦ (false, fs)
  | some d ↦ format_inodes d fs
]

-- The bits of one inode's sectors; the differences are of `uint32_t`.
unfoldable pub mark_inode : Option Inode → List ℕ → List ℕ
mark_inode none ws = ws
mark_inode (some inode) ws =
    if inode.kind == type_free
    then ws
    else if inode.block_count == 0
    then ws
    else bm_set_run inode.block_count ((inode.start_block + 2 ^ 32 - data_start) % 2 ^ 32) ws

unfoldable pub mark_inodes : ℕ → ℕ → Disk → List ℕ → List ℕ
mark_inodes zero i d ws = ws
mark_inodes (suc left) i d ws = mark_inodes left (i + 1) d (mark_inode (inode_read i d) ws)

-- The file table that fs_init leaves: the offsets stay.
unfoldable pub close_all : List Fd → List Fd
close_all fds = map (λ fd. record { inode_idx = none; offset = fd.offset }) fds

unfoldable pub mount : List ℕ → Fs → Fs
mount sb fs = record fs {
  data_sector_count = load32 sb 16;
  alloc_bitmap = mark_inodes max_inodes 0 fs.disk (replicate bitmap_words 0);
}

-- `false` is the result -1.
unfoldable pub fs_init : Fs → Bool × Fs
fs_init start =
    let fs = record start { fds = close_all start.fds } in
    elim (read_sector super_sector fs.disk) [
      | none ↦ (false, fs)
      | some sb ↦ if load32 sb 0 == magic then (true, mount sb fs) else format fs
    ]
