-- ===== src/Fs/Files.antt =====
-- The operations on files of filesys/fs.c other than fs_write. A result of -1 is `none`; a negative
-- descriptor is refused like one past the table.
use gannet_os.Base.{
  ℕ, zero, suc, ◌+◌, ◌-◌, ◌/◌, ◌%◌, ◌^◌, min, Bool, true, false, List, [], ◌∷◌, ◌++◌, Option, none,
  some, ltb, leb, ◌==◌, if◌then◌else◌, take, drop, get_elem?, get_or, set, replicate,
}
use gannet_os.Disk.{Disk, read_sector}
use gannet_os.Fs.{
  Fs, Fd, Inode, type_free, type_file, type_dir, inode_read, inode_write, data_start, max_inodes,
  name_max, zero_inode, bm_clr_run,
}
use gannet_os.Fs.Paths.{str_copy, fs_find, find_free_inode, parent_exists, text}

-- `inode_write` where its result is not read.
unfoldable pub inode_store : ℕ → Inode → Disk → Disk
inode_store idx inode d = elim (inode_write idx inode d) [ none ↦ d | some d' ↦ d' ]

-- The first slot that is not in use.
unfoldable pub find_fd : List Fd → ℕ → Option ℕ
find_fd [] i = none
find_fd (fd ∷ fds) i =
    let rest = find_fd fds (i + 1) in elim fd.inode_idx [ none ↦ some i | some idx ↦ rest ]

-- A fresh inode under a name.
unfoldable pub named : List ℕ → ℕ → Inode
named path kind = record zero_inode {
  name = str_copy (replicate name_max 0) path name_max;
  kind = kind;
}

-- Creates the inode of a new entry and returns its index.
unfoldable pub create_inode : List ℕ → ℕ → Disk → Option (ℕ × Disk)
create_inode path kind d =
    if parent_exists path d
    then elim (find_free_inode max_inodes 0 d) [
      | none ↦ none
      | some idx ↦ elim (inode_write idx (named path kind) d) [
        | none ↦ none
        | some d' ↦ some (idx, d')
      ]
    ]
    else none

abbrev pub set_fd : ℕ → Option ℕ → ℕ → Fs → Fs
set_fd fd idx off fs = record fs { fds = set fs.fds fd (record { inode_idx = idx; offset = off }) }

-- The inode that fs_open opens, and the disk.
unfoldable pub open_inode : List ℕ → Bool → Disk → Option (ℕ × Disk)
open_inode path create d = elim (fs_find path d) [
  | none ↦ if create then create_inode path type_file d else none
  | some idx ↦ elim (inode_read idx d) [
    | none ↦ none
    | some inode ↦ if inode.kind == type_dir then none else some (idx, d)
  ]
]

unfoldable pub fs_open : List ℕ → Bool → Fs → Option ℕ × Fs
fs_open path create fs = elim (find_fd fs.fds 0) [
  | none ↦ (none, fs)
  | some fd ↦ elim (open_inode path create fs.disk) [
    | none ↦ (none, fs)
    | some (idx, d) ↦ (some fd, set_fd fd (some idx) 0 (record fs { disk = d }))
  ]
]

abbrev pub no_fd : Fd
no_fd = record { inode_idx = none; offset = 0 }

-- The offset stays.
unfoldable pub fs_close : ℕ → Fs → Fs
fs_close fd fs = set_fd fd none (get_or fs.fds fd no_fd).offset fs

-- The loop of fs_read: the result and the bytes that are in the buffer. A round copies at least
-- one byte, so that `len` rounds are enough.
unfoldable pub fs_read_loop : ℕ → Inode → ℕ → ℕ → ℕ → List ℕ → Disk → Option ℕ × List ℕ
fs_read_loop zero inode off len done out d = (some done, out)
fs_read_loop (suc rounds) inode off len done out d = elim (ltb done len) [
  | false ↦ (some done, out)
  | true ↦ elim (read_sector ((inode.start_block + (off + done) / 512) % 2 ^ 32) d) [
    | none ↦ (none, out)
    | some sb ↦
        fs_read_loop rounds inode off len (done + min (512 - (off + done) % 512) (len - done))
          (out ++ take (min (512 - (off + done) % 512) (len - done)) (drop ((off + done) % 512) sb))
          d
  ]
]

abbrev pub advance : ℕ → ℕ → Fs → Fs
advance fd done fs =
    let f = get_or fs.fds fd no_fd in set_fd fd f.inode_idx ((f.offset + done) % 2 ^ 32) fs

-- What is left of fs_read when the length has been cut to the file.
unfoldable pub read_part : ℕ → Inode → ℕ → ℕ → Fs → Option ℕ × List ℕ × Fs
read_part fd inode off len fs =
    if len == 0
    then (some 0, [], fs)
    else let (r, out) = fs_read_loop len inode off len 0 [] fs.disk in
      elim r [ none ↦ (none, out, fs) | some done ↦ (some done, out, advance fd done fs) ]

unfoldable pub fs_read : ℕ → ℕ → Fs → Option ℕ × List ℕ × Fs
fs_read fd len fs = elim (get_elem? fs.fds fd) [
  | none ↦ (none, [], fs)
  | some f ↦ elim f.inode_idx [
    | none ↦ (none, [], fs)
    | some idx ↦ elim (inode_read idx fs.disk) [
      | none ↦ (none, [], fs)
      | some inode ↦
          if leb inode.size f.offset
          then (some 0, [], fs)
          else read_part fd inode f.offset (min len (inode.size - f.offset)) fs
    ]
  ]
]

-- The data sectors of an inode are given back; the differences are of `uint32_t`.
unfoldable pub release : Inode → Fs → Fs
release inode fs = if inode.block_count == 0 then fs else record fs {
  alloc_bitmap =
      bm_clr_run inode.block_count ((inode.start_block + 2 ^ 32 - data_start) % 2 ^ 32)
        fs.alloc_bitmap;
}

-- `mem_zero` of an inode and the write that ends a removal.
unfoldable pub erase : ℕ → Fs → Bool × Fs
erase idx fs = elim (inode_write idx zero_inode fs.disk) [
  | none ↦ (false, fs)
  | some d ↦ (true, record fs { disk = d })
]

-- `false` is the result -1.
unfoldable pub fs_delete : List ℕ → Fs → Bool × Fs
fs_delete path fs = elim (fs_find path fs.disk) [
  | none ↦ (false, fs)
  | some idx ↦ elim (inode_read idx fs.disk) [
    | none ↦ (false, fs)
    | some inode ↦ if inode.kind == type_dir then (false, fs) else erase idx (release inode fs)
  ]
]

-- The name, the size and the type of an entry; the name is copied as a string.
unfoldable pub fs_stat : ℕ → Disk → Option (List ℕ × ℕ × ℕ)
fs_stat idx d = elim (inode_read idx d) [
  | none ↦ none
  | some inode ↦
      if inode.kind == type_free
      then none
      else some (take (name_max - 1) (text inode.name), inode.size, inode.kind)
]
