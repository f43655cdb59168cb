-- ===== src/Fs.antt =====
-- The file system, filesys/fs.c and filesys/fs.h: 512 inodes of 144 bytes, three to a sector, and
-- a bitmap of data sectors that is kept in memory. A string is the list of its bytes without the
-- terminator; a name in an inode is an array of 128 bytes.
pub mod Paths
pub mod Names
pub mod Lookup
pub mod Tree
pub mod Bytes
pub mod Layout
pub mod Calls
pub mod Faults
mod Tests
mod Examples
pub mod Blocks
pub mod Inodes
pub mod Files
pub mod Mount
pub mod Writes
pub mod Directories
use gannet_os.Base.{
  ℕ, zero, suc, ◌+◌, ◌-◌, ◌*◌, ◌/◌, ◌%◌, ◌^◌, Bool, true, false, List, [], ◌∷◌, ◌++◌, Option, none,
  some, ltb, leb, ◌==◌, if◌then◌else◌, length, take, drop, get_or, set, replicate, arith, is_some,
  mem_copy,
}
use gannet_os.Net.Bytes.{store32, load32}
use gannet_os.Disk.{Disk, read_sector, write_sector}
use gannet_os.Bitmap

abbrev pub super_sector : ℕ
super_sector = 256

abbrev pub inode_start : ℕ
inode_start = 257

abbrev pub inode_sectors : ℕ
inode_sectors = 171

abbrev pub data_start : ℕ
data_start = 428

abbrev pub max_inodes : ℕ
max_inodes = 512

abbrev pub name_max : ℕ
name_max = 128

abbrev pub max_open : ℕ
max_open = 8

abbrev pub total_sectors : ℕ
total_sectors = 8192

abbrev pub bitmap_words : ℕ
bitmap_words = (total_sectors - data_start + 31) / 32

abbrev pub magic : ℕ
magic = 0x504E4753

-- The values of the field `type`.
abbrev pub type_free : ℕ
type_free = 0

abbrev pub type_file : ℕ
type_file = 1

abbrev pub type_dir : ℕ
type_dir = 2

pub record Inode : Type 0 where
  pub name : List ℕ
  pub size : ℕ
  pub start_block : ℕ
  pub block_count : ℕ
  pub kind : ℕ
  pub pad : List ℕ

-- The packed struct in memory, and the struct that 144 bytes of memory are.
unfoldable pub inode_bytes : Inode → List ℕ
inode_bytes n =
    n.name
    ++ (store32 n.size ++ (store32 n.start_block ++ (store32 n.block_count ++ (n.kind ∷ n.pad))))

unfoldable pub inode_of : List ℕ → Inode
inode_of b = record {
  name = take name_max b;
  size = load32 b 128;
  start_block = load32 b 132;
  block_count = load32 b 136;
  kind = get_or b 140 0;
  pad = take 3 (drop 141 b);
}

-- The inode that mem_zero leaves.
unfoldable pub zero_inode : Inode
zero_inode = record {
  name = replicate name_max 0;
  size = 0;
  start_block = 0;
  block_count = 0;
  kind = type_free;
  pad = replicate 3 0;
}

abbrev pub inode_size : ℕ
inode_size = 144

abbrev pub inodes_per_sector : ℕ
inodes_per_sector = 512 / inode_size

abbrev pub inode_sector : ℕ → ℕ
inode_sector idx = inode_start + idx / inodes_per_sector

abbrev pub inode_offset : ℕ → ℕ
inode_offset idx = idx % inodes_per_sector * inode_size

-- `none` is the result -1.
unfoldable pub inode_read : ℕ → Disk → Option Inode
inode_read idx d = if leb max_inodes idx then none else elim (read_sector (inode_sector idx) d) [
  | none ↦ none
  | some sb ↦ some (inode_of (take inode_size (drop (inode_offset idx) sb)))
]

unfoldable pub inode_write : ℕ → Inode → Disk → Option Disk
inode_write idx inode d =
    if leb max_inodes idx then none else elim (read_sector (inode_sector idx) d) [
      | none ↦ none
      | some sb ↦
          write_sector (inode_sector idx) (mem_copy sb (inode_offset idx) (inode_bytes inode)) d
    ]

-- An open file: `none` is the index -1 of a slot that is not in use.
pub record Fd : Type 0 where
  pub inode_idx : Option ℕ
  pub offset : ℕ

pub record Fs : Type 0 where
  pub disk : Disk
  pub alloc_bitmap : List ℕ
  pub data_sector_count : ℕ
  pub fds : List Fd

-- The loops over sectors `b`, `b + 1`, ... with the number of sectors left.
pub bm_set_run : ℕ → ℕ → List ℕ → List ℕ
bm_set_run zero b ws = ws
bm_set_run (suc left) b ws = bm_set_run left (b + 1) (Bitmap.mark ws b)

pub bm_clr_run : ℕ → ℕ → List ℕ → List ℕ
bm_clr_run zero b ws = ws
bm_clr_run (suc left) b ws = bm_clr_run left (b + 1) (Bitmap.clear ws b)

-- No sector of the run is in use.
pub run_is_free : ℕ → ℕ → List ℕ → Bool
run_is_free zero b ws = true
run_is_free (suc left) b ws =
    let rest = run_is_free left (b + 1) ws in if Bitmap.test ws b then false else rest

-- The search of bm_alloc from sector `i` on, with the number of candidates left.
pub bm_alloc_loop : ℕ → ℕ → ℕ → List ℕ → Option ℕ × List ℕ
bm_alloc_loop zero i count ws = (none, ws)
bm_alloc_loop (suc left) i count ws =
    let rest = bm_alloc_loop left (i + 1) count ws in
    if run_is_free count i ws then (some i, bm_set_run count i ws) else rest

-- `i + count <= data_sector_count` holds for the first `data_sector_count + 1 - count` values.
unfoldable pub bm_alloc : ℕ → Fs → Option ℕ × Fs
bm_alloc count fs =
    let (found, ws) = bm_alloc_loop (fs.data_sector_count + 1 - count) 0 count fs.alloc_bitmap in
    (found, record fs { alloc_bitmap = ws })
