-- ===== src/Fs/Writes.antt =====
-- fs_write of filesys/fs.c: room for the data, the data, and the new size. `uint32_t` sums wrap.
use gannet_os.Base.{
  ℕ, zero, suc, ◌+◌, ◌-◌, ◌/◌, ◌%◌, ◌^◌, min, Bool, true, false, ◌&&◌, List, Option, none, some,
  ltb, ◌==◌, if◌then◌else◌, length, take, drop, get_elem?, get_or, replicate, mem_copy,
}
use gannet_os.Disk.{Disk, read_sector, write_sector}
use gannet_os.Fs.{Fs, Inode, inode_read, inode_write, data_start, bm_alloc, bm_clr_run}
use gannet_os.Fs.Files.{inode_store, set_fd, no_fd}

-- The copy of a file's sectors: whether it succeeded, and the disk.
unfoldable pub copy_sectors : ℕ → ℕ → ℕ → Disk → Bool × Disk
copy_sectors zero from to d = (true, d)
copy_sectors (suc left) from to d = elim (read_sector from d) [
  | none ↦ (false, d)
  | some sb ↦ elim (write_sector to sb d) [
    | none ↦ (false, d)
    | some d' ↦ copy_sectors left ((from + 1) % 2 ^ 32) ((to + 1) % 2 ^ 32) d'
  ]
]

abbrev pub placed : Inode → ℕ → ℕ → Inode
placed inode rel need = record inode { start_block = data_start + rel; block_count = need }

-- The sectors of a file that grows, copied to the run `rel`.
unfoldable pub move_file : Inode → ℕ → ℕ → Fs → Option Inode × Fs
move_file inode need rel fs =
    let (copied, d) = copy_sectors inode.block_count inode.start_block (data_start + rel) fs.disk in
    if copied
    then (
      some (placed inode rel need),
      record fs {
        disk = d;
        alloc_bitmap =
            bm_clr_run inode.block_count ((inode.start_block + 2 ^ 32 - data_start) % 2 ^ 32)
              fs.alloc_bitmap;
      },
    )
    else (none, record fs { disk = d; alloc_bitmap = bm_clr_run need rel fs.alloc_bitmap })

-- The inode with room for `need` sectors.
unfoldable pub grow : Inode → ℕ → Fs → Option Inode × Fs
grow inode need fs =
    let (found, fs') = bm_alloc need fs in
    elim found [
      | none ↦ (none, fs')
      | some rel ↦
          if inode.block_count == 0
          then (some (placed inode rel need), fs')
          else move_file inode need rel fs'
    ]

-- The bytes that a round of fs_write moves from the position `at` of the file on.
abbrev pub round_count : ℕ → ℕ → List ℕ → ℕ
round_count at done buf = min (512 - at % 512) (length buf - done)

-- The buffer that a round fills: a sector that is written whole is not read first.
unfoldable pub before_round : ℕ → ℕ → ℕ → List ℕ → List ℕ → Disk → Option (List ℕ)
before_round lba at done buf sb d =
    if at % 512 == 0 && round_count at done buf == 512 then some sb else read_sector lba d

-- One round of fs_write; `next` goes on with the count, the buffer and the disk.
unfoldable pub write_round :
    (ℕ → List ℕ → Disk → Bool × Disk) → ℕ → ℕ → ℕ → List ℕ → List ℕ → Disk → Bool × Disk
write_round next lba at done buf sb d = elim (before_round lba at done buf sb d) [
  | none ↦ (false, d)
  | some before ↦
      let filled = mem_copy before (at % 512) (take (round_count at done buf) (drop done buf)) in
      elim (write_sector lba filled d) [
        | none ↦ (false, d)
        | some d' ↦ next (done + round_count at done buf) filled d'
      ]
]

-- The loop of fs_write: whether it reached its end, and the disk. A round copies at least one byte.
unfoldable pub write_loop : ℕ → Inode → ℕ → List ℕ → ℕ → List ℕ → Disk → Bool × Disk
write_loop zero inode off buf done sb d = (true, d)
write_loop (suc rounds) inode off buf done sb d = elim (ltb done (length buf)) [
  | false ↦ (true, d)
  | true ↦
      write_round (write_loop rounds inode off buf)
        ((inode.start_block + (off + done) % 2 ^ 32 / 512) % 2 ^ 32) ((off + done) % 2 ^ 32) done
        buf sb d
]

-- The end of fs_write: the offset moves, and the size with it. The last inode_write is not checked.
unfoldable pub finish_write : ℕ → ℕ → Inode → ℕ → ℕ → Fs → Fs
unfolding inode_store
finish_write fd idx inode off len fs =
    let end = (off + len) % 2 ^ 32 in
    let inode' = record inode { size = if ltb inode.size end then end else inode.size } in
    set_fd fd (some idx) end (record fs { disk = inode_store idx inode' fs.disk })

-- The sector buffer before it is filled for the first time.
unfoldable pub sector_buffer : List ℕ
sector_buffer = replicate 512 0

unfoldable pub write_data : ℕ → ℕ → Inode → ℕ → List ℕ → Fs → Option ℕ × Fs
write_data fd idx inode off buf fs =
    let (done, d) = write_loop (length buf) inode off buf 0 sector_buffer fs.disk in
    let fs' = record fs { disk = d } in
    if done
    then (some (length buf), finish_write fd idx inode off (length buf) fs')
    else (none, fs')

abbrev pub sectors_for : ℕ → ℕ → ℕ
sectors_for off len = ((off + len) % 2 ^ 32 + 511) % 2 ^ 32 / 512

-- The inode with its new sectors is written back; a write that fails closes the file.
unfoldable pub save_grown : ℕ → ℕ → Option Inode → Fs → Option Inode × Fs
save_grown fd idx none fs = (none, fs)
save_grown fd idx (some inode) fs = elim (inode_write idx inode fs.disk) [
  | none ↦ (none, set_fd fd none (get_or fs.fds fd no_fd).offset fs)
  | some d ↦ (some inode, record fs { disk = d })
]

unfoldable pub make_room : ℕ → ℕ → Inode → ℕ → Fs → Option Inode × Fs
unfolding save_grown grow
make_room fd idx inode need fs =
    if ltb inode.block_count need
    then save_grown fd idx (grow inode need fs).0 (grow inode need fs).1
    else (some inode, fs)

unfoldable pub write_at : ℕ → ℕ → Inode → ℕ → List ℕ → Fs → Option ℕ × Fs
write_at fd idx inode off buf fs =
    let (room, fs') = make_room fd idx inode (sectors_for off (length buf)) fs in
    elim room [ none ↦ (none, fs') | some inode' ↦ write_data fd idx inode' off buf fs' ]

-- `buf` is the data with its length.
unfoldable pub fs_write : ℕ → List ℕ → Fs → Option ℕ × Fs
fs_write fd buf fs = elim (get_elem? fs.fds fd) [
  | none ↦ (none, fs)
  | some f ↦ elim f.inode_idx [
    | none ↦ (none, fs)
    | some idx ↦ if length buf == 0 then (some 0, fs) else elim (inode_read idx fs.disk) [
      | none ↦ (none, fs)
      | some inode ↦ write_at fd idx inode f.offset buf fs
    ]
  ]
]
