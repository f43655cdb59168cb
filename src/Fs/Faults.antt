-- ===== src/Fs/Faults.antt =====
-- What fs_delete of filesys/fs.c leaves when the drive refuses its last write.
use gannet_os.Base.{
  ℕ, ◌+◌, ◌-◌, ◌*◌, ◌%◌, ◌^◌, ◌≤◌, ◌<◌, ◌≡◌, ◌≢◌, refl, sym, subst, Bool, false, List, none, some,
  length, arith,
}
use gannet_os.Bitmap.{test}
use gannet_os.Fs.{Fs, Inode, inode_read, inode_write, zero_inode, type_dir, data_start, bm_clr_run}
use gannet_os.Fs.Blocks.{test-bm_clr_run}
use gannet_os.Fs.Paths.{fs_find}
use gannet_os.Fs.Files.{fs_delete, release, erase}
use gannet_os.Fs.Layout.{Owns}

-- Let a path name a file with sectors of its own, in the range of the bitmap, and let the drive
-- refuse to write its inode. Then `fs_delete` returns -1 and the drive, with the file on it, is as
-- before, but the bitmap has every sector of the file as free.
pub fs_delete_fault :
    (fs : Fs) (path : List ℕ) (i : ℕ) (n : Inode)
    → fs_find path fs.disk ≡ some i
    → inode_read i fs.disk ≡ some n
    → n.kind ≢ type_dir
    → 0 < n.block_count
    → data_start ≤ n.start_block
    → n.start_block + n.block_count ≤ data_start + length fs.alloc_bitmap * 32
    → n.start_block < 2 ^ 32
    → inode_write i zero_inode fs.disk ≡ none
    → ((fs_delete path fs).0 ≡ false)
      × ((fs_delete path fs).1.disk ≡ fs.disk)
      × ((s : ℕ) → Owns n s → test (fs_delete path fs).1.alloc_bitmap (s - data_start) ≡ false)
unfolding fs_delete erase release
fs_delete_fault fs path i n found loaded file some_blocks low high fits refused =
    subst Left (sym reached) (refl, refl, freed)
  where
    given_back : List ℕ
    given_back =
        bm_clr_run n.block_count ((n.start_block + 2 ^ 32 - data_start) % 2 ^ 32) fs.alloc_bitmap

    Left : Bool × Fs → Type 0
    Left r =
        (r.0 ≡ false)
        × (r.1.disk ≡ fs.disk)
        × ((s : ℕ) → Owns n s → test r.1.alloc_bitmap (s - data_start) ≡ false)

    reached : fs_delete path fs ≡ (false, record fs { alloc_bitmap = given_back })
    reached = ground arith

    first_bit : (n.start_block + 2 ^ 32 - data_start) % 2 ^ 32 ≡ n.start_block - data_start
    first_bit = omega arith

    freed : (s : ℕ) → Owns n s → test given_back (s - data_start) ≡ false
    freed s o = ground (
      arith,
      first_bit,
      test-bm_clr_run n.block_count ((n.start_block + 2 ^ 32 - data_start) % 2 ^ 32) fs.alloc_bitmap
          (s - data_start) (omega (arith, first_bit)),
    )
