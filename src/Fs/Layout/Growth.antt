-- ===== src/Fs/Layout/Growth.antt =====
-- A file that grows, in fs_write of filesys/fs.c: its inode and its bytes.
use gannet_os.Base.{
  ℕ, ◌+◌, ◌-◌, ◌*◌, ◌/◌, ◌%◌, ◌^◌, ◌≤◌, ◌<◌, ◌≡◌, refl, ap, ◌∙◌, Bool, false, ◌&&◌, ◌⊎◌, inl, inr,
  none, some, ltb, leb, ◌==◌, if◌then◌else◌, Bool-cases, arith,
}
use gannet_os.Disk.{Disk, IsSound}
use gannet_os.Fs.{Fs, Inode, max_inodes, data_start, bm_set_run, bm_clr_run, run_is_free}
use gannet_os.Fs.Inodes.{inode_at}
use gannet_os.Fs.Blocks.{bm_alloc-cases, IsFree}
use gannet_os.Fs.Bytes.{byte, data_address}
use gannet_os.Fs.Bytes.Copies.{Copied, copy_sectors_lem}
use gannet_os.Fs.Writes.{grow, move_file, placed, copy_sectors}
use gannet_os.Fs.Layout.Room.{first_FitsIn, moved_FitsIn, runs_apart}
use gannet_os.Fs.Layout.{Owns, IsLaid, FitsIn}

-- What `grow` leaves: nothing changes where no run is free, or the inode has a run that is long
-- enough, with the bytes of the file at its front.
pub record Grown (fs : Fs) (idx need : ℕ) (n : Inode) (fs' : Fs) : Type 0 where
  pub fits_in : FitsIn fs.disk fs.data_sector_count idx n fs'.alloc_bitmap
  pub sound : IsSound fs'.disk
  pub same_total : fs'.data_sector_count ≡ fs.data_sector_count
  pub same_fds : fs'.fds ≡ fs.fds
  pub same_name : n.name ≡ (inode_at idx fs.disk).name
  pub same_kind : n.kind ≡ (inode_at idx fs.disk).kind
  pub same_size : n.size ≡ (inode_at idx fs.disk).size
  pub enough : need ≤ n.block_count
  pub table : (a : ℕ) → a < data_address → byte fs'.disk a ≡ byte fs.disk a
  pub file :
      (k : ℕ)
      → k < (inode_at idx fs.disk).block_count * 512
      → byte fs'.disk (n.start_block * 512 + k)
        ≡ byte fs.disk ((inode_at idx fs.disk).start_block * 512 + k)
  pub others : (a : ℕ) → ¬ Owns n (a / 512) → byte fs'.disk a ≡ byte fs.disk a

module _ (fs : Fs) (laid : IsLaid fs.disk fs.alloc_bitmap fs.data_sector_count) (idx : ℕ)
    (below : idx < max_inodes) (need : ℕ) (more : (inode_at idx fs.disk).block_count < need) where
  abbrev inode : Inode
  inode = inode_at idx fs.disk

  module _ (rel : ℕ) (inside : rel + need ≤ fs.data_sector_count)
      (free : IsFree rel need fs.alloc_bitmap) where
    abbrev taken : Fs
    taken = record fs { alloc_bitmap = bm_set_run need rel fs.alloc_bitmap }

    first_Grown : inode.block_count ≡ 0 → Grown fs idx need (placed inode rel need) taken
    first_Grown e = record {
      fits_in = first_FitsIn laid idx below need rel more inside free;
      sound = laid.sound;
      same_total = refl;
      same_fds = refl;
      same_name = refl;
      same_kind = refl;
      same_size = refl;
      enough = omega arith;
      table = λ a p. refl;
      file = λ k p. absurd (omega arith);
      others = λ a p. refl;
    }

    abbrev copy : Bool × Disk
    copy = copy_sectors inode.block_count inode.start_block (data_start + rel) fs.disk

    abbrev moved : Fs
    moved = record taken {
      disk = copy.1;
      alloc_bitmap =
          bm_clr_run inode.block_count ((inode.start_block + 2 ^ 32 - data_start) % 2 ^ 32)
            taken.alloc_bitmap;
    }

    module _ (some_before : 0 < inode.block_count) where
      copied : Copied inode.block_count inode.start_block (data_start + rel) fs.disk copy
      copied =
          copy_sectors_lem inode.block_count inode.start_block (data_start + rel) fs.disk laid.sound
            (runs_apart laid idx below need rel more inside free some_before)
            (omega (arith, laid.placed idx below some_before, laid.total_le))
            (omega (arith, more, inside, laid.total_le))

      moved-Grown : Grown fs idx need (placed inode rel need) moved
      moved-Grown = record {
        fits_in = moved_FitsIn laid idx below need rel more inside free some_before;
        sound = copied.sound;
        same_total = refl;
        same_fds = refl;
        same_name = refl;
        same_kind = refl;
        same_size = refl;
        enough = omega arith;
        table = λ a p. ground (arith, copied.bytes a);
        file = λ k p.
            copied.bytes ((data_start + rel) * 512 + k)
            ∙ ground (
              arith,
              ap (byte fs.disk) (
                  let e : (data_start + rel) * 512
                        + k
                        - (data_start + rel) * 512
                        + inode.start_block * 512
                      ≡ inode.start_block * 512 + k =
                    omega arith in
                  e),
            );
        others = λ a p. copied.bytes a ∙ outside a p;
      }
        where
          outside :
              (a : ℕ)
              → ¬ Owns (placed inode rel need) (a / 512)
              → (if leb ((data_start + rel) * 512) a
                    && ltb a ((data_start + rel + inode.block_count) * 512)
                  then byte fs.disk (a - (data_start + rel) * 512 + inode.start_block * 512)
                  else byte fs.disk a)
                ≡ byte fs.disk a
          outside a h =
              elim (Bool-cases (
                leb ((data_start + rel) * 512) a
                && ltb a ((data_start + rel + inode.block_count) * 512))) [
                  | inl mid ↦ absurd (h (ground arith, ground arith))
                  | inr out ↦ rw out refl
                ]

      move_file_lem : move_file inode need rel taken ≡ (some (placed inode rel need), moved)
      unfolding move_file
      move_file_lem = rw copied.done refl

  pub grow_lem :
      (grow inode need fs ≡ (none, fs))
        × ((k : ℕ) → k + need ≤ fs.data_sector_count → run_is_free need k fs.alloc_bitmap ≡ false)
      ⊎ ((n : Inode) × (fs' : Fs) × (grow inode need fs ≡ (some n, fs')) × Grown fs idx need n fs')
  unfolding grow
  grow_lem = elim (bm_alloc-cases need fs) [
    | inl (full, none_free) ↦ inl (ground arith, none_free)
    | inr (rel, found, inside, free) ↦ elim (Bool-cases (inode.block_count == 0)) [
      | inl empty ↦ inr (
        placed inode rel need,
        taken rel inside free,
        ground arith,
        first_Grown rel inside free (ground arith),
      )
      | inr some_before ↦ inr (
        placed inode rel need,
        moved rel inside free,
        ground (arith, move_file_lem rel inside free (ground arith)),
        moved-Grown rel inside free (ground arith),
      )
    ]
  ]
