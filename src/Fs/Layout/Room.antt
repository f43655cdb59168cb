-- ===== src/Fs/Layout/Room.antt =====
-- Room for a file that is written, in fs_write of filesys/fs.c: a first run of sectors, or a longer
-- one that the file is copied to.
use gannet_os.Base.{
  ℕ, ◌+◌, ◌-◌, ◌*◌, ◌%◌, ◌^◌, ◌≤◌, ◌<◌, ◌≡◌, ◌∙◌, true, false, ◌⊎◌, inl, inr, List, leb,
  if◌then◌else◌, Bool-cases, arith,
}
use gannet_os.Disk.{Disk}
use gannet_os.Bitmap.{test}
use gannet_os.Fs.{Inode, max_inodes, data_start, bm_set_run, bm_clr_run}
use gannet_os.Fs.Inodes.{IsInode, inode_at}
use gannet_os.Fs.Blocks.{
  IsFree, in_run, length-bm_set_run, length-bm_clr_run, test-bm_set_run, test-bm_clr_run,
}
use gannet_os.Fs.Writes.{placed}
use gannet_os.Fs.Layout.{Owns, IsLaid, FitsIn}

-- A run of sectors that the bitmap has free, for a file that had fewer.
module _ {d : Disk} {ws : List ℕ} {total : ℕ} (laid : IsLaid d ws total) (idx : ℕ)
    (below : idx < max_inodes) (need rel : ℕ) (more : (inode_at idx d).block_count < need)
    (inside : rel + need ≤ total) (free : IsFree rel need ws) where
  abbrev old : Inode
  old = inode_at idx d

  abbrev new : Inode
  new = placed old rel need

  abbrev set_bits : List ℕ
  set_bits = bm_set_run need rel ws

  set_test : (j : ℕ) → test set_bits j ≡ (if in_run rel need j then true else test ws j)
  set_test j = test-bm_set_run need rel ws j (omega (arith, laid.words, laid.total_le))

  -- No inode has a sector of the run.
  unowned : (i : ℕ) → i < max_inodes → (s : ℕ) → Owns (inode_at i d) s → ¬ Owns new s
  unowned i p s o o' = cc (laid.marked i p s o, free (s - data_start) (ground arith))

  new-IsInode : IsInode new
  new-IsInode =
      let v = laid.inodes idx below in
      record {
        name_fits = v.name_fits;
        size_fits = v.size_fits;
        start_fits = omega (arith, laid.total_le);
        count_fits = omega (arith, laid.total_le);
        kind_fits = v.kind_fits;
        pad_fits = v.pad_fits;
      }

  new_fits : old.size ≤ need * 512
  new_fits = omega (arith, laid.fits idx below)

  -- The first run of a file.
  pub first_FitsIn : FitsIn d total idx new set_bits
  first_FitsIn = record {
    is_inode = new-IsInode;
    words = length-bm_set_run need rel ws ∙ laid.words;
    placed = λ _. (omega arith, omega arith);
    fits = new_fits;
    marked = λ s o. ground (arith, set_test (s - data_start));
    others_marked = λ j p h s o. ground (arith, set_test (s - data_start), laid.marked j p s);
    others_apart = λ j p h. unowned j p;
  }

  -- The sectors of a file that moves are given back.
  abbrev moved_bits : List ℕ
  moved_bits =
      bm_clr_run old.block_count ((old.start_block + 2 ^ 32 - data_start) % 2 ^ 32) set_bits

  module _ (some_before : 0 < old.block_count) where
    where_old :
        (data_start ≤ old.start_block) × (old.start_block + old.block_count ≤ data_start + total)
    where_old = laid.placed idx below some_before

    first_bit : (old.start_block + 2 ^ 32 - data_start) % 2 ^ 32 ≡ old.start_block - data_start
    first_bit = omega (arith, where_old.0, where_old.1, laid.total_le)

    moved_test :
        (j : ℕ)
        → test moved_bits j ≡ (
            if in_run (old.start_block - data_start) old.block_count j
            then false
            else test set_bits j)
    moved_test j = rw (← first_bit) (
        test-bm_clr_run old.block_count ((old.start_block + 2 ^ 32 - data_start) % 2 ^ 32) set_bits
          j
          (omega (
            arith,
            first_bit,
            where_old.0,
            where_old.1,
            laid.total_le,
            laid.words,
            length-bm_set_run need rel ws,
          )))

    pub moved_FitsIn : FitsIn d total idx new moved_bits
    moved_FitsIn = record {
      is_inode = new-IsInode;
      words =
          length-bm_clr_run old.block_count _ set_bits ∙ length-bm_set_run need rel ws ∙ laid.words;
      placed = λ _. (omega arith, omega arith);
      fits = new_fits;
      marked = λ s o. new_marked s o (unowned idx below s);
      others_marked = λ j p h s o.
          other_marked j s (omega (arith, (laid.placed j p (omega arith)).0)) (laid.marked j p s o)
            (laid.apart j idx s p below h o);
      others_apart = λ j p h. unowned j p;
    }
      where
        new_marked :
            (s : ℕ)
            → Owns new s
            → (Owns old s → ¬ Owns new s)
            → test moved_bits (s - data_start) ≡ true
        new_marked s o h =
            elim (Bool-cases
              (in_run (old.start_block - data_start) old.block_count (s - data_start))) [
                | inl in_old ↦
                    absurd (h (ground (arith, where_old.0), ground (arith, where_old.0)) o)
                | inr out ↦
                    moved_test (s - data_start) ∙ rw out (ground (arith, set_test (s - data_start)))
              ]

        other_marked :
            (j s : ℕ)
            → data_start ≤ s
            → test ws (s - data_start) ≡ true
            → ¬ Owns old s
            → test moved_bits (s - data_start) ≡ true
        other_marked j s low m h =
            elim (Bool-cases
              (in_run (old.start_block - data_start) old.block_count (s - data_start))) [
                | inl in_old ↦ absurd (h (ground (arith, where_old.0), ground (arith, where_old.0)))
                | inr out ↦
                    moved_test (s - data_start) ∙ rw out (ground (arith, set_test (s - data_start)))
              ]

    -- The old run and the new one do not meet.
    pub runs_apart :
        (old.start_block + old.block_count ≤ data_start + rel)
        ⊎ (data_start + rel + old.block_count ≤ old.start_block)
    runs_apart = elim (Bool-cases (leb (old.start_block + old.block_count) (data_start + rel))) [
      | inl p ↦ inl (ground arith)
      | inr p ↦ elim (Bool-cases (leb (data_start + rel + old.block_count) old.start_block)) [
        | inl q ↦ inr (ground arith)
        | inr q ↦ elim (Bool-cases (leb old.start_block (data_start + rel))) [
          | inl r ↦ absurd (
              unowned idx below (data_start + rel) (ground arith, ground arith)
                (omega arith, omega arith))
          | inr r ↦ absurd (
              unowned idx below old.start_block (omega arith, omega arith)
                (ground arith, ground arith))
        ]
      ]
    ]
