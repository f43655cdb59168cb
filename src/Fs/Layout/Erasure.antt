-- ===== src/Fs/Layout/Erasure.antt =====
-- Removing an inode in filesys/fs.c leaves the other files where they are.
use gannet_os.Base.{
  ℕ, ◌+◌, ◌-◌, ◌%◌, ◌^◌, ◌≤◌, ◌<◌, ◌≡◌, refl, ◌∙◌, sym, subst, true, false, inl, inr, List, leb,
  ◌==◌, if◌then◌else◌, Bool-cases, arith,
}
use gannet_os.Disk.{IsSound}
use gannet_os.Bitmap.{test}
use gannet_os.Fs.{Fs, Inode, max_inodes, data_start, zero_inode, bm_clr_run}
use gannet_os.Fs.Inodes.{IsInode, inode_at, put_inode, inode_write_lem}
use gannet_os.Fs.Blocks.{in_run, length-bm_clr_run, test-bm_clr_run}
use gannet_os.Fs.Files.{erase, release}
use gannet_os.Fs.Tree.{zero_inode-IsInode}
use gannet_os.Fs.Layout.{Owns, IsLaid, FitsIn, update-IsLaid}
use gannet_os.Fs.Layout.Ready.{IsLaidOut}

module _ (fs : Fs) (laid : IsLaidOut fs) where
  -- An inode without sectors fits in anywhere.
  empty_FitsIn :
      (idx : ℕ) (n : Inode)
      → IsInode n
      → n.block_count ≡ 0
      → n.size ≡ 0
      → FitsIn fs.disk fs.data_sector_count idx n fs.alloc_bitmap
  empty_FitsIn idx n v e z = record {
    is_inode = v;
    words = laid.words;
    placed = λ p. absurd (omega arith);
    fits = omega arith;
    marked = λ s o. absurd (omega (arith, o.0, o.1));
    others_marked = λ j p h. laid.marked j p;
    others_apart = λ j p h s o o'. absurd (omega (arith, o'.0, o'.1));
  }

  pub put_empty-IsLaid :
      (idx : ℕ) (n : Inode)
      → idx < max_inodes
      → IsInode n
      → n.block_count ≡ 0
      → n.size ≡ 0
      → IsLaid (put_inode idx n fs.disk) fs.alloc_bitmap fs.data_sector_count
  put_empty-IsLaid idx n below v e z =
      update-IsLaid laid idx below (empty_FitsIn idx n v e z) fs.disk laid.sound (λ a p. refl)

-- The state that `erase` leaves.
erase_state :
    (fs : Fs) (idx : ℕ)
    → IsSound fs.disk
    → (erase idx fs).1
      ≡ (if leb max_inodes idx then fs else record fs { disk = put_inode idx zero_inode fs.disk })
unfolding erase
erase_state fs idx sound = ground (arith, inode_write_lem sound idx zero_inode)

zero_empty : (zero_inode.block_count ≡ 0) × (zero_inode.size ≡ 0)
unfolding zero_inode
zero_empty = (refl, refl)

module _ (fs : Fs) (laid : IsLaidOut fs) where
  pub erase-IsLaid : (idx : ℕ) → IsLaidOut (erase idx fs).1
  erase-IsLaid idx =
      subst IsLaidOut (sym (erase_state fs idx laid.sound))
        (elim (Bool-cases (leb max_inodes idx)) [
          | inl out ↦ rw out laid
          | inr below ↦ rw below (
              put_empty-IsLaid fs laid idx zero_inode (ground arith) zero_inode-IsInode zero_empty.0
                zero_empty.1)
        ])

  module _ (idx : ℕ) (below : idx < max_inodes)
      (some_before : 0 < (inode_at idx fs.disk).block_count) where
    abbrev old : Inode
    old = inode_at idx fs.disk

    abbrev given_back : List ℕ
    given_back =
        bm_clr_run old.block_count ((old.start_block + 2 ^ 32 - data_start) % 2 ^ 32)
          fs.alloc_bitmap

    where_old :
        (data_start ≤ old.start_block)
        × (old.start_block + old.block_count ≤ data_start + fs.data_sector_count)
    where_old = laid.placed idx below some_before

    first_bit : (old.start_block + 2 ^ 32 - data_start) % 2 ^ 32 ≡ old.start_block - data_start
    first_bit = omega (arith, where_old.0, where_old.1, laid.total_le)

    still_marked :
        (s : ℕ)
        → data_start ≤ s
        → test fs.alloc_bitmap (s - data_start) ≡ true
        → ¬ Owns old s
        → test given_back (s - data_start) ≡ true
    still_marked s low m h =
        test-bm_clr_run old.block_count ((old.start_block + 2 ^ 32 - data_start) % 2 ^ 32)
          fs.alloc_bitmap (s - data_start)
          (omega (arith, first_bit, where_old.0, where_old.1, laid.total_le, laid.words))
        ∙ rw outside m
      where
        outside :
            in_run
              ((old.start_block + 2 ^ 32 - data_start) % 2 ^ 32)
              old.block_count
              (s - data_start)
            ≡ false
        outside =
            elim (Bool-cases (
              in_run ((old.start_block + 2 ^ 32 - data_start) % 2 ^ 32) old.block_count
                (s - data_start))) [
                  | inl in_old ↦ absurd (
                      h (
                        ground (arith, first_bit, where_old.0),
                        ground (arith, first_bit, where_old.0),
                      ))
                  | inr out ↦ out
                ]

    released_FitsIn : FitsIn fs.disk fs.data_sector_count idx zero_inode given_back
    unfolding zero_inode
    released_FitsIn = record {
      is_inode = zero_inode-IsInode;
      words = length-bm_clr_run old.block_count _ fs.alloc_bitmap ∙ laid.words;
      placed = λ p. absurd (omega arith);
      fits = omega arith;
      marked = λ s o. absurd (omega (arith, o.0, o.1));
      others_marked = λ j p h s o.
          still_marked s (omega (arith, (laid.placed j p (omega (arith, o.0, o.1))).0, o.0))
            (laid.marked j p s o) (laid.apart j idx s p below h o);
      others_apart = λ j p h s o o'. absurd (omega (arith, o'.0, o'.1));
    }

    released_IsLaid : IsLaid (put_inode idx zero_inode fs.disk) given_back fs.data_sector_count
    released_IsLaid = update-IsLaid laid idx below released_FitsIn fs.disk laid.sound (λ a p. refl)

  -- The sectors of a file are given back, and its inode is cleared.
  pub release-erase-IsLaid :
      (idx : ℕ) → idx < max_inodes → IsLaidOut (erase idx (release (inode_at idx fs.disk) fs)).1
  unfolding release
  release-erase-IsLaid idx below = elim (Bool-cases ((inode_at idx fs.disk).block_count == 0)) [
    | inl empty ↦ rw empty (erase-IsLaid idx)
    | inr some_before ↦ rw some_before (
        subst IsLaidOut
          (sym (
            erase_state (record fs { alloc_bitmap = given_back idx below (ground arith) }) idx
              laid.sound))
          (rw (let b : leb max_inodes idx ≡ false = ground arith in b)
            (released_IsLaid idx below (ground arith))))
  ]
