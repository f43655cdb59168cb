-- ===== src/Fs/Mount/Restart.antt =====
-- The bitmap that fs_init of filesys/fs.c rebuilds from the inodes on a formatted drive.
use gannet_os.Base.{
  ℕ, zero, suc, ◌+◌, ◌-◌, ◌%◌, ◌^◌, ◌≤◌, ◌<◌, ◌≡◌, refl, ap, ◌∙◌, sym, subst, Bool, true, false,
  ◌⊎◌, inl, inr, List, some, ◌==◌, if◌then◌else◌, Bool-cases, length, length-replicate, replicate,
  arith,
}
use gannet_os.Disk.{Disk}
use gannet_os.Net.Bytes.{load32}
use gannet_os.Bitmap.{test, test-replicate}
use gannet_os.Fs.{
  Fs, Inode, data_start, max_inodes, super_sector, total_sectors, bitmap_words, magic, type_free,
  bm_set_run,
}
use gannet_os.Fs.Inodes.{inode_at, read_sector_lem}
use gannet_os.Fs.Blocks.{in_run, length-bm_set_run, test-bm_set_run}
use gannet_os.Fs.Lookup.{inode_read_below}
use gannet_os.Fs.Layout.{Owns, IsLaid}
use gannet_os.Fs.Layout.Ready.{IsLaidOut}
use gannet_os.Fs.Mount.{mark_inode, mark_inodes, close_all, mount, fs_init}

-- The bit is that of a sector of the inode, if the inode is in use.
abbrev marks : Inode → ℕ → Bool
marks n j =
    if n.kind == type_free then false else in_run (n.start_block - data_start) n.block_count j

module _ {d : Disk} {ws0 : List ℕ} {total : ℕ} (laid : IsLaid d ws0 total) where
  length-mark_inode : (n : Inode) (ws : List ℕ) → length (mark_inode (some n) ws) ≡ length ws
  unfolding mark_inode
  length-mark_inode n ws =
      ground
        (arith, length-bm_set_run n.block_count ((n.start_block + 2 ^ 32 - data_start) % 2 ^ 32) ws)

  test-mark_inode :
      (i : ℕ) (ws : List ℕ) (j : ℕ)
      → i < max_inodes
      → length ws ≡ bitmap_words
      → test (mark_inode (some (inode_at i d)) ws) j
        ≡ (if marks (inode_at i d) j then true else test ws j)
  unfolding mark_inode
  test-mark_inode i ws j p h = elim (Bool-cases ((inode_at i d).block_count == 0)) [
    | inl empty ↦ ground arith
    | inr some_blocks ↦
        let at = laid.placed i p (ground arith) in
        let first : ((inode_at i d).start_block + 2 ^ 32 - data_start) % 2 ^ 32
            ≡ (inode_at i d).start_block - data_start =
          omega (arith, at.0, at.1, laid.total_le) in
        ground (
          arith,
          ap (λ b. test (bm_set_run (inode_at i d).block_count b ws) j) first,
          test-bm_set_run (inode_at i d).block_count ((inode_at i d).start_block - data_start) ws j
              (omega (arith, at.0, at.1, laid.total_le)),
        )
  ]

  mark_step :
      (left i : ℕ) (ws : List ℕ)
      → i < max_inodes
      → mark_inodes (suc left) i d ws
        ≡ mark_inodes left (i + 1) d (mark_inode (some (inode_at i d)) ws)
  unfolding mark_inodes
  mark_step left i ws p =
      ap (λ o. mark_inodes left (i + 1) d (mark_inode o ws)) (inode_read_below laid.sound i p)

  -- A bit is set at the end if it was, or if an inode in use has its sector.
  record Marked (i : ℕ) (ws ws' : List ℕ) : Type 0 where
    words : length ws' ≡ bitmap_words
    keeps : (j : ℕ) → test ws j ≡ true → test ws' j ≡ true
    adds : (j k : ℕ) → i ≤ k → k < max_inodes → marks (inode_at k d) j ≡ true → test ws' j ≡ true
    only :
        (j : ℕ)
        → test ws' j ≡ true
        → (test ws j ≡ true) ⊎ ((k : ℕ) × (k < max_inodes) × (marks (inode_at k d) j ≡ true))

  Marked-step :
      (i : ℕ) (ws ws' : List ℕ)
      → i < max_inodes
      → length ws ≡ bitmap_words
      → Marked (i + 1) (mark_inode (some (inode_at i d)) ws) ws'
      → Marked i ws ws'
  Marked-step i ws ws' p h m = record {
    words = m.words;
    keeps = λ j t. m.keeps j (ground (arith, test-mark_inode i ws j p h));
    adds = λ j k q r t. elim (Bool-cases (i == k)) [
      | inl same ↦
          let e : k ≡ i = ground arith in
          m.keeps j
            (test-mark_inode i ws j p h ∙ rw (subst (λ x. marks (inode_at x d) j ≡ true) e t) refl)
      | inr other ↦ m.adds j k (ground arith) r t
    ];
    only = λ j t. elim (m.only j t) [
      | inr found ↦ inr found
      | inl set_before ↦ elim (Bool-cases (marks (inode_at i d) j)) [
        | inl here ↦ inr (i, p, here)
        | inr not_here ↦ inl (sym (test-mark_inode i ws j p h ∙ rw not_here refl) ∙ set_before)
      ]
    ];
  }

  mark_inodes-Marked :
      (left i : ℕ) (ws : List ℕ)
      → i + left ≡ max_inodes
      → length ws ≡ bitmap_words
      → Marked i ws (mark_inodes left i d ws)
  unfolding mark_inodes
  mark_inodes-Marked zero i ws e h = record {
    words = h;
    keeps = λ j t. t;
    adds = λ j k p q. absurd (omega arith);
    only = λ j t. inl t;
  }
  mark_inodes-Marked (suc left) i ws e h =
      subst (Marked i ws) (sym (mark_step left i ws (omega arith))) (
        Marked-step i ws _ (omega arith) h (
          mark_inodes-Marked left (i + 1) (mark_inode (some (inode_at i d)) ws) (omega arith)
            (length-mark_inode (inode_at i d) ws ∙ h)))

module _ (start : Fs) (ws0 : List ℕ) (total : ℕ) (laid : IsLaid start.disk ws0 total)
    (unused_empty : (i : ℕ)
      → i < max_inodes
      → (inode_at i start.disk).kind ≡ type_free
      → (inode_at i start.disk).block_count ≡ 0)
    (has_magic : load32 (start.disk.sectors super_sector) 0 ≡ magic)
    (has_total : load32 (start.disk.sectors super_sector) 16 ≡ total) where
  abbrev rebuilt : List ℕ
  rebuilt = mark_inodes max_inodes 0 start.disk (replicate bitmap_words 0)

  marked : Marked laid 0 (replicate bitmap_words 0) rebuilt
  marked =
      mark_inodes-Marked laid max_inodes 0 (replicate bitmap_words 0) (omega arith)
        (length-replicate {A = ℕ} bitmap_words 0)

  owner_marks :
      (i s : ℕ)
      → i < max_inodes
      → Owns (inode_at i start.disk) s
      → marks (inode_at i start.disk) (s - data_start) ≡ true
  owner_marks i s p o =
      let at = laid.placed i p (omega (arith, o.0, o.1)) in
      let used : ((inode_at i start.disk).kind == type_free) ≡ false =
        ground (arith, unused_empty i p) in
      rw used (ground (arith, at.0))

  marks_owner :
      (i j : ℕ)
      → i < max_inodes
      → marks (inode_at i start.disk) j ≡ true
      → Owns (inode_at i start.disk) (j + data_start)
  marks_owner i j p m = elim (Bool-cases ((inode_at i start.disk).kind == type_free)) [
    | inl free ↦ absurd (ground arith)
    | inr used ↦
        let run : in_run ((inode_at i start.disk).start_block - data_start)
              (inode_at i start.disk).block_count j
            ≡ true =
          ground arith in
        let at = laid.placed i p (ground arith) in (ground (arith, at.0), ground (arith, at.0))
  ]

  rebuilt-IsLaid : IsLaid start.disk rebuilt total
  rebuilt-IsLaid = record {
    sound = laid.sound;
    words = marked.words;
    total_le = laid.total_le;
    inodes = laid.inodes;
    placed = laid.placed;
    fits = laid.fits;
    marked = λ i p s o. marked.adds (s - data_start) i (omega arith) p (owner_marks i s p o);
    apart = laid.apart;
  }

  abbrev Restarted : Bool × Fs → Type 0
  Restarted r =
      (r.0 ≡ true)
      × IsLaidOut r.1
      × (r.1.disk ≡ start.disk)
      × ((j : ℕ)
          → j < total_sectors - data_start
          → test r.1.alloc_bitmap j ≡ true
          → (i : ℕ) × (i < max_inodes) × Owns (inode_at i start.disk) (j + data_start))

  abbrev mounted : Fs
  mounted = mount (start.disk.sectors super_sector) (record start { fds = close_all start.fds })

  init_mount : fs_init start ≡ (true, mounted)
  unfolding fs_init
  init_mount = ground (arith, read_sector_lem laid.sound super_sector)

  -- A restart of a drive without faults loses nothing: let every sector be readable and writable and
  -- the files on the drive lie apart, each inode that is not in use
  -- have no sectors, and the super block hold the magic number and the number of data sectors.
  -- Then `fs_init` succeeds and leaves the drive as it is, and the bitmap that it rebuilds marks
  -- every sector of a file and no other.
  pub fs_init_restart : Restarted (fs_init start)
  unfolding mount
  fs_init_restart =
      subst Restarted (sym init_mount)
        (refl, subst (IsLaid start.disk rebuilt) (sym has_total) rebuilt-IsLaid, refl, only)
    where
      only :
          (j : ℕ)
          → j < total_sectors - data_start
          → test rebuilt j ≡ true
          → (i : ℕ) × (i < max_inodes) × Owns (inode_at i start.disk) (j + data_start)
      only j p t = elim (marked.only j t) [
        | inl before ↦ absurd (ground (arith, test-replicate bitmap_words j))
        | inr (k, q, m) ↦ (k, q, marks_owner k j q m)
      ]
