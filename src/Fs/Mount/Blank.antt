-- ===== src/Fs/Mount/Blank.antt =====
-- The loop of fs_init of filesys/fs.c that clears the inodes, and the tree of the root alone.
use gannet_os.Base.{
  ℕ, zero, suc, ◌+◌, ◌-◌, ◌<◌, ◌≡◌, ◌≢◌, refl, ap, ◌∙◌, sym, subst, Bool, true, false, ◌&&◌, inl,
  inr, List, ltb, leb, ◌==◌, if◌then◌else◌, Bool-cases, length, length-replicate, arith,
}
use gannet_os.Disk.{Disk, IsSound, put_sector}
use gannet_os.Fs.{
  Inode, data_start, max_inodes, total_sectors, bitmap_words, type_free, type_dir, zero_inode,
}
use gannet_os.Fs.Inodes.{
  IsInode, inode_at, put_inode, put_sector-IsSound, write_sector_lem, put_inode-IsSound,
  inode_at-put_inode_self, inode_at-put_inode_ne,
}
use gannet_os.Fs.Paths.{root}
use gannet_os.Fs.Names.{fs_get_parent_short}
use gannet_os.Fs.Lookup.{matches, matches_iff}
use gannet_os.Fs.Files.{named}
use gannet_os.Fs.Tree.{IsTree, create-IsTree, named-IsInode, zero_inode-IsInode}
use gannet_os.Fs.Tree.Changes.{IsWell}
use gannet_os.Fs.Layout.{IsLaid}
use gannet_os.Fs.Mount.{zero_sector, zero_inodes}

pub record Zeroed (left lba : ℕ) (d : Disk) (r : Bool × Disk) : Type 0 where
  pub done : r.0 ≡ true
  pub sound : IsSound r.1
  pub sectors :
      (l : ℕ)
      → r.1.sectors l ≡ (if leb lba l && ltb l (lba + left) then zero_sector else d.sectors l)

length-zero_sector : length zero_sector ≡ 512
unfolding zero_sector
length-zero_sector = length-replicate {A = ℕ} 512 0

pub sectors-put_sector :
    (d : Disk) (lba : ℕ) (b : List ℕ) (l : ℕ)
    → (put_sector lba b d).sectors l ≡ (if l == lba then b else d.sectors l)
unfolding put_sector
sectors-put_sector d lba b l = refl

zero_step :
    (left lba : ℕ) (d : Disk)
    → IsSound d
    → zero_inodes (suc left) lba d ≡ zero_inodes left (lba + 1) (put_sector lba zero_sector d)
unfolding zero_inodes
zero_step left lba d sound = ground (arith, write_sector_lem sound lba zero_sector)

pub zero_inodes_lem :
    (left lba : ℕ) (d : Disk) → IsSound d → Zeroed left lba d (zero_inodes left lba d)
unfolding zero_inodes
zero_inodes_lem zero lba d sound = record {
  done = refl;
  sound = sound;
  sectors = λ l. ground arith;
}
zero_inodes_lem (suc left) lba d sound =
    let rest =
      zero_inodes_lem left (lba + 1) (put_sector lba zero_sector d)
        (put_sector-IsSound sound lba zero_sector length-zero_sector) in
    subst (Zeroed (suc left) lba d) (sym (zero_step left lba d sound)) (record {
      done = rest.done;
      sound = rest.sound;
      sectors = λ l. rest.sectors l ∙ ground (arith, sectors-put_sector d lba zero_sector l);
    })

-- A drive on which no inode is in use.
abbrev pub IsBlank : Disk → Type 0
IsBlank d = (i : ℕ) → i < max_inodes → inode_at i d ≡ zero_inode

module _ (d : Disk) (sound : IsSound d) (blank : IsBlank d) where
  unused : (i : ℕ) → i < max_inodes → (inode_at i d).kind ≡ type_free
  unfolding zero_inode
  unused i h = ap Inode.kind (blank i h)

  blank_IsTree : IsTree d
  blank_IsTree = record {
    unique = λ i j p q u. absurd (u (unused i p));
    parents = λ i p u. absurd (u (unused i p));
  }

  no_match : (k : ℕ) → k < max_inodes → matches k root d ≡ false
  no_match k p = elim (Bool-cases (matches k root d)) [
    | inl m ↦ absurd (((matches_iff k root d).0 m).0 (unused k p))
    | inr m ↦ m
  ]

  pub root-IsWell : IsWell (put_inode 0 (named root type_dir) d)
  root-IsWell = record {
    sound = put_inode-IsSound sound 0 (named-IsInode root type_dir (omega arith));
    tree =
        create-IsTree sound blank_IsTree 0 (unused 0 (omega arith)) root
          (record { short = omega arith; no_nul = (λ h. absurd (omega arith), tt) }) type_dir
          (omega arith) no_match (inl (fs_get_parent_short root (omega arith)));
  }

  pub root_self : inode_at 0 (put_inode 0 (named root type_dir) d) ≡ named root type_dir
  root_self = inode_at-put_inode_self sound 0 (named-IsInode root type_dir (omega arith))

  pub root_others :
      (j : ℕ)
      → j < max_inodes
      → j ≢ 0
      → inode_at j (put_inode 0 (named root type_dir) d) ≡ zero_inode
  root_others j p h =
      inode_at-put_inode_ne sound 0 (named-IsInode root type_dir (omega arith)) j h ∙ blank j p

  -- An inode with no sectors.
  abbrev IsEmpty : Inode → Type 0
  IsEmpty m = IsInode m × (m.block_count ≡ 0) × (m.size ≡ 0)

  all-IsEmpty :
      (j : ℕ) → j < max_inodes → IsEmpty (inode_at j (put_inode 0 (named root type_dir) d))
  unfolding zero_inode named
  all-IsEmpty j p = elim (Bool-cases (j == 0)) [
    | inl first ↦
        subst (λ k. IsEmpty (inode_at k (put_inode 0 (named root type_dir) d)))
          (let e : 0 ≡ j = ground arith in e)
          (subst IsEmpty (sym root_self) (named-IsInode root type_dir (omega arith), refl, refl))
    | inr other ↦
        subst IsEmpty (sym (root_others j p (λ e. ground arith))) (zero_inode-IsInode, refl, refl)
  ]

  pub root-IsLaid :
      (ws : List ℕ)
      → length ws ≡ bitmap_words
      → IsLaid (put_inode 0 (named root type_dir) d) ws (total_sectors - data_start)
  root-IsLaid ws h = record {
    sound = root-IsWell.sound;
    words = h;
    total_le = omega arith;
    inodes = λ i p. (all-IsEmpty i p).0;
    placed = λ i p q. absurd (omega (arith, (all-IsEmpty i p).1));
    fits = λ i p. omega (arith, (all-IsEmpty i p).1, (all-IsEmpty i p).2);
    marked = λ i p s o. absurd (omega (arith, (all-IsEmpty i p).1, o.0, o.1));
    apart = λ i j s p q h o. absurd (omega (arith, (all-IsEmpty i p).1, o.0, o.1));
  }
