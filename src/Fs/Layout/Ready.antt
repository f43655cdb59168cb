-- ===== src/Fs/Layout/Ready.antt =====
-- Room for the data in fs_write of filesys/fs.c: the inode with its sectors is on the drive before
-- the data is written.
use gannet_os.Base.{
  ℕ, ◌+◌, ◌*◌, ◌/◌, ◌≤◌, ◌<◌, ◌≡◌, ◌≢◌, refl, ◌∙◌, sym, subst, false, ◌⊎◌, inl, inr, none, some,
  ltb, Bool-cases, arith,
}
use gannet_os.Fs.{Fs, Inode, max_inodes, run_is_free}
use gannet_os.Fs.Inodes.{inode_at, put_inode, inode_write_lem}
use gannet_os.Fs.Bytes.{byte, data_address, byte-put_inode}
use gannet_os.Fs.Writes.{save_grown, make_room}
use gannet_os.Fs.Layout.{Owns, IsLaid, update-IsLaid, updated_self, updated_other}
use gannet_os.Fs.Layout.Growth.{Grown, grow_lem}

abbrev pub IsLaidOut : Fs → Type 0
IsLaidOut fs = IsLaid fs.disk fs.alloc_bitmap fs.data_sector_count

-- The inode `idx` has `need` sectors, and the bytes of every file are as before.
pub record Ready (fs : Fs) (idx need : ℕ) (n : Inode) (fs' : Fs) : Type 0 where
  pub laid : IsLaidOut fs'
  pub stored : inode_at idx fs'.disk ≡ n
  pub same_fds : fs'.fds ≡ fs.fds
  pub same_size : n.size ≡ (inode_at idx fs.disk).size
  pub same_name : n.name ≡ (inode_at idx fs.disk).name
  pub same_kind : n.kind ≡ (inode_at idx fs.disk).kind
  pub enough : need ≤ n.block_count
  pub file :
      (k : ℕ)
      → k < n.size
      → byte fs'.disk (n.start_block * 512 + k)
        ≡ byte fs.disk ((inode_at idx fs.disk).start_block * 512 + k)
  pub other_inodes : (j : ℕ) → j < max_inodes → j ≢ idx → inode_at j fs'.disk ≡ inode_at j fs.disk
  pub other_bytes :
      (a : ℕ) → data_address ≤ a → ¬ Owns n (a / 512) → byte fs'.disk a ≡ byte fs.disk a

module _ (fs : Fs) (laid : IsLaidOut fs) (idx : ℕ) (below : idx < max_inodes) (need : ℕ) where
  abbrev before : Inode
  before = inode_at idx fs.disk

  Ready-stay : need ≤ before.block_count → Ready fs idx need before fs
  Ready-stay h = record {
    laid = laid;
    stored = refl;
    same_fds = refl;
    same_size = refl;
    same_name = refl;
    same_kind = refl;
    enough = h;
    file = λ k p. refl;
    other_inodes = λ j p h. refl;
    other_bytes = λ a p h. refl;
  }

  module _ (n : Inode) (fs' : Fs) (g : Grown fs idx need n fs') where
    abbrev saved : Fs
    saved = record fs' { disk = put_inode idx n fs'.disk }

    Ready-grown : 0 < need → Ready fs idx need n saved
    Ready-grown some_need = record {
      laid =
          subst (IsLaid (put_inode idx n fs'.disk) fs'.alloc_bitmap) (sym g.same_total)
            (update-IsLaid laid idx below g.fits_in fs'.disk g.sound g.table);
      stored = updated_self laid idx below g.fits_in fs'.disk g.sound g.table;
      same_fds = g.same_fds;
      same_size = g.same_size;
      same_name = g.same_name;
      same_kind = g.same_kind;
      enough = g.enough;
      file = λ k p.
          byte-put_inode g.sound idx g.fits_in.is_inode below (n.start_block * 512 + k)
            (after_table k)
          ∙ g.file k (omega (arith, laid.fits idx below, g.same_size));
      other_inodes = updated_other laid idx below g.fits_in fs'.disk g.sound g.table;
      other_bytes = λ a p h. byte-put_inode g.sound idx g.fits_in.is_inode below a p ∙ g.others a h;
    }
      where
        after_table : (k : ℕ) → data_address ≤ n.start_block * 512 + k
        after_table k = omega (arith, (g.fits_in.placed (omega (arith, g.enough))).0)

    save_lem : (fd : ℕ) → save_grown fd idx (some n) fs' ≡ (some n, saved)
    unfolding save_grown
    save_lem fd = ground (arith, inode_write_lem g.sound idx n)

  -- Room is made, or the drive has no run of so many sectors.
  pub make_room_lem :
      (fd : ℕ)
      → 0 < need
      → (make_room fd idx before need fs ≡ (none, fs))
          × ((k : ℕ) → k + need ≤ fs.data_sector_count → run_is_free need k fs.alloc_bitmap ≡ false)
        ⊎ ((n : Inode) × (fs' : Fs) × (make_room fd idx before need fs ≡ (some n, fs'))
            × Ready fs idx need n fs')
  unfolding make_room save_grown
  make_room_lem fd some_need = elim (Bool-cases (ltb before.block_count need)) [
    | inr enough ↦ inr (before, fs, rw enough refl, Ready-stay (ground arith))
    | inl more ↦ elim (grow_lem fs laid idx below need (ground arith)) [
      | inl (full, none_free) ↦ inl (rw more (rw full refl), none_free)
      | inr (n, fs', grown, g) ↦ inr (
        n,
        saved n fs' g,
        rw more (rw grown (save_lem n fs' g fd)),
        Ready-grown n fs' g some_need,
      )
    ]
  ]
