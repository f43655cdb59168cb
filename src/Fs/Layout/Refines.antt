-- ===== src/Fs/Layout/Refines.antt =====
-- fs_write of filesys/fs.c against an abstract file, which is a list of bytes.
use gannet_os.Base.{
  ℕ, ◌+◌, ◌*◌, ◌^◌, ◌≤◌, ◌<◌, ◌≡◌, ◌≢◌, refl, ap, ◌∙◌, sym, subst, false, ◌⊎◌, inl, inr, List,
  Option, none, some, length, get_elem?, arith, mem_copy, get_elem?-set_self,
}
use gannet_os.Fs.{Fs, Inode, max_inodes, run_is_free}
use gannet_os.Fs.Inodes.{inode_at}
use gannet_os.Fs.Lookup.{inode_read_below}
use gannet_os.Fs.Writes.{make_room, sectors_for, write_data, write_at, fs_write}
use gannet_os.Fs.Layout.Contents.{contents, opened}
use gannet_os.Fs.Layout.Ready.{IsLaidOut, Ready, make_room_lem}
use gannet_os.Fs.Layout.Written.{
  ended, finished, write_data_lem, contents_lem, finished_laid, finished_self, finished_other,
  contents_other,
}

-- What a write that succeeds leaves: the data stands over the old contents of the file, which may
-- grow, and no other file changes.
pub record Overwrites (fs : Fs) (fd idx off : ℕ) (buf : List ℕ) (r : Option ℕ × Fs) : Type 0 where
  pub result : r.0 ≡ some (length buf)
  pub laid : IsLaidOut r.1
  pub file :
      contents r.1.disk (inode_at idx r.1.disk)
      ≡ mem_copy (contents fs.disk (inode_at idx fs.disk)) off buf
  pub same_name : (inode_at idx r.1.disk).name ≡ (inode_at idx fs.disk).name
  pub same_kind : (inode_at idx r.1.disk).kind ≡ (inode_at idx fs.disk).kind
  pub other_inodes : (j : ℕ) → j < max_inodes → j ≢ idx → inode_at j r.1.disk ≡ inode_at j fs.disk
  pub other_files :
      (j : ℕ)
      → j < max_inodes
      → j ≢ idx
      → contents r.1.disk (inode_at j r.1.disk) ≡ contents fs.disk (inode_at j fs.disk)
  pub descriptor : get_elem? r.1.fds fd ≡ some (opened idx (off + length buf))

module _ (fs : Fs) (laid : IsLaidOut fs) (fd idx off : ℕ) (below : idx < max_inodes)
    (open_fd : get_elem? fs.fds fd ≡ some (opened idx off)) (buf : List ℕ)
    (some_bytes : 0 < length buf) (starts : off ≤ (inode_at idx fs.disk).size)
    (small : off + length buf + 511 < 2 ^ 32) where
  write_open : fs_write fd buf fs ≡ write_at fd idx (inode_at idx fs.disk) off buf fs
  unfolding fs_write
  write_open = ground (arith, open_fd, inode_read_below laid.sound idx below)

  abbrev need : ℕ
  need = sectors_for off (length buf)

  write_ready :
      (n : Inode) (fs' : Fs)
      → make_room fd idx (inode_at idx fs.disk) need fs ≡ (some n, fs')
      → fs_write fd buf fs ≡ write_data fd idx n off buf fs'
  unfolding write_at
  write_ready n fs' e = write_open ∙ ground arith

  write_full :
      make_room fd idx (inode_at idx fs.disk) need fs ≡ (none, fs) → fs_write fd buf fs ≡ (none, fs)
  unfolding write_at
  write_full e = write_open ∙ ground arith

  module _ (n : Inode) (fs' : Fs) (ready : Ready fs idx need n fs') where
    starts' : off ≤ n.size
    starts' = omega (arith, ready.same_size)

    fits : off + length buf ≤ need * 512
    fits = omega arith

    small' : off + length buf < 2 ^ 32
    small' = omega arith

    abbrev final : Fs
    final = finished fs idx below need n fs' ready fd off buf some_bytes fits starts' small'

    final_inode :
        inode_at idx final.disk
        ≡ ended fs idx below need n fs' ready fd off buf some_bytes fits starts' small'
    final_inode =
        finished_self fs idx below need n fs' ready fd off buf some_bytes fits starts' small'

    outcome : Overwrites fs fd idx off buf (some (length buf), final)
    outcome = record {
      result = refl;
      laid = finished_laid fs idx below need n fs' ready fd off buf some_bytes fits starts' small';
      file =
          ap (contents final.disk) final_inode
          ∙ contents_lem fs idx below need n fs' ready fd off buf some_bytes fits starts' small';
      same_name = ap Inode.name final_inode ∙ ready.same_name;
      same_kind = ap Inode.kind final_inode ∙ ready.same_kind;
      other_inodes =
          finished_other fs idx below need n fs' ready fd off buf some_bytes fits starts' small';
      other_files =
          contents_other fs idx below need n fs' ready fd off buf some_bytes fits starts' small';
      descriptor =
          get_elem?-set_self fs'.fds fd _ (opened idx off)
            (ap (λ f. get_elem? f fd) ready.same_fds ∙ open_fd);
    }

    written : Overwrites fs fd idx off buf (write_data fd idx n off buf fs')
    written =
        subst (Overwrites fs fd idx off buf)
          (sym (
            write_data_lem fs idx below need n fs' ready fd off buf some_bytes fits starts' small'))
          outcome

  -- On a drive without faults whose files are laid out apart, let a descriptor be open at an offset
  -- within its file, and let the data, with a sector behind it, end below 4 GB, so that no sum of
  -- `uint32_t` wraps. Then `fs_write` of at least one byte either finds no run of free sectors that is long
  -- enough, returns -1 and changes nothing; or it returns the number of bytes, the file's contents
  -- are the old ones with the data over them from the offset on, the offset stands behind the data,
  -- and every other file has the inode and the contents that it had; the files are still apart.
  pub fs_write_lem :
      (fs_write fd buf fs ≡ (none, fs))
        × ((k : ℕ)
            → k + sectors_for off (length buf) ≤ fs.data_sector_count
            → run_is_free (sectors_for off (length buf)) k fs.alloc_bitmap ≡ false)
      ⊎ Overwrites fs fd idx off buf (fs_write fd buf fs)
  fs_write_lem = elim (make_room_lem fs laid idx below need fd (omega arith)) [
    | inl (full, none_free) ↦ inl (write_full full, none_free)
    | inr (n, fs', made, ready) ↦
        inr (
          subst (Overwrites fs fd idx off buf) (sym (write_ready n fs' made)) (written n fs' ready))
  ]
