-- ===== src/Fs/Layout/Written.antt =====
-- The data of fs_write of filesys/fs.c, and the new size, in a file that has room for them.
use gannet_os.Base.{
  ℕ, ◌+◌, ◌-◌, ◌*◌, ◌/◌, ◌%◌, ◌^◌, ◌≤◌, ◌<◌, ◌≡◌, ◌≢◌, refl, ap, ◌∙◌, sym, subst, max, Bool, true,
  false, ◌&&◌, ◌⊎◌, inl, inr, List, some, ltb, leb, if◌then◌else◌, Bool-cases, length,
  length-replicate, get_or, arith, mem_copy, length-mem_copy_grow, get_or-mem_copy_grow,
  eq_of_get_or,
}
use gannet_os.Disk.{Disk}
use gannet_os.Fs.{Fs, Inode, max_inodes, data_start}
use gannet_os.Fs.Inodes.{IsInode, inode_at, put_inode, inode_write_lem}
use gannet_os.Fs.Bytes.{byte, data_address, byte-put_inode}
use gannet_os.Fs.Bytes.Loops.{Wrote, write_loop_lem}
use gannet_os.Fs.Files.{inode_store, set_fd}
use gannet_os.Fs.Writes.{sector_buffer, write_loop, write_data, finish_write}
use gannet_os.Fs.Layout.{Owns, IsPlaced, FitsIn, update-IsLaid, updated_self, updated_other}
use gannet_os.Fs.Layout.Contents.{contents, length-contents, get_or-contents}
use gannet_os.Fs.Layout.Ready.{IsLaidOut, Ready}

-- The data is written to an inode with enough sectors.
module _ (fs : Fs) (idx : ℕ) (below : idx < max_inodes) (need : ℕ) (n : Inode) (fs' : Fs)
    (ready : Ready fs idx need n fs') (fd off : ℕ) (buf : List ℕ) (some_bytes : 0 < length buf)
    (fits : off + length buf ≤ need * 512) (starts : off ≤ n.size)
    (small : off + length buf < 2 ^ 32) where
  length-sector_buffer : length sector_buffer ≡ 512
  unfolding sector_buffer
  length-sector_buffer = length-replicate {A = ℕ} 512 0

  -- The inode that is written back at the end.
  abbrev pub ended : Inode
  ended = record n { size = if ltb n.size (off + length buf) then off + length buf else n.size }

  laid' : IsLaidOut fs'
  laid' = ready.laid

  pub is_placed :
      (data_start ≤ n.start_block)
      × (n.start_block + n.block_count ≤ data_start + fs'.data_sector_count)
  is_placed =
      subst (IsPlaced fs'.data_sector_count) ready.stored (laid'.placed idx below)
        (omega (arith, ready.enough))

  abbrev pub loop : Bool × Disk
  loop = write_loop (length buf) n off buf 0 sector_buffer fs'.disk

  pub wrote : Wrote (n.start_block * 512 + off) 0 (length buf) buf fs'.disk loop
  wrote =
      write_loop_lem n off buf small (omega (arith, is_placed.1, laid'.total_le, ready.enough))
        sector_buffer fs'.disk laid'.sound length-sector_buffer

  -- The bytes of the file, and those outside it.
  byte_in_file :
      (k : ℕ)
      → byte loop.1 (n.start_block * 512 + k) ≡ (
          if leb off k && ltb k (off + length buf)
          then get_or buf (k - off) 0
          else byte fs'.disk (n.start_block * 512 + k))
  byte_in_file k =
      wrote.bytes (n.start_block * 512 + k)
      ∙ ground (
        arith,
        ap (λ j. get_or buf j 0)
            (let e : n.start_block * 512 + k - (n.start_block * 512 + off) ≡ k - off =
                omega arith in
              e),
      )

  pub byte_outside : (a : ℕ) → ¬ Owns n (a / 512) → byte loop.1 a ≡ byte fs'.disk a
  byte_outside a h = wrote.bytes a ∙ other (Bool-cases _)
    where
      other :
          ((leb (n.start_block * 512 + off + 0) a && ltb a (n.start_block * 512 + off + length buf))
              ≡ true)
            ⊎ ((leb (n.start_block * 512 + off + 0) a
                  && ltb a (n.start_block * 512 + off + length buf))
                ≡ false)
          → (if leb (n.start_block * 512 + off + 0) a
                && ltb a (n.start_block * 512 + off + length buf)
              then get_or buf (a - (n.start_block * 512 + off)) 0
              else byte fs'.disk a)
            ≡ byte fs'.disk a
      other (inl mid) = absurd (h (ground arith, ground (arith, ready.enough)))
      other (inr out) = rw out refl

  table_same : (a : ℕ) → a < data_address → byte loop.1 a ≡ byte fs'.disk a
  table_same a h = byte_outside a (λ o. absurd (omega (arith, is_placed.0, o.0)))

  pub ended_fits : FitsIn fs'.disk fs'.data_sector_count idx ended fs'.alloc_bitmap
  ended_fits = record {
    is_inode = record {
      name_fits = v.name_fits;
      size_fits = ground (arith, v.size_fits);
      start_fits = v.start_fits;
      count_fits = v.count_fits;
      kind_fits = v.kind_fits;
      pad_fits = v.pad_fits;
    };
    words = laid'.words;
    placed = λ _. is_placed;
    fits = ground (arith, size_le, ready.enough);
    marked = λ s o.
        laid'.marked idx below s (subst (λ (m : Inode). Owns m s) (sym ready.stored) (o.0, o.1));
    others_marked = λ j p h. laid'.marked j p;
    others_apart = λ j p h s o o'.
        laid'.apart j idx s p below h o
          (subst (λ (m : Inode). Owns m s) (sym ready.stored) (o'.0, o'.1));
  }
    where
      v : IsInode n
      v = subst IsInode ready.stored (laid'.inodes idx below)

      size_le : n.size ≤ n.block_count * 512
      size_le =
          subst (λ (m : Inode). m.size ≤ m.block_count * 512) ready.stored (laid'.fits idx below)

  abbrev pub finished : Fs
  finished =
      set_fd fd (some idx) (off + length buf) (record fs' { disk = put_inode idx ended loop.1 })

  pub finished_laid : IsLaidOut finished
  finished_laid = update-IsLaid laid' idx below ended_fits loop.1 wrote.sound table_same

  store_lem : inode_store idx ended loop.1 ≡ put_inode idx ended loop.1
  unfolding inode_store
  store_lem = ground (arith, inode_write_lem wrote.sound idx ended)

  finish_lem : finish_write fd idx n off (length buf) (record fs' { disk = loop.1 }) ≡ finished
  unfolding finish_write
  finish_lem =
      ap finish (let e : (off + length buf) % 2 ^ 32 ≡ off + length buf = omega arith in e)
      ∙ ap (λ (d : Disk). set_fd fd (some idx) (off + length buf) (record fs' { disk = d }))
          store_lem
    where
      finish : ℕ → Fs
      finish end = set_fd fd (some idx) end (record fs' {
        disk = inode_store idx (record n { size = if ltb n.size end then end else n.size }) loop.1;
      })

  pub write_data_lem : write_data fd idx n off buf fs' ≡ (some (length buf), finished)
  unfolding write_data
  write_data_lem = rw wrote.done (λ i. (some (length buf), finish_lem i))

  -- The contents with the data written over them.
  abbrev before' : List ℕ
  before' = contents fs.disk (inode_at idx fs.disk)

  length-before' : length before' ≡ n.size
  length-before' = length-contents fs.disk (inode_at idx fs.disk) ∙ sym ready.same_size

  size_lem : ended.size ≡ max n.size (off + length buf)
  size_lem = ground arith

  pub finished_byte :
      (k : ℕ) → byte finished.disk (n.start_block * 512 + k) ≡ byte loop.1 (n.start_block * 512 + k)
  finished_byte k =
      byte-put_inode wrote.sound idx ended_fits.is_inode below (n.start_block * 512 + k)
        (omega (arith, is_placed.0))

  contents_byte :
      (k : ℕ)
      → k < ended.size
      → get_or (contents finished.disk ended) k 0 ≡ get_or (mem_copy before' off buf) k 0
  contents_byte k p =
      get_or-contents finished.disk ended k p
      ∙ finished_byte k
      ∙ byte_in_file k
      ∙ (elim (Bool-cases (leb off k && ltb k (off + length buf))) [
        | inl mid ↦ ground (arith, get_or-mem_copy_grow before' off buf starts' k)
        | inr out ↦ ground (
          arith,
          get_or-mem_copy_grow before' off buf starts' k,
          ready.file k,
          ready.same_size,
          get_or-contents fs.disk (inode_at idx fs.disk) k,
        )
      ])
    where
      starts' : off ≤ length before'
      starts' = omega (arith, length-before')

  pub contents_lem : contents finished.disk ended ≡ mem_copy before' off buf
  contents_lem =
      eq_of_get_or _ _
        (omega (
          arith,
          length-contents finished.disk ended,
          size_lem,
          length-mem_copy_grow before' off buf (omega (arith, length-before')),
          length-before',
        ))
        (λ k p. contents_byte k (omega (arith, length-contents finished.disk ended)))

  -- The inode of the file, and the other files.
  pub finished_self : inode_at idx finished.disk ≡ ended
  finished_self = updated_self laid' idx below ended_fits loop.1 wrote.sound table_same

  pub finished_other :
      (j : ℕ) → j < max_inodes → j ≢ idx → inode_at j finished.disk ≡ inode_at j fs.disk
  finished_other j p h =
      updated_other laid' idx below ended_fits loop.1 wrote.sound table_same j p h
      ∙ ready.other_inodes j p h

  other_byte :
      (j : ℕ)
      → j < max_inodes
      → j ≢ idx
      → (k : ℕ) → k < (inode_at j fs.disk).size
      → byte finished.disk ((inode_at j fs.disk).start_block * 512 + k)
        ≡ byte fs.disk ((inode_at j fs.disk).start_block * 512 + k)
  other_byte j p h k q =
      byte-put_inode wrote.sound idx ended_fits.is_inode below a far
      ∙ byte_outside a apart
      ∙ ready.other_bytes a far apart
    where
      same : inode_at j fs'.disk ≡ inode_at j fs.disk
      same = ready.other_inodes j p h

      a : ℕ
      a = (inode_at j fs.disk).start_block * 512 + k

      in_sectors : k < (inode_at j fs.disk).block_count * 512
      in_sectors =
          omega (arith, subst (λ (m : Inode). m.size ≤ m.block_count * 512) same (laid'.fits j p))

      far : data_address ≤ a
      far = omega (
        arith,
        (subst (IsPlaced fs'.data_sector_count) same (laid'.placed j p)
            (omega (arith, in_sectors))).0,
      )

      owned : Owns (inode_at j fs.disk) (a / 512)
      owned = (omega arith, omega (arith, in_sectors))

      apart : ¬ Owns n (a / 512)
      apart o =
          laid'.apart j idx (a / 512) p below h
            (subst (λ (m : Inode). Owns m (a / 512)) (sym same) owned)
            (subst (λ (m : Inode). Owns m (a / 512)) (sym ready.stored) o)

  pub contents_other :
      (j : ℕ)
      → j < max_inodes
      → j ≢ idx
      → contents finished.disk (inode_at j finished.disk) ≡ contents fs.disk (inode_at j fs.disk)
  contents_other j p h =
      ap (contents finished.disk) (finished_other j p h)
      ∙ eq_of_get_or _ _
          (length-contents finished.disk (inode_at j fs.disk)
            ∙ sym (length-contents fs.disk (inode_at j fs.disk)))
          (λ k q.
            let q' : k < (inode_at j fs.disk).size =
              omega (arith, length-contents finished.disk (inode_at j fs.disk)) in
            get_or-contents finished.disk (inode_at j fs.disk) k q'
            ∙ other_byte j p h k q'
            ∙ sym (get_or-contents fs.disk (inode_at j fs.disk) k q'))
