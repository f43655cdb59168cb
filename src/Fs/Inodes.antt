-- ===== src/Fs/Inodes.antt =====
-- The inode table on the drive, filesys/fs.c: what inode_write stores is what inode_read loads, and
-- no other inode and no data sector changes.
use gannet_os.Base.{
  ℕ, zero, suc, ◌+◌, ◌*◌, ◌%◌, ◌^◌, ◌≤◌, ◌<◌, ◌≡◌, ◌≢◌, refl, ap, ◌∙◌, sym, inl, inr, List, ◌∷◌,
  ◌++◌, none, some, ltb, leb, ◌==◌, ==_iff, if◌then◌else◌, Bool-cases, length, get_or, take, drop,
  replicate, length-take, arith, length-append, get_or-drop, mem_copy, length-mem_copy, slice,
  take-prefix, drop-prefix, drop-drop, take_all, slice-mem_copy_self, slice-mem_copy_apart, if_both,
  ==_of_ne, ==_refl,
}
use gannet_os.Net.Bytes.{store32, load32}
use gannet_os.Disk.{Disk, IsSound, read_sector, write_sector, put_sector}
use gannet_os.Fs.{
  Inode, inode_bytes, inode_of, inode_read, inode_write, inode_sector, inode_offset, inode_size,
  max_inodes, name_max, zero_inode,
}

-- The field values that fit the packed struct.
pub record IsInode (n : Inode) : Type 0 where
  pub name_fits : length n.name ≡ name_max
  pub size_fits : n.size < 2 ^ 32
  pub start_fits : n.start_block < 2 ^ 32
  pub count_fits : n.block_count < 2 ^ 32
  pub kind_fits : n.kind < 256
  pub pad_fits : length n.pad ≡ 3

-- What stands behind the name in the struct.
abbrev fields_bytes : Inode → List ℕ
fields_bytes n =
    store32 n.size ++ (store32 n.start_block ++ (store32 n.block_count ++ (n.kind ∷ n.pad)))

pub length-inode_bytes : {n : Inode} → IsInode n → length (inode_bytes n) ≡ inode_size
unfolding inode_bytes store32
length-inode_bytes {n} v = omega (arith, length-append n.name (fields_bytes n))

module _ {n : Inode} (v : IsInode n) where
  behind_name : drop 128 (inode_bytes n) ≡ fields_bytes n
  unfolding inode_bytes
  behind_name =
      ap (λ k. drop k (n.name ++ fields_bytes n)) (sym v.name_fits)
      ∙ drop-prefix n.name (fields_bytes n)

  field_byte : (k : ℕ) → get_or (inode_bytes n) (128 + k) 0 ≡ get_or (fields_bytes n) k 0
  field_byte k = sym (get_or-drop 128 (inode_bytes n) k) ∙ ap (λ b. get_or b k 0) behind_name

  name_back : take 128 (inode_bytes n) ≡ n.name
  unfolding inode_bytes
  name_back =
      ap (λ k. take k (n.name ++ fields_bytes n)) (sym v.name_fits)
      ∙ take-prefix n.name (fields_bytes n)

  pad_back : take 3 (drop 141 (inode_bytes n)) ≡ n.pad
  unfolding store32
  pad_back =
      ap (take 3) (sym (drop-drop 13 128 (inode_bytes n)) ∙ ap (drop 13) behind_name)
      ∙ take_all 3 n.pad (omega (arith, v.pad_fits))

  size_back : load32 (inode_bytes n) 128 ≡ n.size
  unfolding load32 store32
  size_back = omega (arith, field_byte 0, field_byte 1, field_byte 2, field_byte 3, v.size_fits)

  start_back : load32 (inode_bytes n) 132 ≡ n.start_block
  unfolding load32 store32
  start_back = omega (arith, field_byte 4, field_byte 5, field_byte 6, field_byte 7, v.start_fits)

  count_back : load32 (inode_bytes n) 136 ≡ n.block_count
  unfolding load32 store32
  count_back = omega (arith, field_byte 8, field_byte 9, field_byte 10, field_byte 11, v.count_fits)

  kind_back : get_or (inode_bytes n) 140 0 ≡ n.kind
  unfolding store32
  kind_back = field_byte 12

  -- The struct that its bytes are.
  pub inode_of-inode_bytes : inode_of (inode_bytes n) ≡ n
  unfolding inode_of
  inode_of-inode_bytes = rw (name_back, size_back, start_back, count_back, kind_back, pad_back)

-- The inode `idx` of a drive, and the drive with it stored.
pub inode_at : ℕ → Disk → Inode
inode_at idx d = inode_of (slice (inode_offset idx) inode_size (d.sectors (inode_sector idx)))

pub length-name : (idx : ℕ) (d : Disk) → length (inode_at idx d).name ≤ name_max
unfolding inode_at inode_of
length-name idx d =
    omega
      (arith, length-take 128 (slice (inode_offset idx) inode_size (d.sectors (inode_sector idx))))

-- An inode is what its sector holds.
pub inode_at-sectors :
    (idx : ℕ) (d d' : Disk)
    → d'.sectors (inode_sector idx) ≡ d.sectors (inode_sector idx)
    → inode_at idx d' ≡ inode_at idx d
unfolding inode_at
inode_at-sectors idx d d' e = ap (λ s. inode_of (slice (inode_offset idx) inode_size s)) e

-- In a sector of zeros every inode is as mem_zero leaves it.
pub inode_at-zeros :
    (idx : ℕ) (d : Disk)
    → d.sectors (inode_sector idx) ≡ replicate 512 0
    → inode_at idx d ≡ zero_inode
unfolding inode_at inode_of zero_inode load32
inode_at-zeros idx d e =
    ap (λ s. inode_of (slice (inode_offset idx) inode_size s)) e ∙ third (idx % 3) (omega arith)
  where
    third :
        (r : ℕ)
        → r < 3
        → inode_of (slice (r * inode_size) inode_size (replicate 512 0)) ≡ zero_inode
    third zero h = refl
    third (suc zero) h = refl
    third (suc (suc zero)) h = refl
    third (suc (suc (suc r))) h = absurd (omega arith)

pub put_inode : ℕ → Inode → Disk → Disk
put_inode idx n d =
    put_sector (inode_sector idx)
      (mem_copy (d.sectors (inode_sector idx)) (inode_offset idx) (inode_bytes n)) d

module _ {d : Disk} (sound : IsSound d) where
  pub read_sector_lem : (lba : ℕ) → read_sector lba d ≡ some (d.sectors lba)
  unfolding read_sector
  read_sector_lem lba = rw (sound.readable lba)

  pub write_sector_lem : (lba : ℕ) (b : List ℕ) → write_sector lba b d ≡ some (put_sector lba b d)
  unfolding write_sector
  write_sector_lem lba b = rw (sound.writable lba)

  pub put_sector-IsSound : (lba : ℕ) (b : List ℕ) → length b ≡ 512 → IsSound (put_sector lba b d)
  unfolding put_sector
  put_sector-IsSound lba b h = record {
    readable = sound.readable;
    writable = sound.writable;
    whole = λ l.
        if_both (λ (s : List ℕ). length s ≡ 512) (l == lba) {x = b} {y = d.sectors l} h
          (sound.whole l);
  }

  pub inode_read_lem :
      (idx : ℕ) → inode_read idx d ≡ (if leb max_inodes idx then none else some (inode_at idx d))
  unfolding inode_read inode_at
  inode_read_lem idx = rw (read_sector_lem (inode_sector idx)) refl

  pub inode_write_lem :
      (idx : ℕ) (n : Inode)
      → inode_write idx n d ≡ (if leb max_inodes idx then none else some (put_inode idx n d))
  unfolding inode_write put_inode
  inode_write_lem idx n = rw (read_sector_lem (inode_sector idx)) (
      ap (λ o. if leb max_inodes idx then none else o)
        (write_sector_lem (inode_sector idx)
          (mem_copy (d.sectors (inode_sector idx)) (inode_offset idx) (inode_bytes n))))

  module _ (idx : ℕ) {n : Inode} (v : IsInode n) where
    room_for : inode_offset idx + length (inode_bytes n) ≤ length (d.sectors (inode_sector idx))
    room_for = omega (arith, length-inode_bytes v, sound.whole (inode_sector idx))

    pub put_inode-IsSound : IsSound (put_inode idx n d)
    unfolding put_inode
    put_inode-IsSound = put_sector-IsSound (inode_sector idx) _ (
        length-mem_copy (d.sectors (inode_sector idx)) (inode_offset idx) (inode_bytes n) room_for
        ∙ sound.whole (inode_sector idx))

    pub sectors-put_inode :
        (l : ℕ) → l ≢ inode_sector idx → (put_inode idx n d).sectors l ≡ d.sectors l
    unfolding put_inode put_sector
    sectors-put_inode l h = rw (==_of_ne l (inode_sector idx) h)

    -- The bytes of the sector that holds the inode.
    stored : List ℕ
    stored = mem_copy (d.sectors (inode_sector idx)) (inode_offset idx) (inode_bytes n)

    sectors-put_inode_self : (put_inode idx n d).sectors (inode_sector idx) ≡ stored
    unfolding put_inode put_sector stored
    sectors-put_inode_self = rw (==_refl (inode_sector idx))

    length-stored : length stored ≡ 512
    unfolding stored
    length-stored = omega (
      arith,
      length-mem_copy (d.sectors (inode_sector idx)) (inode_offset idx) (inode_bytes n) room_for,
      sound.whole (inode_sector idx),
    )

    slice_same : slice (inode_offset idx) inode_size stored ≡ inode_bytes n
    unfolding stored
    slice_same =
        ap (λ k. slice (inode_offset idx) k stored) (sym (length-inode_bytes v))
        ∙ slice-mem_copy_self (d.sectors (inode_sector idx)) (inode_offset idx) (inode_bytes n)
            room_for

    pub inode_at-put_inode_self : inode_at idx (put_inode idx n d) ≡ n
    unfolding inode_at
    inode_at-put_inode_self =
        ap (λ s. inode_of (slice (inode_offset idx) inode_size s)) sectors-put_inode_self
        ∙ ap inode_of slice_same
        ∙ inode_of-inode_bytes v

    slice_apart :
        (j : ℕ)
        → j ≢ idx
        → inode_sector j ≡ inode_sector idx
        → slice (inode_offset j) inode_size stored
          ≡ slice (inode_offset j) inode_size (d.sectors (inode_sector idx))
    unfolding stored
    slice_apart j h e =
        slice-mem_copy_apart (d.sectors (inode_sector idx)) (inode_offset idx) (inode_bytes n)
          room_for (inode_offset j) inode_size (omega (arith, sound.whole (inode_sector idx)))
          (elim (Bool-cases (ltb j idx)) [
            | inl below ↦ let p : j < idx = ground arith in inl (omega arith)
            | inr above ↦
                let p : idx < j = ground arith in inr (omega (arith, length-inode_bytes v))
          ])

    pub inode_at-put_inode_ne : (j : ℕ) → j ≢ idx → inode_at j (put_inode idx n d) ≡ inode_at j d
    unfolding inode_at
    inode_at-put_inode_ne j h = elim (Bool-cases (inode_sector j == inode_sector idx)) [
      | inl same ↦
          let e : inode_sector j ≡ inode_sector idx = (==_iff _ _).0 same in
          rw e (
            ap (λ s. inode_of (slice (inode_offset j) inode_size s)) sectors-put_inode_self
            ∙ ap inode_of (slice_apart j h e))
      | inr other ↦
          ap (λ s. inode_of (slice (inode_offset j) inode_size s))
            (sectors-put_inode (inode_sector j) (λ e. ground arith))
    ]

-- On a drive without faults, `inode_write` of an inode whose fields fit succeeds, `inode_read` then
-- loads that inode, and every other inode and every other sector are as they were.
pub inode_read-inode_write :
    (d : Disk) (idx : ℕ) (n : Inode)
    → IsSound d
    → idx < max_inodes
    → IsInode n
    → (d' : Disk) × (inode_write idx n d ≡ some d')
      × (inode_read idx d' ≡ some n)
      × ((j : ℕ) → j ≢ idx → inode_read j d' ≡ inode_read j d)
      × ((l : ℕ) → l ≢ inode_sector idx → d'.sectors l ≡ d.sectors l)
inode_read-inode_write d idx n sound below v = (
  put_inode idx n d,
  ground (arith, inode_write_lem sound idx n),
  ground (
    arith,
    inode_read_lem (put_inode-IsSound sound idx v) idx,
    inode_at-put_inode_self sound idx v,
  ),
  λ j h.
      inode_read_lem (put_inode-IsSound sound idx v) j
      ∙ ap (λ m. if leb max_inodes j then none else some m) (inode_at-put_inode_ne sound idx v j h)
      ∙ sym (inode_read_lem sound j),
  sectors-put_inode sound idx v,
)
