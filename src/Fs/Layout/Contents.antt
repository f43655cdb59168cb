-- ===== src/Fs/Layout/Contents.antt =====
-- The contents of a file as a list of bytes, and fs_read of filesys/fs.c, which reads a part of it.
use gannet_os.Base.{
  ℕ, zero, suc, ◌+◌, ◌-◌, ◌*◌, ◌/◌, ◌%◌, ◌^◌, ◌<◌, ◌≡◌, refl, ap, ◌∙◌, sym, subst, min, true, false,
  inl, inr, List, [], ◌∷◌, Option, some, ltb, leb, ◌==◌, if◌then◌else◌, Bool-cases, length, take,
  drop, get_or, get_elem?, slice, arith, get_elem?-set_self, get_or_of_get_elem?, eq-nil_of_length,
}
use gannet_os.Disk.{Disk}
use gannet_os.Fs.{Fs, Fd, Inode, max_inodes}
use gannet_os.Fs.Inodes.{inode_at}
use gannet_os.Fs.Lookup.{inode_read_below}
use gannet_os.Fs.Bytes.{byte}
use gannet_os.Fs.Bytes.Reads.{bytes_from, length-bytes_from, get_or-bytes_from, read_loop_lem}
use gannet_os.Fs.Files.{fs_read, read_part, fs_read_loop, advance, no_fd}
use gannet_os.Fs.Layout.{IsLaid}

-- The bytes of the file that an inode describes.
unfoldable pub contents : Disk → Inode → List ℕ
contents d n = bytes_from d (n.start_block * 512) n.size

pub length-contents : (d : Disk) (n : Inode) → length (contents d n) ≡ n.size
unfolding contents
length-contents d n = length-bytes_from d n.size (n.start_block * 512)

pub get_or-contents :
    (d : Disk) (n : Inode) (k : ℕ)
    → k < n.size
    → get_or (contents d n) k 0 ≡ byte d (n.start_block * 512 + k)
unfolding contents
get_or-contents d n k h = get_or-bytes_from d n.size (n.start_block * 512) k h

take-bytes_from : (d : Disk) (m n a : ℕ) → take m (bytes_from d a n) ≡ bytes_from d a (min m n)
unfolding bytes_from
take-bytes_from d zero n a = ap (bytes_from d a) (let e : 0 ≡ min 0 n = omega arith in e)
take-bytes_from d (suc m) zero a =
    ap (bytes_from d a) (let e : 0 ≡ min (suc m) 0 = omega arith in e)
take-bytes_from d (suc m) (suc n) a =
    ap (λ l. byte d a ∷ l) (take-bytes_from d m n (a + 1))
    ∙ ap (bytes_from d a) (let e : suc (min m n) ≡ min (suc m) (suc n) = omega arith in e)

drop-bytes_from : (d : Disk) (m n a : ℕ) → drop m (bytes_from d a n) ≡ bytes_from d (a + m) (n - m)
unfolding bytes_from
drop-bytes_from d zero n a =
    ap (λ b. bytes_from d b n) (let e : a ≡ a + 0 = omega arith in e)
    ∙ ap (bytes_from d (a + 0)) (let e : n ≡ n - 0 = omega arith in e)
drop-bytes_from d (suc m) zero a =
    ap (bytes_from d (a + suc m)) (let e : 0 ≡ 0 - suc m = omega arith in e)
drop-bytes_from d (suc m) (suc n) a =
    drop-bytes_from d m n (a + 1)
    ∙ ap (λ b. bytes_from d b (n - m)) (let e : a + 1 + m ≡ a + suc m = omega arith in e)
    ∙ ap (bytes_from d (a + suc m)) (let e : n - m ≡ suc n - suc m = omega arith in e)

pub slice-contents :
    (d : Disk) (n : Inode) (off len : ℕ)
    → slice off len (contents d n)
      ≡ bytes_from d (n.start_block * 512 + off) (min len (n.size - off))
unfolding contents
slice-contents d n off len =
    ap (take len) (drop-bytes_from d off n.size (n.start_block * 512))
    ∙ take-bytes_from d len (n.size - off) (n.start_block * 512 + off)

abbrev pub opened : ℕ → ℕ → Fd
opened idx off = record { inode_idx = some idx; offset = off }

module _ (fs : Fs) (laid : IsLaid fs.disk fs.alloc_bitmap fs.data_sector_count) (fd idx off : ℕ)
    (below : idx < max_inodes) (open_fd : get_elem? fs.fds fd ≡ some (opened idx off))
    (len : ℕ) where
  abbrev part : List ℕ
  part = slice off len (contents fs.disk (inode_at idx fs.disk))

  abbrev count : ℕ
  count = min len ((inode_at idx fs.disk).size - off)

  part_bytes : part ≡ bytes_from fs.disk ((inode_at idx fs.disk).start_block * 512 + off) count
  part_bytes = slice-contents fs.disk (inode_at idx fs.disk) off len

  length-part : length part ≡ count
  length-part = ap (λ (l : List ℕ). length l) part_bytes ∙ length-bytes_from fs.disk count _

  read_open : fs_read fd len fs ≡ (
      if leb (inode_at idx fs.disk).size off
      then (some 0, [], fs)
      else read_part fd (inode_at idx fs.disk) off count fs)
  unfolding fs_read
  read_open = ground (arith, open_fd, inode_read_below laid.sound idx below)

  -- The sectors that are read have 32-bit numbers.
  inside : 0 < count → (inode_at idx fs.disk).start_block + (off + count) / 512 < 2 ^ 32
  inside p = omega (
    arith,
    laid.fits idx below,
    (laid.placed idx below (omega (arith, laid.fits idx below))).1,
    laid.total_le,
  )

  loop_bytes :
      0 < count
      → fs_read_loop count (inode_at idx fs.disk) off count 0 [] fs.disk ≡ (some count, part)
  loop_bytes p =
      read_loop_lem fs.disk laid.sound (inode_at idx fs.disk) off count (inside p) count 0 []
        (omega arith) (omega arith)
      ∙ ap (λ a. (some count, bytes_from fs.disk a (count - 0)))
          (let e : (inode_at idx fs.disk).start_block * 512 + off + 0
                ≡ (inode_at idx fs.disk).start_block * 512 + off =
              omega arith in
            e)
      ∙ ap
          (λ n. (some count, bytes_from fs.disk ((inode_at idx fs.disk).start_block * 512 + off) n))
          (let e : count - 0 ≡ count = omega arith in e)
      ∙ ap (λ b. (some count, b)) (sym part_bytes)

  read_part_lem :
      0 < count
      → read_part fd (inode_at idx fs.disk) off count fs ≡ (some count, part, advance fd count fs)
  unfolding read_part
  read_part_lem p = ground (arith, loop_bytes p)

  -- What a read leaves.
  abbrev Reads : Option ℕ × List ℕ × Fs → Type 0
  Reads r =
      (r.0 ≡ some (length part))
      × (r.1 ≡ part)
      × (get_elem? r.2.fds fd ≡ some (opened idx (off + length part)))
      × (r.2.disk ≡ fs.disk)
      × (r.2.alloc_bitmap ≡ fs.alloc_bitmap)

  advance_fd :
      off + len < 2 ^ 32
      → get_elem? (advance fd count fs).fds fd ≡ some (opened idx (off + length part))
  advance_fd small =
      get_elem?-set_self fs.fds fd _ (opened idx off) open_fd
      ∙ ap (λ (f : Fd). some (opened_by f))
          (get_or_of_get_elem? fs.fds fd no_fd (opened idx off) open_fd)
      ∙ ap (λ a. some (opened idx a))
          (let e : (off + count) % 2 ^ 32 ≡ off + length part = omega (arith, length-part) in e)
    where
      opened_by : Fd → Fd
      opened_by f = record { inode_idx = f.inode_idx; offset = (f.offset + count) % 2 ^ 32 }

  Reads-some : 0 < count → off + len < 2 ^ 32 → Reads (some count, part, advance fd count fs)
  Reads-some p small = (ap some (sym length-part), refl, advance_fd small, refl, refl)

  Reads-nothing : count ≡ 0 → Reads (some 0, [], fs)
  Reads-nothing e =
      let none_left : length part ≡ 0 = length-part ∙ e in
      (
        ap some (sym none_left),
        sym (eq-nil_of_length part none_left),
        open_fd
            ∙ ap (λ a. some (opened idx a))
                (let a : off ≡ off + length part = omega (arith, none_left) in a),
        refl,
        refl,
      )

  read_nothing : count ≡ 0 → fs_read fd len fs ≡ (some 0, [], fs)
  unfolding read_part
  read_nothing e = read_open ∙ (elim (Bool-cases (leb (inode_at idx fs.disk).size off)) [
    | inl past ↦ rw past refl
    | inr before ↦ rw before (rw (let z : (count == 0) ≡ true = ground arith in z) refl)
  ])

  read_some : 0 < count → fs_read fd len fs ≡ (some count, part, advance fd count fs)
  read_some p =
      read_open
      ∙ rw (let before : leb (inode_at idx fs.disk).size off ≡ false = ground arith in before)
          (read_part_lem p)

  -- On a drive without faults whose files are laid out apart, let the descriptor be open at an offset
  -- that, with the length asked for, stays below 4 GB, so that the offset does not wrap. Then
  -- `fs_read` returns the part of the file's contents that stands there, as much as there is of it
  -- up to the length asked for, and its length; it moves the offset behind the part and changes
  -- nothing on the drive.
  pub fs_read_lem :
      off + len < 2 ^ 32
      → ((fs_read fd len fs).0 ≡ some (length part))
        × ((fs_read fd len fs).1 ≡ part)
        × (get_elem? (fs_read fd len fs).2.fds fd ≡ some (opened idx (off + length part)))
        × ((fs_read fd len fs).2.disk ≡ fs.disk)
        × ((fs_read fd len fs).2.alloc_bitmap ≡ fs.alloc_bitmap)
  fs_read_lem small = elim (Bool-cases (ltb 0 count)) [
    | inl some_bytes ↦
        subst Reads (sym (read_some (ground arith))) (Reads-some (ground arith) small)
    | inr no_bytes ↦ subst Reads (sym (read_nothing (ground arith))) (Reads-nothing (ground arith))
  ]
