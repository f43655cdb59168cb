-- ===== src/Fs/Bytes.antt =====
-- The drive as one array of bytes: what the loops of fs_read and fs_write in filesys/fs.c, and the
-- copy of a file that grows, read and write in it.
pub mod Loops
pub mod Reads
pub mod Copies
use gannet_os.Base.{
  ℕ, zero, suc, ◌+◌, ◌-◌, ◌*◌, ◌/◌, ◌%◌, ◌^◌, ◌≤◌, ◌<◌, ◌≡◌, ◌≢◌, refl, ap, ◌∙◌, sym, subst, min,
  Bool, true, false, ◌&&◌, ◌⊎◌, inl, inr, List, [], ◌∷◌, ◌++◌, Option, none, some, ltb, leb, ◌==◌,
  ==_iff, if◌then◌else◌, Bool-cases, length, take, drop, get_or, arith, mem_copy, length-mem_copy,
  get_or-mem_copy, length-slice, get_or-slice, slice, eq_of_get_or, get_or-past,
}
use gannet_os.Disk.{Disk, IsSound, put_sector}
use gannet_os.Fs.{Inode, inode_sector, inode_offset, inode_size, max_inodes, data_start}
use gannet_os.Fs.Inodes.{
  IsInode, inode_at, put_inode, sectors-put_inode, put_sector-IsSound, inode_at-sectors,
}

-- The byte at an address.
pub byte : Disk → ℕ → ℕ
byte d a = get_or (d.sectors (a / 512)) (a % 512) 0

-- The first address of the data sectors.
abbrev pub data_address : ℕ
data_address = data_start * 512

pub byte-put_sector :
    (d : Disk) (l : ℕ) (b : List ℕ) (a : ℕ)
    → byte (put_sector l b d) a ≡ (if a / 512 == l then get_or b (a % 512) 0 else byte d a)
unfolding byte put_sector
byte-put_sector d l b a = elim (Bool-cases (a / 512 == l)) [
  | inl same ↦ rw same refl
  | inr other ↦ rw other refl
]

-- Sectors with the same bytes are equal.
pub eq_of_byte :
    {d d' : Disk} (l : ℕ)
    → IsSound d
    → IsSound d'
    → ((a : ℕ) → a / 512 ≡ l → byte d' a ≡ byte d a)
    → d'.sectors l ≡ d.sectors l
unfolding byte
eq_of_byte {d} {d'} l s s' h =
    eq_of_get_or _ _ (s'.whole l ∙ sym (s.whole l)) λ k p. at k (omega (arith, s'.whole l))
  where
    at : (k : ℕ) → k < 512 → get_or (d'.sectors l) k 0 ≡ get_or (d.sectors l) k 0
    at k p =
        let e : (l * 512 + k) / 512 ≡ l = omega arith in
        let f : (l * 512 + k) % 512 ≡ k = omega arith in
        subst {A = ℕ × ℕ} (λ m. get_or (d'.sectors m.0) m.1 0 ≡ get_or (d.sectors m.0) m.1 0)
          (λ i. (e i, f i)) (h (l * 512 + k) e)

-- The inode table is what lies in front of the data.
pub inode_at_of_byte :
    {d d' : Disk}
    → IsSound d
    → IsSound d'
    → ((a : ℕ) → a < data_address → byte d' a ≡ byte d a)
    → (j : ℕ) → j < max_inodes
    → inode_at j d' ≡ inode_at j d
inode_at_of_byte s s' h j p =
    inode_at-sectors j _ _ (eq_of_byte (inode_sector j) s s' (λ a e. h a (omega arith)))

pub byte-put_inode :
    {d : Disk}
    → IsSound d
    → (idx : ℕ) → {n : Inode} → IsInode n
    → idx < max_inodes
    → (a : ℕ) → data_address ≤ a
    → byte (put_inode idx n d) a ≡ byte d a
unfolding byte
byte-put_inode s idx v p a h =
    ap (λ t. get_or t (a % 512) 0) (sectors-put_inode s idx v (a / 512) (λ e. absurd (omega arith)))

-- Some bytes stored in one sector: `before` is what the buffer held, the sector unless it is stored
-- whole.
module _ (d : Disk) (start at : ℕ) (before part : List ℕ) (whole : length before ≡ 512)
    (fits : at % 512 + length part ≤ 512)
    (old : (length part ≡ 512) ⊎ (before ≡ d.sectors (start + at / 512))) where
  abbrev address : ℕ
  address = start * 512 + at

  abbrev filled : List ℕ
  filled = mem_copy before (at % 512) part

  byte_inside :
      (a : ℕ)
      → a / 512 ≡ start + at / 512
      → get_or filled (a % 512) 0 ≡ (
          if leb address a && ltb a (address + length part)
          then get_or part (a - address) 0
          else byte d a)
  unfolding byte
  byte_inside a e =
      get_or-mem_copy before (at % 512) part (omega arith) (a % 512)
      ∙ (elim (Bool-cases (leb (at % 512) (a % 512) && ltb (a % 512) (at % 512 + length part))) [
        | inl mid ↦
            rw (mid, in_part mid)
              (ap (λ k. get_or part k 0)
                (let k : a % 512 - at % 512 ≡ a - address = ground arith in k))
        | inr out ↦
            rw (out, out_part out)
              (elim old [
                | inl all ↦ absurd (ground arith)
                | inr same ↦ ap (λ s. get_or s (a % 512) 0) (same ∙ sym (ap d.sectors e))
              ])
      ])
    where
      in_part :
          (leb (at % 512) (a % 512) && ltb (a % 512) (at % 512 + length part)) ≡ true
          → (leb address a && ltb a (address + length part)) ≡ true
      in_part h = ground arith

      out_part :
          (leb (at % 512) (a % 512) && ltb (a % 512) (at % 512 + length part)) ≡ false
          → (leb address a && ltb a (address + length part)) ≡ false
      out_part h = ground arith

  pub byte-put_part :
      (a : ℕ)
      → byte (put_sector (start + at / 512) filled d) a ≡ (
          if leb address a && ltb a (address + length part)
          then get_or part (a - address) 0
          else byte d a)
  byte-put_part a = elim (Bool-cases (a / 512 == start + at / 512)) [
    | inl same ↦
        byte-put_sector d (start + at / 512) filled a ∙ rw same (byte_inside a (ground arith))
    | inr other ↦ byte-put_sector d (start + at / 512) filled a ∙ rw (other, outside other) refl
  ]
    where
      outside :
          (a / 512 == start + at / 512) ≡ false
          → (leb address a && ltb a (address + length part)) ≡ false
      outside h = ground arith
