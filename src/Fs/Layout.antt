-- ===== src/Fs/Layout.antt =====
-- Where filesys/fs.c keeps files: the sectors of each inode are marked in the bitmap, and no two
-- inodes share one.
pub mod Room
pub mod Growth
pub mod Contents
pub mod Ready
pub mod Written
pub mod Refines
pub mod Erasure
use gannet_os.Base.{
  ℕ, zero, suc, ◌+◌, ◌-◌, ◌*◌, ◌/◌, ◌%◌, ◌^◌, ◌≤◌, ◌<◌, ◌≡◌, ◌≢◌, refl, ap, ◌∙◌, sym, subst, Bool,
  true, false, ◌⊎◌, inl, inr, List, Option, none, some, ltb, leb, ◌==◌, if◌then◌else◌, Bool-cases,
  length, arith,
}
use gannet_os.Disk.{Disk, IsSound}
use gannet_os.Bitmap.{test}
use gannet_os.Fs.{Inode, max_inodes, data_start, total_sectors, bitmap_words}
use gannet_os.Fs.Inodes.{
  IsInode, inode_at, put_inode, put_inode-IsSound, inode_at-put_inode_self, inode_at-put_inode_ne,
}
use gannet_os.Fs.Bytes.{byte, data_address, inode_at_of_byte}

-- The sector is one of the inode's.
abbrev pub Owns : Inode → ℕ → Type 0
Owns n s = (n.start_block ≤ s) × (s < n.start_block + n.block_count)

-- A run of data sectors that exist.
abbrev pub IsPlaced : ℕ → Inode → Type 0
IsPlaced total n =
    0 < n.block_count
    → (data_start ≤ n.start_block) × (n.start_block + n.block_count ≤ data_start + total)

pub record IsLaid (d : Disk) (ws : List ℕ) (total : ℕ) : Type 0 where
  pub sound : IsSound d
  pub words : length ws ≡ bitmap_words
  pub total_le : total ≤ total_sectors - data_start
  pub inodes : (i : ℕ) → i < max_inodes → IsInode (inode_at i d)
  pub placed : (i : ℕ) → i < max_inodes → IsPlaced total (inode_at i d)
  pub fits : (i : ℕ) → i < max_inodes → (inode_at i d).size ≤ (inode_at i d).block_count * 512
  pub marked :
      (i : ℕ) → i < max_inodes → (s : ℕ) → Owns (inode_at i d) s → test ws (s - data_start) ≡ true
  pub apart :
      (i j s : ℕ)
      → i < max_inodes
      → j < max_inodes
      → i ≢ j
      → Owns (inode_at i d) s
      → ¬ Owns (inode_at j d) s

-- What makes a new inode fit in beside the others.
pub record FitsIn (d : Disk) (total idx : ℕ) (n : Inode) (ws : List ℕ) : Type 0 where
  pub is_inode : IsInode n
  pub words : length ws ≡ bitmap_words
  pub placed : IsPlaced total n
  pub fits : n.size ≤ n.block_count * 512
  pub marked : (s : ℕ) → Owns n s → test ws (s - data_start) ≡ true
  pub others_marked :
      (j : ℕ)
      → j < max_inodes
      → j ≢ idx
      → (s : ℕ) → Owns (inode_at j d) s
      → test ws (s - data_start) ≡ true
  pub others_apart :
      (j : ℕ) → j < max_inodes → j ≢ idx → (s : ℕ) → Owns (inode_at j d) s → ¬ Owns n s

-- The inode of `idx` is replaced, the data sectors may change, and the other inodes stay.
module _ {d : Disk} {ws : List ℕ} {total : ℕ} (laid : IsLaid d ws total) (idx : ℕ)
    (below : idx < max_inodes) {n : Inode} {ws' : List ℕ} (new : FitsIn d total idx n ws')
    (d' : Disk) (sound : IsSound d')
    (same : (a : ℕ) → a < data_address → byte d' a ≡ byte d a) where
  abbrev updated : Disk
  updated = put_inode idx n d'

  pub updated_self : inode_at idx updated ≡ n
  updated_self = inode_at-put_inode_self sound idx new.is_inode

  pub updated_other : (j : ℕ) → j < max_inodes → j ≢ idx → inode_at j updated ≡ inode_at j d
  updated_other j p h =
      inode_at-put_inode_ne sound idx new.is_inode j h ∙ inode_at_of_byte laid.sound sound same j p

  -- What holds of the new inode and of the old ones holds of all.
  each :
      (P : ℕ → Inode → Type 0)
      → P idx n
      → ((j : ℕ) → j < max_inodes → j ≢ idx → P j (inode_at j d))
      → (j : ℕ) → j < max_inodes
      → P j (inode_at j updated)
  each P here others j p = elim (Bool-cases (j == idx)) [
    | inl e ↦
        let e' : j ≡ idx = ground arith in
        subst (λ k. P k (inode_at k updated)) (sym e') (subst (P idx) (sym updated_self) here)
    | inr h ↦
        let h' : j ≢ idx = λ x. ground arith in
        subst (P j) (sym (updated_other j p h')) (others j p h')
  ]

  pub update-IsLaid : IsLaid updated ws' total
  update-IsLaid = record {
    sound = put_inode-IsSound sound idx new.is_inode;
    words = new.words;
    total_le = laid.total_le;
    inodes = each (λ j m. IsInode m) new.is_inode (λ j p h. laid.inodes j p);
    placed = each (λ j m. IsPlaced total m) new.placed (λ j p h. laid.placed j p);
    fits = each (λ j m. m.size ≤ m.block_count * 512) new.fits (λ j p h. laid.fits j p);
    marked =
        each (λ j m. (s : ℕ) → Owns m s → test ws' (s - data_start) ≡ true) new.marked
          new.others_marked;
    apart = λ i j s p q h.
        each (λ i m. i ≢ j → Owns m s → ¬ Owns (inode_at j updated) s)
          (λ h'.
            each (λ j m. idx ≢ j → Owns n s → ¬ Owns m s) (λ h''. absurd (h'' refl))
              (λ j q h'' _ o o'. new.others_apart j q h'' s o' o) j q h')
          (λ i p h' h''.
            each (λ j m. i ≢ j → Owns (inode_at i d) s → ¬ Owns m s)
              (λ _ o. new.others_apart i p h' s o) (λ j q _ h3. laid.apart i j s p q h3) j q h'')
          i p h;
  }
