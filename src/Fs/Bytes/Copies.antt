-- ===== src/Fs/Bytes/Copies.antt =====
-- The copy of a file that grows, in fs_write of filesys/fs.c, against the bytes of the drive.
use gannet_os.Base.{
  ℕ, zero, suc, ◌+◌, ◌-◌, ◌*◌, ◌/◌, ◌%◌, ◌^◌, ◌≤◌, ◌<◌, ◌≡◌, refl, ap, ◌∙◌, sym, subst, Bool, true,
  false, ◌&&◌, ◌⊎◌, inl, inr, ltb, leb, ◌==◌, if◌then◌else◌, Bool-cases, get_or, arith,
}
use gannet_os.Disk.{Disk, IsSound, put_sector}
use gannet_os.Fs.Inodes.{put_sector-IsSound, read_sector_lem, write_sector_lem}
use gannet_os.Fs.Writes.{copy_sectors}
use gannet_os.Fs.Bytes.{byte, byte-put_sector}

-- The sectors from `to` on are those from `from` on, and all others are as before.
pub record Copied (left from to : ℕ) (d : Disk) (r : Bool × Disk) : Type 0 where
  pub done : r.0 ≡ true
  pub sound : IsSound r.1
  pub bytes :
      (a : ℕ)
      → byte r.1 a ≡ (
          if leb (to * 512) a && ltb a ((to + left) * 512)
          then byte d (a - to * 512 + from * 512)
          else byte d a)

byte-from : (d : Disk) (l k : ℕ) → k < 512 → get_or (d.sectors l) k 0 ≡ byte d (l * 512 + k)
unfolding byte
byte-from d l k h =
    let e : l ≡ (l * 512 + k) / 512 = omega arith in
    let f : k ≡ (l * 512 + k) % 512 = omega arith in
    ap (λ m. get_or (d.sectors m) k 0) e ∙ ap (λ m. get_or (d.sectors ((l * 512 + k) / 512)) m 0) f

module _ (from to : ℕ) (d : Disk) (sound : IsSound d) where
  abbrev copied : Disk
  copied = put_sector to (d.sectors from) d

  copy_step :
      (left : ℕ)
      → from + 1 < 2 ^ 32
      → to + 1 < 2 ^ 32
      → copy_sectors (suc left) from to d ≡ copy_sectors left (from + 1) (to + 1) copied
  unfolding copy_sectors
  copy_step left p q =
      let e : (from + 1) % 2 ^ 32 ≡ from + 1 = omega arith in
      let f : (to + 1) % 2 ^ 32 ≡ to + 1 = omega arith in
      let step : copy_sectors (suc left) from to d
          ≡ copy_sectors left ((from + 1) % 2 ^ 32) ((to + 1) % 2 ^ 32) copied =
        ground (arith, read_sector_lem sound from, write_sector_lem sound to (d.sectors from)) in
      step
      ∙ ap (λ k. copy_sectors left k ((to + 1) % 2 ^ 32) copied) e
      ∙ ap (λ k. copy_sectors left (from + 1) k copied) f

  first_bytes :
      (a : ℕ) → byte copied a ≡ (if a / 512 == to then byte d (from * 512 + a % 512) else byte d a)
  first_bytes a =
      byte-put_sector d to (d.sectors from) a
      ∙ ap (λ v. if a / 512 == to then v else byte d a) (byte-from d from (a % 512) (omega arith))

  module _ (left : ℕ) (apart : (from + suc left ≤ to) ⊎ (to + suc left ≤ from)) (a : ℕ) where
    in_first :
        to * 512 ≤ a → a < (to + 1) * 512 → byte copied a ≡ byte d (a - to * 512 + from * 512)
    in_first p q =
        let e : from * 512 + a % 512 ≡ a - to * 512 + from * 512 = omega arith in
        let here : (a / 512 == to) ≡ true = ground arith in
        ground (arith, first_bytes a, ap (byte d) e)

    in_later :
        (to + 1) * 512 ≤ a
        → a < (to + suc left) * 512
        → byte copied (a - (to + 1) * 512 + (from + 1) * 512) ≡ byte d (a - to * 512 + from * 512)
    in_later p q =
        let e : a - (to + 1) * 512 + (from + 1) * 512 ≡ a - to * 512 + from * 512 = omega arith in
        let elsewhere : ((a - to * 512 + from * 512) / 512 == to) ≡ false = elim apart [
          | inl r ↦ ground arith
          | inr r ↦ ground arith
        ] in
        ap (byte copied) e ∙ first_bytes (a - to * 512 + from * 512) ∙ rw elsewhere refl

    all_bytes :
        (other : ℕ)
        → other ≡ (
            if leb ((to + 1) * 512) a && ltb a ((to + 1 + left) * 512)
            then byte copied (a - (to + 1) * 512 + (from + 1) * 512)
            else byte copied a)
        → other ≡ (
            if leb (to * 512) a && ltb a ((to + suc left) * 512)
            then byte d (a - to * 512 + from * 512)
            else byte d a)
    all_bytes other h = elim (Bool-cases (leb ((to + 1) * 512) a)) [
      | inl later ↦ elim (Bool-cases (ltb a ((to + 1 + left) * 512))) [
        | inl below ↦ ground (arith, in_later)
        | inr above ↦ ground (arith, first_bytes a)
      ]
      | inr early ↦ elim (Bool-cases (leb (to * 512) a)) [
        | inl first ↦ ground (arith, in_first)
        | inr before ↦ ground (arith, first_bytes a)
      ]
    ]

  copy_more :
      (left : ℕ) (r : Bool × Disk)
      → (from + suc left ≤ to) ⊎ (to + suc left ≤ from)
      → Copied left (from + 1) (to + 1) copied r
      → Copied (suc left) from to d r
  copy_more left r apart c = record {
    done = c.done;
    sound = c.sound;
    bytes = λ a. all_bytes left apart a (byte r.1 a) (c.bytes a);
  }

pub copy_sectors_lem :
    (left from to : ℕ) (d : Disk)
    → IsSound d
    → (from + left ≤ to) ⊎ (to + left ≤ from)
    → from + left < 2 ^ 32
    → to + left < 2 ^ 32
    → Copied left from to d (copy_sectors left from to d)
unfolding copy_sectors
copy_sectors_lem zero from to d sound apart p q = record {
  done = refl;
  sound = sound;
  bytes = λ a. ground arith;
}
copy_sectors_lem (suc left) from to d sound apart p q =
    subst (Copied (suc left) from to d)
      (sym (copy_step from to d sound left (omega arith) (omega arith)))
      (copy_more from to d sound left _ apart (
        copy_sectors_lem left (from + 1) (to + 1) (put_sector to (d.sectors from) d)
          (put_sector-IsSound sound to (d.sectors from) (sound.whole from))
          (elim apart [ inl r ↦ inl (omega arith) | inr r ↦ inr (omega arith) ]) (omega arith)
          (omega arith)))
