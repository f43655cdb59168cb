-- ===== src/Fs/Bytes/Loops.antt =====
-- The loops of filesys/fs.c over the sectors of a file, each against its effect on the bytes of the
-- drive.
use gannet_os.Base.{
  ℕ, zero, suc, ◌+◌, ◌-◌, ◌*◌, ◌/◌, ◌%◌, ◌^◌, ◌≤◌, ◌<◌, ◌≡◌, refl, ap, ◌∙◌, sym, subst, min, Bool,
  true, false, ◌&&◌, ◌⊎◌, inl, inr, List, some, ltb, leb, ◌==◌, if◌then◌else◌, Bool-cases, length,
  get_or, arith, mem_copy, length-mem_copy, length-slice, get_or-slice, slice,
}
use gannet_os.Disk.{Disk, IsSound, put_sector}
use gannet_os.Fs.{Inode}
use gannet_os.Fs.Inodes.{put_sector-IsSound, read_sector_lem, write_sector_lem}
use gannet_os.Fs.Writes.{before_round, write_round, write_loop}
use gannet_os.Fs.Bytes.{byte, byte-put_part}

-- The bytes of the drive with some of them written: those from `from` up to `to`, at their places
-- behind `base`.
pub record Wrote (base from to : ℕ) (buf : List ℕ) (d : Disk) (r : Bool × Disk) : Type 0 where
  pub done : r.0 ≡ true
  pub sound : IsSound r.1
  pub bytes :
      (a : ℕ)
      → byte r.1 a
        ≡ (if leb (base + from) a && ltb a (base + to) then get_or buf (a - base) 0 else byte d a)

module _ (inode : Inode) (off : ℕ) (buf : List ℕ) (small : off + length buf < 2 ^ 32)
    (inside : inode.start_block + (off + length buf) / 512 < 2 ^ 32) where
  abbrev base : ℕ
  base = inode.start_block * 512 + off

  -- The bytes that a round moves, and the sector that it moves them to.
  abbrev count : ℕ → ℕ
  count done = min (512 - (off + done) % 512) (length buf - done)

  abbrev sector : ℕ → ℕ
  sector done = inode.start_block + (off + done) / 512

  abbrev after : ℕ → List ℕ → List ℕ
  after done before = mem_copy before ((off + done) % 512) (slice done (count done) buf)

  module _ (d : Disk) (sound : IsSound d) (done : ℕ) (more : done < length buf) where
    ltb-true : ltb done (length buf) ≡ true
    ltb-true = ground arith

    no_wrap : (off + done) % 2 ^ 32 ≡ off + done
    no_wrap = omega arith

    sector_fits : (inode.start_block + (off + done) / 512) % 2 ^ 32 ≡ sector done
    sector_fits = omega arith

    round_step :
        (next : ℕ → List ℕ → Disk → Bool × Disk) (sb before : List ℕ)
        → before_round (sector done) (off + done) done buf sb d ≡ some before
        → write_round next (sector done) (off + done) done buf sb d
          ≡ next
              (done + count done)
              (after done before)
              (put_sector (sector done) (after done before) d)
    unfolding write_round
    round_step next sb before h =
        ground (arith, write_sector_lem sound (sector done) (after done before))

    loop_open :
        (rounds : ℕ) (sb : List ℕ)
        → write_loop (suc rounds) inode off buf done sb d
          ≡ write_round
              (write_loop rounds inode off buf)
              ((inode.start_block + (off + done) % 2 ^ 32 / 512) % 2 ^ 32)
              ((off + done) % 2 ^ 32)
              done
              buf
              sb
              d
    unfolding write_loop
    loop_open rounds sb = ground (arith, ltb-true)

    write_step :
        (rounds : ℕ) (sb before : List ℕ)
        → before_round (sector done) (off + done) done buf sb d ≡ some before
        → write_loop (suc rounds) inode off buf done sb d
          ≡ write_loop rounds inode off buf
              (done + count done)
              (after done before)
              (put_sector (sector done) (after done before) d)
    write_step rounds sb before h =
        let next = write_loop rounds inode off buf in
        loop_open rounds sb
        ∙ ap (λ x. write_round next ((inode.start_block + x / 512) % 2 ^ 32) x done buf sb d)
            no_wrap
        ∙ ap (λ l. write_round next l (off + done) done buf sb d) sector_fits
        ∙ round_step next sb before h

    -- What the buffer holds before the round: the sector, unless the round writes all of it.
    before_lem :
        (sb : List ℕ)
        → length sb ≡ 512
        → (before : List ℕ) × (before_round (sector done) (off + done) done buf sb d ≡ some before)
          × (length before ≡ 512)
          × ((count done ≡ 512) ⊎ (before ≡ d.sectors (sector done)))
    unfolding before_round
    before_lem sb h = elim (Bool-cases ((off + done) % 512 == 0 && count done == 512)) [
      | inl all ↦ (sb, ground arith, h, inl (ground arith))
      | inr part ↦ (
        d.sectors (sector done),
        ground (arith, read_sector_lem sound (sector done)),
        sound.whole (sector done),
        inr refl,
      )
    ]

    length-part : length (slice done (count done) buf) ≡ count done
    length-part = length-slice done (count done) buf (omega arith)

    length-after : (before : List ℕ) → length before ≡ 512 → length (after done before) ≡ 512
    length-after before whole =
        length-mem_copy before ((off + done) % 512) (slice done (count done) buf)
          (omega (arith, length-part))
        ∙ whole

    -- A byte of the part is a byte of the data.
    part_byte :
        (a : ℕ)
        → base + done ≤ a
        → a < base + (done + count done)
        → get_or (slice done (count done) buf) (a - (inode.start_block * 512 + (off + done))) 0
          ≡ get_or buf (a - base) 0
    part_byte a p q =
        get_or-slice done (count done) buf (a - (inode.start_block * 512 + (off + done)))
          (omega arith)
        ∙ ap (λ k. get_or buf k 0)
            (let k : done + (a - (inode.start_block * 512 + (off + done))) ≡ a - base =
                omega arith in
              k)

    places :
        (a other : ℕ)
        → (if leb (inode.start_block * 512 + (off + done)) a
              && ltb a
                  (inode.start_block * 512 + (off + done) + length (slice done (count done) buf))
            then get_or
                (slice done (count done) buf)
                (a - (inode.start_block * 512 + (off + done)))
                0
            else other)
          ≡ (if leb (base + done) a && ltb a (base + (done + count done))
              then get_or buf (a - base) 0
              else other)
    places a other = elim (Bool-cases (leb (base + done) a && ltb a (base + (done + count done)))) [
      | inl mid ↦ ground (arith, length-part, part_byte a)
      | inr out ↦ ground (arith, length-part)
    ]

    -- The bytes after a round.
    round_bytes :
        (before : List ℕ)
        → length before ≡ 512
        → (count done ≡ 512) ⊎ (before ≡ d.sectors (sector done))
        → IsSound (put_sector (sector done) (after done before) d)
          × ((a : ℕ)
              → byte (put_sector (sector done) (after done before) d) a ≡ (
                  if leb (base + done) a && ltb a (base + (done + count done))
                  then get_or buf (a - base) 0
                  else byte d a))
    round_bytes before whole old = (
      put_sector-IsSound sound (sector done) (after done before) (length-after before whole),
      λ a.
          byte-put_part d inode.start_block (off + done) before (slice done (count done) buf) whole
            (omega (arith, length-part))
            (elim old [ inl all ↦ inl (length-part ∙ all) | inr same ↦ inr same ]) a
          ∙ places a (byte d a),
    )

  -- A write of nothing.
  Wrote-nothing : (from : ℕ) (d : Disk) → IsSound d → Wrote base from from buf d (true, d)
  Wrote-nothing from d sound = record { done = refl; sound = sound; bytes = λ a. ground arith }

  -- A round, and the rounds behind it.
  Wrote-round :
      (from mid to : ℕ) (d d' : Disk) (r : Bool × Disk)
      → from ≤ mid
      → mid ≤ to
      → ((a : ℕ)
          → byte d' a ≡ (
              if leb (base + from) a && ltb a (base + mid)
              then get_or buf (a - base) 0
              else byte d a))
      → Wrote base mid to buf d' r
      → Wrote base from to buf d r
  Wrote-round from mid to d d' r p q first rest = record {
    done = rest.done;
    sound = rest.sound;
    bytes = λ a. ground (arith, rest.bytes a, first a);
  }

  loop_end :
      (rounds done : ℕ) (sb : List ℕ) (d : Disk)
      → length buf ≤ done
      → write_loop (suc rounds) inode off buf done sb d ≡ (true, d)
  unfolding write_loop
  loop_end rounds done sb d h =
      let over : ltb done (length buf) ≡ false = ground arith in ground (arith, over)

  write_loop_from :
      (rounds done : ℕ) (sb : List ℕ) (d : Disk)
      → IsSound d
      → length sb ≡ 512
      → done ≤ length buf
      → length buf ≤ done + rounds
      → Wrote base done (length buf) buf d (write_loop rounds inode off buf done sb d)
  unfolding write_loop
  write_loop_from zero done sb d sound h p q =
      let same : done ≡ length buf = omega arith in
      subst (λ k. Wrote base done k buf d (true, d)) same (Wrote-nothing done d sound)
  write_loop_from (suc rounds) done sb d sound h p q = elim (Bool-cases (ltb done (length buf))) [
    | inr over ↦
        let same : done ≡ length buf = ground arith in
        subst (Wrote base done (length buf) buf d) (sym (loop_end rounds done sb d (omega arith)))
          (subst (λ k. Wrote base done k buf d (true, d)) same (Wrote-nothing done d sound))
    | inl below ↦
        let more : done < length buf = ground arith in
        let (before, found, whole, old) = before_lem d sound done more sb h in
        let (sound', bytes) = round_bytes d sound done more before whole old in
        subst (Wrote base done (length buf) buf d)
          (sym (write_step d sound done more rounds sb before found))
          (Wrote-round done (done + count done) (length buf) d
            (put_sector (sector done) (after done before) d) _ (omega arith) (omega arith) bytes
            (write_loop_from rounds (done + count done) (after done before)
              (put_sector (sector done) (after done before) d) sound'
              (length-after d sound done more before whole) (omega arith) (omega arith)))
  ]

  -- As many rounds as bytes write the data to its place.
  pub write_loop_lem :
      (sb : List ℕ) (d : Disk)
      → IsSound d
      → length sb ≡ 512
      → Wrote base 0 (length buf) buf d (write_loop (length buf) inode off buf 0 sb d)
  write_loop_lem sb d sound h =
      write_loop_from (length buf) 0 sb d sound h (omega arith) (omega arith)
