-- ===== src/Fs/Bytes/Reads.antt =====
-- The loop of fs_read in filesys/fs.c, against the bytes of the drive.
use gannet_os.Base.{
  ℕ, zero, suc, ◌+◌, ◌-◌, ◌*◌, ◌/◌, ◌%◌, ◌^◌, ◌≤◌, ◌<◌, ◌≡◌, refl, ap, ◌∙◌, sym, min, true, false,
  inl, inr, List, [], ◌∷◌, ◌++◌, append_assoc, append-nil, Option, some, ltb, Bool-cases, length,
  get_or, arith, length-slice, get_or-slice, slice, eq_of_get_or,
}
use gannet_os.Disk.{Disk, IsSound}
use gannet_os.Fs.{Inode}
use gannet_os.Fs.Inodes.{read_sector_lem}
use gannet_os.Fs.Files.{fs_read_loop}
use gannet_os.Fs.Bytes.{byte}

-- The `n` bytes from an address on.
unfoldable pub bytes_from : Disk → ℕ → ℕ → List ℕ
bytes_from d a zero = []
bytes_from d a (suc n) = byte d a ∷ bytes_from d (a + 1) n

pub length-bytes_from : (d : Disk) (n a : ℕ) → length (bytes_from d a n) ≡ n
unfolding bytes_from
length-bytes_from d zero a = refl
length-bytes_from d (suc n) a = ap suc (length-bytes_from d n (a + 1))

pub get_or-bytes_from :
    (d : Disk) (n a k : ℕ) → k < n → get_or (bytes_from d a n) k 0 ≡ byte d (a + k)
unfolding bytes_from
get_or-bytes_from d zero a k h = absurd (omega arith)
get_or-bytes_from d (suc n) a zero h = ap (byte d) (let e : a ≡ a + 0 = omega arith in e)
get_or-bytes_from d (suc n) a (suc k) h =
    get_or-bytes_from d n (a + 1) k (omega arith)
    ∙ ap (byte d) (let e : a + 1 + k ≡ a + suc k = omega arith in e)

bytes_from-append :
    (d : Disk) (m n a : ℕ) → bytes_from d a m ++ bytes_from d (a + m) n ≡ bytes_from d a (m + n)
unfolding bytes_from
bytes_from-append d zero n a =
    ap (λ b. bytes_from d b n) (let e : a + 0 ≡ a = omega arith in e)
    ∙ ap (bytes_from d a) (let e : n ≡ 0 + n = omega arith in e)
bytes_from-append d (suc m) n a =
    ap (λ l. byte d a ∷ l)
      (ap (λ b. bytes_from d (a + 1) m ++ bytes_from d b n)
          (let e : a + suc m ≡ a + 1 + m = omega arith in e)
        ∙ bytes_from-append d m n (a + 1))
    ∙ ap (bytes_from d a) (let e : suc (m + n) ≡ suc m + n = omega arith in e)

module _ (d : Disk) (sound : IsSound d) where
  -- A part of a sector.
  slice-sector :
      (l so tc : ℕ) → so + tc ≤ 512 → slice so tc (d.sectors l) ≡ bytes_from d (l * 512 + so) tc
  unfolding byte
  slice-sector l so tc h =
      eq_of_get_or _ _ (measured ∙ sym (length-bytes_from d tc (l * 512 + so))) λ k p.
        get_or-slice so tc (d.sectors l) k (omega (arith, measured))
        ∙ in_sector k (omega (arith, measured))
        ∙ sym (get_or-bytes_from d tc (l * 512 + so) k (omega (arith, measured)))
    where
      measured : length (slice so tc (d.sectors l)) ≡ tc
      measured = length-slice so tc (d.sectors l) (omega (arith, sound.whole l))

      in_sector : (k : ℕ) → k < tc → get_or (d.sectors l) (so + k) 0 ≡ byte d (l * 512 + so + k)
      in_sector k p =
          let e : l ≡ (l * 512 + so + k) / 512 = omega arith in
          let f : so + k ≡ (l * 512 + so + k) % 512 = omega arith in
          ap (λ m. get_or (d.sectors m) (so + k) 0) e
          ∙ ap (λ m. get_or (d.sectors ((l * 512 + so + k) / 512)) m 0) f

  module _ (inode : Inode) (off len : ℕ)
      (inside : inode.start_block + (off + len) / 512 < 2 ^ 32) where
    abbrev count : ℕ → ℕ
    count done = min (512 - (off + done) % 512) (len - done)

    read_step :
        (rounds done : ℕ) (out : List ℕ)
        → done < len
        → fs_read_loop (suc rounds) inode off len done out d
          ≡ fs_read_loop rounds inode off len
              (done + count done)
              (out
                ++ slice
                    ((off + done) % 512)
                    (count done)
                    (d.sectors (inode.start_block + (off + done) / 512)))
              d
    unfolding fs_read_loop
    read_step rounds done out h =
        let below : ltb done len ≡ true = ground arith in
        let fits : (inode.start_block + (off + done) / 512) % 2 ^ 32
            ≡ inode.start_block + (off + done) / 512 =
          omega arith in
        ground (arith, read_sector_lem sound (inode.start_block + (off + done) / 512))

    read_end :
        (rounds done : ℕ) (out : List ℕ)
        → len ≤ done
        → fs_read_loop (suc rounds) inode off len done out d ≡ (some done, out)
    unfolding fs_read_loop
    read_end rounds done out h =
        let over : ltb done len ≡ false = ground arith in ground (arith, over)

    abbrev place : ℕ → ℕ
    place done = inode.start_block * 512 + off + done

    read_over :
        (done : ℕ) (out : List ℕ)
        → done ≡ len
        → ◌≡◌ {A = Option ℕ × List ℕ}
            (some done, out)
            (some len, out ++ bytes_from d (place done) (len - done))
    unfolding bytes_from
    read_over done out same =
        let nothing : 0 ≡ len - done = omega arith in
        let whole : out ≡ out ++ bytes_from d (place done) (len - done) =
          sym (append-nil out) ∙ ap (λ n. out ++ bytes_from d (place done) n) nothing in
        λ i. (some (same i), whole i)

    -- A round's bytes and those behind them.
    read_more :
        (done : ℕ) (out : List ℕ)
        → done < len
        → (out
              ++ slice
                  ((off + done) % 512)
                  (count done)
                  (d.sectors (inode.start_block + (off + done) / 512)))
            ++ bytes_from d (place (done + count done)) (len - (done + count done))
          ≡ out ++ bytes_from d (place done) (len - done)
    read_more done out h =
        let l = inode.start_block + (off + done) / 512 in
        let rest = bytes_from d (place (done + count done)) (len - (done + count done)) in
        let at : l * 512 + (off + done) % 512 ≡ place done = omega arith in
        let next : place (done + count done) ≡ place done + count done = omega arith in
        let all : count done + (len - (done + count done)) ≡ len - done = omega arith in
        append_assoc out (slice ((off + done) % 512) (count done) (d.sectors l)) rest
        ∙ ap (λ s. out ++ (s ++ rest))
            (slice-sector l ((off + done) % 512) (count done) (omega arith)
              ∙ ap (λ b. bytes_from d b (count done)) at)
        ∙ ap
            (λ b.
              out
              ++ (bytes_from d (place done) (count done)
                  ++ bytes_from d b (len - (done + count done))))
            next
        ∙ ap (λ t. out ++ t)
            (bytes_from-append d (count done) (len - (done + count done)) (place done))
        ∙ ap (λ n. out ++ bytes_from d (place done) n) all

    -- As many rounds as bytes deliver the bytes of the file.
    pub read_loop_lem :
        (rounds done : ℕ) (out : List ℕ)
        → done ≤ len
        → len ≤ done + rounds
        → fs_read_loop rounds inode off len done out d
          ≡ (some len, out ++ bytes_from d (place done) (len - done))
    unfolding fs_read_loop
    read_loop_lem zero done out p q = read_over done out (omega arith)
    read_loop_lem (suc rounds) done out p q = elim (Bool-cases (ltb done len)) [
      | inr over ↦ read_end rounds done out (ground arith) ∙ read_over done out (ground arith)
      | inl below ↦
          read_step rounds done out (ground arith)
          ∙ read_loop_lem rounds (done + count done)
              (out
                ++ slice ((off + done) % 512) (count done)
                    (d.sectors (inode.start_block + (off + done) / 512)))
              (omega arith) (ground arith)
          ∙ ap (λ t. (some len, t)) (read_more done out (ground arith))
    ]
