-- ===== src/Fs/Blocks.antt =====
-- Runs of data sectors in the allocation bitmap of filesys/fs.c: what bm_set, bm_clr and bm_get do
-- over a run, and the first fit of bm_alloc.
use gannet_os.Base.{
  ℕ, zero, suc, ◌+◌, ◌-◌, ◌*◌, ◌≤◌, ◌<◌, ◌≡◌, refl, ap, ◌∙◌, subst, Bool, true, false, ◌&&◌, ◌⊎◌,
  inl, inr, List, Option, none, some, ltb, leb, ◌==◌, if◌then◌else◌, Bool-cases, length, arith,
}
use gannet_os.Bitmap.{test, mark, clear, length-mark, length-clear, test-mark, test-clear}
use gannet_os.Fs.{Fs, bm_set_run, bm_clr_run, run_is_free, bm_alloc_loop, bm_alloc}

-- `j` lies in the run of `n` sectors from `b` on.
abbrev pub in_run : ℕ → ℕ → ℕ → Bool
in_run b n j = leb b j && ltb j (b + n)

pub length-bm_set_run : (n b : ℕ) (ws : List ℕ) → length (bm_set_run n b ws) ≡ length ws
unfolding bm_set_run
length-bm_set_run zero b ws = refl
length-bm_set_run (suc n) b ws = length-bm_set_run n (b + 1) (mark ws b) ∙ length-mark ws b

pub length-bm_clr_run : (n b : ℕ) (ws : List ℕ) → length (bm_clr_run n b ws) ≡ length ws
unfolding bm_clr_run
length-bm_clr_run zero b ws = refl
length-bm_clr_run (suc n) b ws = length-bm_clr_run n (b + 1) (clear ws b) ∙ length-clear ws b

pub test-bm_set_run :
    (n b : ℕ) (ws : List ℕ) (j : ℕ)
    → b + n ≤ length ws * 32
    → test (bm_set_run n b ws) j ≡ (if in_run b n j then true else test ws j)
unfolding bm_set_run
test-bm_set_run zero b ws j h = ground arith
test-bm_set_run (suc n) b ws j h = ground (
  arith,
  test-bm_set_run n (b + 1) (mark ws b) j (omega (arith, length-mark ws b)),
  test-mark ws b j,
)

pub test-bm_clr_run :
    (n b : ℕ) (ws : List ℕ) (j : ℕ)
    → b + n ≤ length ws * 32
    → test (bm_clr_run n b ws) j ≡ (if in_run b n j then false else test ws j)
unfolding bm_clr_run
test-bm_clr_run zero b ws j h = ground arith
test-bm_clr_run (suc n) b ws j h = ground (
  arith,
  test-bm_clr_run n (b + 1) (clear ws b) j (omega (arith, length-clear ws b)),
  test-clear ws b j,
)

-- No sector of the run is in use.
abbrev pub IsFree : ℕ → ℕ → List ℕ → Type 0
IsFree b n ws = (j : ℕ) → in_run b n j ≡ true → test ws j ≡ false

pub run_is_free-IsFree : (n b : ℕ) (ws : List ℕ) → run_is_free n b ws ≡ true → IsFree b n ws
unfolding run_is_free
run_is_free-IsFree zero b ws h j r = ground arith
run_is_free-IsFree (suc n) b ws h j r = elim (Bool-cases (b == j)) [
  | inl same ↦ ground (arith, ap (test ws) (let e : b ≡ j = ground arith in e))
  | inr other ↦ run_is_free-IsFree n (b + 1) ws (ground arith) j (ground arith)
]

pub IsFree-run_is_free : (n b : ℕ) (ws : List ℕ) → IsFree b n ws → run_is_free n b ws ≡ true
unfolding run_is_free
IsFree-run_is_free zero b ws h = refl
IsFree-run_is_free (suc n) b ws h =
    ground (arith, h b, IsFree-run_is_free n (b + 1) ws (λ j r. h j (ground arith)))

-- What the search from `i` on leaves.
pub data Found (count i bound : ℕ) (ws : List ℕ) : Option ℕ × List ℕ → Type 0 where
  no_room :
      ((k : ℕ) → i ≤ k → k < bound → run_is_free count k ws ≡ false)
      → Found count i bound ws (none, ws)
  room :
      (k : ℕ)
      → i ≤ k
      → k < bound
      → run_is_free count k ws ≡ true
      → ((j : ℕ) → i ≤ j → j < k → run_is_free count j ws ≡ false)
      → Found count i bound ws (some k, bm_set_run count k ws)

Found-step :
    (count i bound : ℕ) (ws : List ℕ) {r : Option ℕ × List ℕ}
    → run_is_free count i ws ≡ false
    → Found count (i + 1) bound ws r
    → Found count i bound ws r
Found-step count i bound ws e (no_room h) = no_room λ k p q. elim (Bool-cases (i == k)) [
  | inl same ↦ ap (λ j. run_is_free count j ws) (let same' : k ≡ i = ground arith in same') ∙ e
  | inr other ↦ h k (ground arith) q
]
Found-step count i bound ws e (room k p q f h) = room k (omega arith) q f λ j p' q'.
    elim (Bool-cases (i == j)) [
      | inl same ↦ ap (λ l. run_is_free count l ws) (let same' : j ≡ i = ground arith in same') ∙ e
      | inr other ↦ h j (ground arith) q'
    ]

bm_alloc_loop-Found :
    (left i count : ℕ) (ws : List ℕ) → Found count i (i + left) ws (bm_alloc_loop left i count ws)
unfolding bm_alloc_loop
bm_alloc_loop-Found zero i count ws = no_room λ k p q. absurd (omega arith)
bm_alloc_loop-Found (suc left) i count ws = elim (Bool-cases (run_is_free count i ws)) [
  | inl free ↦ rw free (room i (omega arith) (omega arith) free (λ j p q. absurd (omega arith)))
  | inr used ↦ rw used (
      Found-step count i (i + suc left) ws used (
        let same : i + 1 + left ≡ i + suc left = omega arith in
        rw (← same) (bm_alloc_loop-Found left (i + 1) count ws)))
]

-- What `bm_alloc` leaves: the first run that is free, or nothing where there is none.
pub bm_alloc-Found :
    (count : ℕ) (fs : Fs)
    → Found count 0
        (fs.data_sector_count + 1 - count)
        fs.alloc_bitmap
        ((bm_alloc count fs).0, (bm_alloc count fs).1.alloc_bitmap)
unfolding bm_alloc
bm_alloc-Found count fs =
    let same : 0 + (fs.data_sector_count + 1 - count) ≡ fs.data_sector_count + 1 - count =
      omega arith in
    subst
      (λ b.
        Found count 0 b fs.alloc_bitmap
          (bm_alloc_loop (fs.data_sector_count + 1 - count) 0 count fs.alloc_bitmap))
      same (bm_alloc_loop-Found (fs.data_sector_count + 1 - count) 0 count fs.alloc_bitmap)

Found-cases :
    {count bound : ℕ} {ws : List ℕ} {r : Option ℕ × List ℕ}
    → Found count 0 bound ws r
    → (r ≡ (none, ws)) × ((k : ℕ) → k < bound → run_is_free count k ws ≡ false)
      ⊎ ((k : ℕ) × (r ≡ (some k, bm_set_run count k ws))
          × (k < bound)
          × (run_is_free count k ws ≡ true))
Found-cases (no_room h) = inl (refl, λ k q. h k (omega arith) q)
Found-cases (room k p q f h) = inr (k, refl, q, f)

-- An allocation takes nothing, or a run of free sectors that exist.
pub bm_alloc-cases :
    (count : ℕ) (fs : Fs)
    → (bm_alloc count fs ≡ (none, fs))
        × ((k : ℕ) → k + count ≤ fs.data_sector_count → run_is_free count k fs.alloc_bitmap ≡ false)
      ⊎ ((k : ℕ) × (bm_alloc count fs
            ≡ (some k, record fs { alloc_bitmap = bm_set_run count k fs.alloc_bitmap }))
          × (k + count ≤ fs.data_sector_count)
          × IsFree k count fs.alloc_bitmap)
unfolding bm_alloc
bm_alloc-cases count fs = elim (Found-cases (bm_alloc-Found count fs)) [
  | inl (e, h) ↦ inl (
    (ap
        (λ (r : Option ℕ × List ℕ).
          let out : Option ℕ × Fs = (r.0, record fs { alloc_bitmap = r.1 }) in out)
        e),
    (λ k p. h k (omega arith)),
  )
  | inr (k, e, q, f) ↦ inr (
    k,
    ap
        (λ (r : Option ℕ × List ℕ).
          let out : Option ℕ × Fs = (r.0, record fs { alloc_bitmap = r.1 }) in out)
        e,
    omega arith,
    run_is_free-IsFree count k fs.alloc_bitmap f,
  )
]
