-- ===== src/Pmm/Frames.antt =====
-- What `pmm_alloc_frame` and `pmm_free_frame` do to the set of frames in use.
use gannet_os.Base.{
  ℕ, zero, suc, ◌+◌, ◌-◌, ◌*◌, ◌/◌, ◌≤◌, ◌<◌, ◌≡◌, refl, ap, ◌∙◌, ◌⊎◌, inl, inr, true, false, arith,
  ltb, leb, ◌||◌, ◌==◌, if◌then◌else◌, Bool-cases, ap_of_==, length, length-replicate,
}
use gannet_os.Bitmap
use gannet_os.Pmm.{
  Pmm, Memory, frame_size, pool_start, pool_end, pool_frames, bitmap_words, frame_address, store,
  bitmap_set, bitmap_clear, bitmap_test, init, zero_bytes, take_frame, alloc_loop, alloc_frame,
  free_frame,
}

pub record IsValid (s : Pmm) : Type 0 where
  pub words : length s.bitmap ≡ bitmap_words

-- The frame that a physical address in the pool lies in.
abbrev pub frame_of : ℕ → ℕ
frame_of a = (a - pool_start) / frame_size

zero_bytes_lem :
    (n a : ℕ) (m : Memory) (x : ℕ)
    → zero_bytes n a m x ≡ (if ltb x a then m x else if ltb x (a + n) then 0 else m x)
unfolding zero_bytes
zero_bytes_lem zero a m x = ground arith
zero_bytes_lem (suc n) a m x = ground (arith, zero_bytes_lem n (a + 1) (store m a 0) x)

zero_bytes-inside : (n a : ℕ) (m : Memory) (x : ℕ) → a ≤ x → x < a + n → zero_bytes n a m x ≡ 0
zero_bytes-inside n a m x p q = ground (arith, zero_bytes_lem n a m x)

zero_bytes-outside :
    (n a : ℕ) (m : Memory) (x : ℕ) → (x < a) ⊎ (a + n ≤ x) → zero_bytes n a m x ≡ m x
zero_bytes-outside n a m x h = ground (arith, zero_bytes_lem n a m x)

-- `r` is what handing out frame `i` from `s` gives: its address, its bit set and no other, its
-- bytes cleared and no others.
pub record Claims (s : Pmm) (i : ℕ) (r : ℕ × Pmm) : Type 0 where
  pub in_pool : i < pool_frames
  pub was_free : bitmap_test s i ≡ false
  pub address : r.0 ≡ pool_start + i * frame_size
  pub marked : (j : ℕ) → bitmap_test r.1 j ≡ (if i == j then true else bitmap_test s j)
  pub cleared : (x : ℕ) → r.0 ≤ x → x < r.0 + frame_size → r.1.memory x ≡ 0
  pub kept : (x : ℕ) → (x < r.0) ⊎ (r.0 + frame_size ≤ x) → r.1.memory x ≡ s.memory x
  pub valid : IsValid r.1

take_frame-Claims :
    (s : Pmm) (i : ℕ)
    → IsValid s
    → i < pool_frames
    → bitmap_test s i ≡ false
    → Claims s i (take_frame i s)
unfolding take_frame bitmap_set bitmap_test
take_frame-Claims s i v h free = record {
  in_pool = h;
  was_free = free;
  address = omega arith;
  marked = λ j. Bitmap.test-mark s.bitmap i j (omega (arith, v.words));
  cleared = zero_bytes-inside frame_size (frame_address i) s.memory;
  kept = zero_bytes-outside frame_size (frame_address i) s.memory;
  valid = record { words = Bitmap.length-mark s.bitmap i ∙ v.words };
}

-- The outcome of a search through the frames `[i, i + n)`.
abbrev SearchOutcome : Pmm → ℕ → ℕ → ℕ × Pmm → Type 0
SearchOutcome s i n r =
    (((j : ℕ) → i ≤ j → j < i + n → bitmap_test s j ≡ true) × (r ≡ (0, s)))
    ⊎ ((k : ℕ) × Claims s k r × ((j : ℕ) → i ≤ j → j < k → bitmap_test s j ≡ true))

alloc_loop-SearchOutcome :
    (n i : ℕ) (s : Pmm) → IsValid s → i + n ≤ pool_frames → SearchOutcome s i n (alloc_loop n i s)
unfolding alloc_loop
alloc_loop-SearchOutcome zero i s v h = inl (λ j p q. absurd (omega arith), refl)
alloc_loop-SearchOutcome (suc n) i s v h = elim (Bool-cases (bitmap_test s i)) [
  | inl used ↦ rw used (extend (alloc_loop-SearchOutcome n (i + 1) s v (omega arith)) used)
  | inr free ↦
      rw free (inr (i, take_frame-Claims s i v (omega arith) free, λ j p q. absurd (omega arith)))
]
  where
    extend :
        {r : ℕ × Pmm}
        → SearchOutcome s (i + 1) n r
        → bitmap_test s i ≡ true
        → SearchOutcome s i (suc n) r
    extend (inl (all, e)) used = inl (
      λ j p q. elim (Bool-cases (i == j)) [
        | inl same ↦ ap (bitmap_test s) (ground arith) ∙ used
        | inr other ↦ all j (ground arith) (omega arith)
      ],
      e,
    )
    extend (inr (k, c, below)) used = inr (
      k,
      c,
      λ j p q. elim (Bool-cases (i == j)) [
        | inl same ↦ ap (bitmap_test s) (ground arith) ∙ used
        | inr other ↦ below j (ground arith) q
      ],
    )

-- After `pmm_init` every frame of the pool is free.
pub init-free :
    (s : Pmm) → IsValid (init s) × ((i : ℕ) → i < pool_frames → bitmap_test (init s) i ≡ false)
unfolding init bitmap_test
init-free s = (
  record { words = length-replicate {A = ℕ} bitmap_words 0 },
  λ i h. Bitmap.test-replicate bitmap_words i (omega arith),
)

-- On a valid bitmap `pmm_alloc_frame` either finds every frame of the pool in use, returns 0 and
-- changes nothing, or it claims a free frame, and every frame below that one is in use: it returns
-- the frame's address, sets its bit and no other, and clears its bytes and no others.
pub alloc_frame_lem :
    (s : Pmm)
    → IsValid s
    → (((j : ℕ) → j < pool_frames → bitmap_test s j ≡ true) × (alloc_frame s ≡ (0, s)))
      ⊎ ((i : ℕ) × Claims s i (alloc_frame s) × ((j : ℕ) → j < i → bitmap_test s j ≡ true))
unfolding alloc_frame
alloc_frame_lem s v = elim (alloc_loop-SearchOutcome pool_frames 0 s v (omega arith)) [
  | inl (all, e) ↦ inl (λ j h. all j (omega arith) (omega arith), e)
  | inr (i, c, below) ↦ inr (i, c, λ j h. below j (omega arith) h)
]

pub free_frame-outside : (a : ℕ) (s : Pmm) → (a < pool_start) ⊎ (pool_end ≤ a) → free_frame a s ≡ s
unfolding free_frame
free_frame-outside a s h = ground arith

-- Freeing any address in the pool clears the bit of its frame and no other, and touches no memory.
pub free_frame-inside :
    (a : ℕ) (s : Pmm)
    → IsValid s
    → pool_start ≤ a
    → a < pool_end
    → IsValid (free_frame a s)
      × ((j : ℕ)
          → bitmap_test (free_frame a s) j ≡ (if frame_of a == j then false else bitmap_test s j))
      × ((free_frame a s).memory ≡ s.memory)
unfolding free_frame bitmap_clear bitmap_test
free_frame-inside a s v lo hi = rw (inside) (
  record { words = Bitmap.length-clear s.bitmap (frame_of a) ∙ v.words },
  λ j. Bitmap.test-clear s.bitmap (frame_of a) j (omega (arith, v.words)),
  refl,
)
  where
    inside : (ltb a pool_start || leb pool_end a) ≡ false
    inside = ground arith

-- A frame that is allocated and freed again leaves the same frames in use.
pub free_frame-alloc_frame :
    (s : Pmm)
    → IsValid s
    → (j : ℕ) → let (a, t) = alloc_frame s in bitmap_test (free_frame a t) j ≡ bitmap_test s j
free_frame-alloc_frame s v j = elim (alloc_frame_lem s v) [
  | inl (all, e) ↦ rw e (ap (λ t. bitmap_test t j) (free_frame-outside 0 s (inl (omega arith))))
  | inr (i, c, below) ↦ restored i c
]
  where
    restored :
        (i : ℕ)
        → Claims s i (alloc_frame s)
        → bitmap_test (free_frame (alloc_frame s).0 (alloc_frame s).1) j ≡ bitmap_test s j
    restored i c =
        let lo : pool_start ≤ (alloc_frame s).0 = omega (arith, c.in_pool, c.address) in
        let hi : (alloc_frame s).0 < pool_end = omega (arith, c.in_pool, c.address) in
        let same : frame_of (alloc_frame s).0 ≡ i = omega (arith, c.in_pool, c.address) in
        ground (
          arith,
          (free_frame-inside (alloc_frame s).0 (alloc_frame s).1 c.valid lo hi).1 j,
          c.marked j,
          c.was_free,
          same,
          ap_of_== (bitmap_test s) i j,
        )
