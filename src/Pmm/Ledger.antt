-- ===== src/Pmm/Ledger.antt =====
-- The manager seen by its clients: a ledger of the frames that have been handed out and not given
-- back.
use gannet_os.Base.{
  ℕ, ◌+◌, ◌*◌, ◌%◌, ◌≤◌, ◌<◌, ◌≡◌, ◌≢◌, refl, ap, ◌∙◌, inl, inr, Bool, true, false, ◌||◌, List, [],
  ◌∷◌, arith, ◌==◌, if◌then◌else◌, ==_iff, ==_of_ne, ap_of_==, Bool-cases,
}
use gannet_os.Pmm.{Pmm, frame_size, pool_start, pool_end, bitmap_test, alloc_frame, free_frame}
use gannet_os.Pmm.Frames.{IsValid, Claims, frame_of, alloc_frame_lem, free_frame-inside}

abbrev pub has : ℕ → List ℕ → Bool
has a [] = false
has a (b ∷ bs) = (a == b) || has a bs

-- drops the first occurrence
abbrev pub without : ℕ → List ℕ → List ℕ
without a [] = []
without a (b ∷ bs) = if a == b then bs else b ∷ without a bs

abbrev pub Distinct : List ℕ → Type 0
Distinct [] = Unit
Distinct (b ∷ bs) = (has b bs ≡ false) × Distinct bs

pub data Call : Type 0 where
  take : Call
  give : ℕ → Call

pub record Ledger : Type 0 where
  pub held : List ℕ
  pub pmm : Pmm

unfoldable pub step : Ledger → Call → Ledger
step l take =
    let (a, t) = alloc_frame l.pmm in
    record { held = if a == 0 then l.held else a ∷ l.held; pmm = t }
step l (give a) = record { held = without a l.held; pmm = free_frame a l.pmm }

pub run : Ledger → List Call → Ledger
run l [] = l
run l (c ∷ cs) = run (step l c) cs

-- Every frame that is given back is held at that time.
unfoldable pub AllHeld : Ledger → List Call → Type 0
AllHeld l [] = Unit
AllHeld l (take ∷ cs) = AllHeld (step l take) cs
AllHeld l (give a ∷ cs) = (has a l.held ≡ true) × AllHeld (step l (give a)) cs

-- The start of a frame of the pool.
abbrev pub IsFrame : ℕ → Type 0
IsFrame a = (pool_start ≤ a) × (a < pool_end) × (a % frame_size ≡ 0)

-- No two clients hold the same frame, and every frame held is a frame of the pool that is in use.
pub record IsSafe (l : Ledger) : Type 0 where
  pub valid : IsValid l.pmm
  pub distinct : Distinct l.held
  pub frames : (a : ℕ) → has a l.held ≡ true → IsFrame a × (bitmap_test l.pmm (frame_of a) ≡ true)

has-without : (a b : ℕ) (bs : List ℕ) → has a (without b bs) ≡ true → has a bs ≡ true
has-without a b [] h = h
has-without a b (c ∷ bs) h = ground (arith, has-without a b bs)

Distinct-without : (b : ℕ) (bs : List ℕ) → Distinct bs → Distinct (without b bs)
Distinct-without b [] d = tt
Distinct-without b (c ∷ bs) d = elim (Bool-cases (b == c)) [
  | inl same ↦ rw same d.1
  | inr other ↦ rw other (still, Distinct-without b bs d.1)
]
  where
    still : has c (without b bs) ≡ false
    still = elim (Bool-cases (has c (without b bs))) [
      | inl yes' ↦ ground (arith, has-without c b bs yes')
      | inr no' ↦ no'
    ]

without-removes : (a : ℕ) (bs : List ℕ) → Distinct bs → has a (without a bs) ≡ false
without-removes a [] d = refl
without-removes a (c ∷ bs) d = ground (arith, without-removes a bs, ap_of_== (λ b. has b bs) a c)

module _ (l : Ledger) (safe : IsSafe l) where
  -- A frame that the manager hands out is held by nobody.
  take-fresh :
      (i : ℕ) → Claims l.pmm i (alloc_frame l.pmm) → has (alloc_frame l.pmm).0 l.held ≡ false
  take-fresh i c = elim (Bool-cases (has (alloc_frame l.pmm).0 l.held)) [
    | inl held ↦
        let same : frame_of (alloc_frame l.pmm).0 ≡ i = omega (arith, c.in_pool, c.address) in
        let used = (safe.frames (alloc_frame l.pmm).0 held).1 in
        cc (used, c.was_free, ap (bitmap_test l.pmm) same)
    | inr free ↦ free
  ]

  taken :
      (i : ℕ)
      → Claims l.pmm i (alloc_frame l.pmm)
      → (x : ℕ) → has x ((alloc_frame l.pmm).0 ∷ l.held) ≡ true
      → IsFrame x × (bitmap_test (alloc_frame l.pmm).1 (frame_of x) ≡ true)
  taken i c x h = elim (Bool-cases (x == (alloc_frame l.pmm).0)) [
    | inl same ↦
        let e : x ≡ pool_start + i * frame_size = (==_iff _ _).0 same ∙ c.address in
        let f : frame_of x ≡ i = omega (arith, c.in_pool, e) in
        (omega (arith, c.in_pool, e), ground (arith, c.marked (frame_of x), f))
    | inr other ↦
        let old = safe.frames x (ground arith) in
        (old.0, ground (arith, old.1, c.marked (frame_of x)))
  ]

  take-IsSafe : IsSafe (step l take)
  unfolding step
  take-IsSafe = elim (alloc_frame_lem l.pmm safe.valid) [
    | inl (all, e) ↦ rw e safe
    | inr (i, c, below) ↦
        rw (==_of_ne (alloc_frame l.pmm).0 0 (omega (arith, c.address))) (record {
          valid = c.valid;
          distinct = (take-fresh i c, safe.distinct);
          frames = taken i c;
        })
  ]

  given :
      (a : ℕ)
      → has a l.held ≡ true
      → IsSafe (record { held = without a l.held; pmm = free_frame a l.pmm })
  given a held =
      let (frame, used) = safe.frames a held in
      let freed = free_frame-inside a l.pmm safe.valid frame.0 frame.1 in
      record {
        valid = freed.0;
        distinct = Distinct-without a l.held safe.distinct;
        frames = λ x h.
            let old = safe.frames x (has-without x a l.held h) in
            let apart = without-removes a l.held safe.distinct in
            (
              old.0,
              ground
                  (arith, freed.1 (frame_of x), old.1, differ x a old.0 frame, clash x a apart h),
            );
      }
    where
      clash : (x b : ℕ) → has b (without b l.held) ≡ false → has x (without b l.held) ≡ true → x ≢ b
      clash x b p q e = cc

      differ : (x b : ℕ) → IsFrame x → IsFrame b → x ≢ b → frame_of b ≢ frame_of x
      differ x b p q ne e = ne (omega arith)

  give-IsSafe : (a : ℕ) → has a l.held ≡ true → IsSafe (step l (give a))
  unfolding step
  give-IsSafe a held = given a held

-- Let clients give back only frames that they hold, each once, by the address that they were handed;
-- free_frame does not check it. Then the manager never hands out a frame that somebody holds: from
-- a safe ledger, every such sequence of calls leads to a ledger with no frame held twice, and in
-- which every frame held lies in the pool and is marked as in use.
pub run-IsSafe : (l : Ledger) (cs : List Call) → AllHeld l cs → IsSafe l → IsSafe (run l cs)
unfolding run AllHeld
run-IsSafe l [] held safe = safe
run-IsSafe l (take ∷ cs) held safe = run-IsSafe (step l take) cs held (take-IsSafe l safe)
run-IsSafe l (give a ∷ cs) held safe =
    run-IsSafe (step l (give a)) cs held.1 (give-IsSafe l safe a held.0)
