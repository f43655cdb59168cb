-- ===== src/Pmm/Tests.antt =====
-- The frame manager at concrete bitmaps.
use gannet_os.Base.{
  ℕ, ◌+◌, ◌*◌, ◌<◌, ◌≡◌, refl, ◌⊎◌, true, List, [], ◌∷◌, replicate, test_bit, set_bit,
}
use gannet_os.Bitmap
use gannet_os.Pmm.{
  Pmm, pool_start, pool_frames, bitmap_test, alloc_loop, take_frame, alloc_frame, free_frame,
}
use gannet_os.Pmm.Frames.{IsValid, Claims, alloc_frame_lem, free_frame-alloc_frame}
use gannet_os.Pmm.Ledger.{Ledger, IsSafe, Call, take, give, step, AllHeld, run, run-IsSafe}

-- the first 33 frames are in use
abbrev partly : Pmm
partly = record { bitmap = 0xffffffff ∷ 1 ∷ replicate 254 0; memory = λ a. 7 }

first_free : (alloc_frame partly).0 ≡ pool_start + 33 * 4096
unfolding alloc_frame alloc_loop take_frame bitmap_test Bitmap.test test_bit
first_free = refl

partly-IsValid : IsValid partly
partly-IsValid = record { words = refl }

alloc_frame_lem_example :
    (((j : ℕ) → j < pool_frames → bitmap_test partly j ≡ true) × (alloc_frame partly ≡ (0, partly)))
    ⊎ ((i : ℕ) × Claims partly i (alloc_frame partly)
        × ((j : ℕ) → j < i → bitmap_test partly j ≡ true))
alloc_frame_lem_example = alloc_frame_lem partly partly-IsValid

free_frame-alloc_frame_example :
    let (a, t) = alloc_frame partly in bitmap_test (free_frame a t) 33 ≡ bitmap_test partly 33
free_frame-alloc_frame_example = free_frame-alloc_frame partly partly-IsValid 33

abbrev start : Ledger
start = record { held = []; pmm = partly }

start-IsSafe : IsSafe start
start-IsSafe = record { valid = partly-IsValid; distinct = tt; frames = λ a h. cc }

abbrev calls : List Call
calls = take ∷ take ∷ give (pool_start + 33 * 4096) ∷ take ∷ []

calls-AllHeld : AllHeld start calls
unfolding AllHeld step alloc_frame alloc_loop take_frame bitmap_test Bitmap.test test_bit
    Bitmap.mark set_bit
calls-AllHeld = (refl, tt)

run-IsSafe_example : IsSafe (run start calls)
run-IsSafe_example = run-IsSafe start calls calls-AllHeld start-IsSafe
