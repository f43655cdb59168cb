-- ===== src/Pmm.antt =====
-- The physical memory manager, kernel/mem/pmm.c: a bitmap over a fixed pool of 4 KB frames.
-- The state is the bitmap and the physical memory that `pmm_alloc_frame` clears through the
-- identity map; a memory is a function from a physical address to its byte.
pub mod Frames
pub mod Ledger
mod Tests
use gannet_os.Base.{
  ℕ, zero, suc, ◌+◌, ◌-◌, ◌*◌, ◌/◌, ◌%◌, ◌^◌, Bool, true, false, not, ◌||◌, List, arith, ltb, leb,
  ◌==◌, if◌then◌else◌, replicate,
}
use gannet_os.Bitmap

abbrev pub frame_size : ℕ
frame_size = 4096

abbrev pub pool_start : ℕ
pool_start = 0x02000000

abbrev pub pool_end : ℕ
pool_end = 0x04000000

abbrev pub pool_frames : ℕ
pool_frames = (pool_end - pool_start) / frame_size

abbrev pub bitmap_words : ℕ
bitmap_words = (pool_frames + 31) / 32

abbrev pub Memory : Type 0
Memory = ℕ → ℕ

pub record Pmm : Type 0 where
  pub bitmap : List ℕ
  pub memory : Memory

unfoldable pub bitmap_set : Pmm → ℕ → Pmm
bitmap_set s index = record s { bitmap = Bitmap.mark s.bitmap index }

unfoldable pub bitmap_clear : Pmm → ℕ → Pmm
bitmap_clear s index = record s { bitmap = Bitmap.clear s.bitmap index }

unfoldable pub bitmap_test : Pmm → ℕ → Bool
bitmap_test s index = Bitmap.test s.bitmap index

unfoldable pub init : Pmm → Pmm
init s = record s { bitmap = replicate bitmap_words 0 }

abbrev pub store : Memory → ℕ → ℕ → Memory
store m a v x = if a == x then v else m x

-- The loop that clears a frame, with the number of bytes left.
pub zero_bytes : ℕ → ℕ → Memory → Memory
zero_bytes zero a m = m
zero_bytes (suc left) a m = zero_bytes left (a + 1) (store m a 0)

abbrev pub frame_address : ℕ → ℕ
frame_address i = (pool_start + i * frame_size) % 2 ^ 32

-- What `pmm_alloc_frame` does with the first clear bit that it finds.
pub take_frame : ℕ → Pmm → ℕ × Pmm
unfolding bitmap_set
take_frame i s =
    let t = bitmap_set s i in
    (frame_address i, record t { memory = zero_bytes frame_size (frame_address i) t.memory })

-- The search of `pmm_alloc_frame` from frame `i` on, with the number of frames left.
pub alloc_loop : ℕ → ℕ → Pmm → ℕ × Pmm
unfolding bitmap_test
alloc_loop zero i s = (0, s)
alloc_loop (suc left) i s =
    let rest = alloc_loop left (i + 1) s in if not (bitmap_test s i) then take_frame i s else rest

pub alloc_frame : Pmm → ℕ × Pmm
alloc_frame s = alloc_loop pool_frames 0 s

unfoldable pub free_frame : ℕ → Pmm → Pmm
unfolding bitmap_clear
free_frame phys_addr s =
    if ltb phys_addr pool_start || leb pool_end phys_addr
    then s
    else bitmap_clear s ((phys_addr - pool_start) / frame_size)
