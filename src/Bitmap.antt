-- ===== src/Bitmap.antt =====
-- Allocation bitmaps: an array of 32-bit words, bit `i` in word `i / 32`. The physical memory
-- manager (kernel/mem/pmm.c) and the file system (filesys/fs.c) each keep one, with the same
-- three accessors.
use gannet_os.Base.{
  ℕ, ◌*◌, ◌/◌, ◌%◌, ◌<◌, ◌≡◌, ap, ◌∙◌, Bool, true, false, inl, inr, List, arith, ◌==◌,
  if◌then◌else◌, ==_iff, Bool-cases, get_or, set, length, length-set, replicate, get_or-set_self,
  get_or-set_ne, get_or-replicate, test_bit, set_bit, clear_bit, test_bit-zero, test_bit-set_bit,
  test_bit-clear_bit,
}

-- `bitmap[i / 32]`. A read out of range is the caller's fault; the laws below exclude it.
abbrev pub word_of : List ℕ → ℕ → ℕ
word_of ws i = get_or ws (i / 32) 0

unfoldable pub test : List ℕ → ℕ → Bool
test ws i = test_bit (word_of ws i) (i % 32)

unfoldable pub mark : List ℕ → ℕ → List ℕ
mark ws i = set ws (i / 32) (set_bit (word_of ws i) (i % 32))

unfoldable pub clear : List ℕ → ℕ → List ℕ
clear ws i = set ws (i / 32) (clear_bit (word_of ws i) (i % 32))

pub length-mark : (ws : List ℕ) (i : ℕ) → length (mark ws i) ≡ length ws
unfolding mark
length-mark ws i = length-set ws (i / 32) _

pub length-clear : (ws : List ℕ) (i : ℕ) → length (clear ws i) ≡ length ws
unfolding clear
length-clear ws i = length-set ws (i / 32) _

-- Setting a bit inside the array changes the test of that bit alone.
pub test-mark :
    (ws : List ℕ) (i j : ℕ)
    → i < length ws * 32
    → test (mark ws i) j ≡ (if i == j then true else test ws j)
unfolding test mark
test-mark ws i j h = elim (Bool-cases (i / 32 == j / 32)) [
  | inl same ↦ ground (
    arith,
    get_or-set_self ws (i / 32) (set_bit (word_of ws i) (i % 32)) 0,
    test_bit-set_bit (word_of ws i) (i % 32) (j % 32),
    ap (get_or ws) ((==_iff (i / 32) (j / 32)).0 same),
  )
  | inr other ↦
      ground (arith, get_or-set_ne ws (i / 32) (j / 32) (set_bit (word_of ws i) (i % 32)) 0)
]

pub test-clear :
    (ws : List ℕ) (i j : ℕ)
    → i < length ws * 32
    → test (clear ws i) j ≡ (if i == j then false else test ws j)
unfolding test clear
test-clear ws i j h = elim (Bool-cases (i / 32 == j / 32)) [
  | inl same ↦ ground (
    arith,
    get_or-set_self ws (i / 32) (clear_bit (word_of ws i) (i % 32)) 0,
    test_bit-clear_bit (word_of ws i) (i % 32) (j % 32),
    ap (get_or ws) ((==_iff (i / 32) (j / 32)).0 same),
  )
  | inr other ↦
      ground (arith, get_or-set_ne ws (i / 32) (j / 32) (clear_bit (word_of ws i) (i % 32)) 0)
]

pub test-replicate : (n i : ℕ) → i < n * 32 → test (replicate n 0) i ≡ false
unfolding test
test-replicate n i h =
    ap (λ w. test_bit w (i % 32)) (get_or-replicate n 0 0 (i / 32) (omega arith))
    ∙ test_bit-zero (i % 32)
