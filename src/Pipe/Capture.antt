-- ===== src/Pipe/Capture.antt =====
-- The capture buffer of pipe.c between `pipe_begin` and `pipe_end`.
use Prim.Native.Nat.{min}
use native.Mathlib.Numerals.{add-one}
use gannet_os.Base.{
  ℕ, ◌+◌, ◌-◌, ◌<◌, ◌≡◌, refl, sym, ap, ◌∙◌, inl, inr, false, List, [], ◌∷◌, ◌++◌, append-nil,
  append_assoc, arith, ltb, Bool-cases, if◌then◌else◌, length, take, get_or, set, length-set,
  take-set, take-set_le, take-nil, take-cons, get_or-set_self,
}
use gannet_os.Pipe.{Pipe, pipe_buf_size, pipe_begin, pipe_end, pipe_putchar}

-- The buffer has its size, and the write position leaves room for the terminator.
pub record IsValid (p : Pipe) : Type 0 where
  pub size : length p.pipe_buf ≡ pipe_buf_size
  pub room : p.pipe_pos < pipe_buf_size

-- The characters captured so far.
abbrev pub written : Pipe → List ℕ
written p = take p.pipe_pos p.pipe_buf

-- `while (*s) pipe_putchar(*s++)`, over the characters before the terminator.
unfoldable pub put_all : List ℕ → Pipe → Pipe
put_all [] p = p
put_all (c ∷ cs) p = put_all cs (pipe_putchar c p)

pub pipe_begin-IsValid :
    (p : Pipe)
    → length p.pipe_buf ≡ pipe_buf_size
    → IsValid (pipe_begin p) × (written (pipe_begin p) ≡ [])
unfolding pipe_begin
pipe_begin-IsValid p h = (record { size = length-set p.pipe_buf 0 0 ∙ h; room = omega arith }, refl)

pub pipe_putchar-IsValid : (c : ℕ) (p : Pipe) → IsValid p → IsValid (pipe_putchar c p)
unfolding pipe_putchar
pipe_putchar-IsValid c p v = ground (
  arith,
  length-set (set p.pipe_buf p.pipe_pos c) (p.pipe_pos + 1) 0,
  length-set p.pipe_buf p.pipe_pos c,
)

-- A character goes behind those captured so far, unless only the terminator's place is left.
written-pipe_putchar :
    (c : ℕ) (p : Pipe)
    → IsValid p
    → written (pipe_putchar c p)
      ≡ (if ltb p.pipe_pos (pipe_buf_size - 1) then written p ++ (c ∷ []) else written p)
unfolding pipe_putchar
written-pipe_putchar c p v = elim (Bool-cases (ltb p.pipe_pos (pipe_buf_size - 1))) [
  | inl room ↦ rw (room) (
      take-set_le (p.pipe_pos + 1) (p.pipe_pos + 1) (set p.pipe_buf p.pipe_pos c) 0 (omega arith)
      ∙ ap (λ k. take k (set p.pipe_buf p.pipe_pos c)) (add-one p.pipe_pos)
      ∙ take-set p.pipe_pos p.pipe_buf c (ground (arith, v.size, v.room)))
  | inr full ↦ rw full
]

pos-pipe_putchar :
    (c : ℕ) (p : Pipe)
    → (pipe_putchar c p).pipe_pos
      ≡ (if ltb p.pipe_pos (pipe_buf_size - 1) then p.pipe_pos + 1 else p.pipe_pos)
unfolding pipe_putchar
pos-pipe_putchar c p = ground arith

put_all_lem :
    (cs : List ℕ) (p : Pipe)
    → IsValid p
    → IsValid (put_all cs p)
      × (written (put_all cs p) ≡ written p ++ take (pipe_buf_size - 1 - p.pipe_pos) cs)
      × ((put_all cs p).pipe_pos ≡ min (pipe_buf_size - 1) (p.pipe_pos + length cs))
unfolding put_all
put_all_lem [] p v = (
  v,
  sym (
      ap (λ cs. written p ++ cs) (take-nil (pipe_buf_size - 1 - p.pipe_pos))
      ∙ append-nil (written p)),
  omega arith,
)
put_all_lem (c ∷ cs) p v =
    let (valid, text, pos) = put_all_lem cs (pipe_putchar c p) (pipe_putchar-IsValid c p v) in
    elim (Bool-cases (ltb p.pipe_pos (pipe_buf_size - 1))) [
      | inl room ↦
          let here : (pipe_putchar c p).pipe_pos ≡ p.pipe_pos + 1 =
            pos-pipe_putchar c p ∙ rw room in
          (
            valid,
            ground (
              arith,
              text,
              here,
              written-pipe_putchar c p v,
              append_assoc (written p) (c ∷ []) (take (pipe_buf_size - 1 - p.pipe_pos - 1) cs),
              take-cons (pipe_buf_size - 1 - p.pipe_pos) c cs,
            ),
            omega (arith, here, pos, v.room),
          )
      | inr full ↦
          let here : (pipe_putchar c p).pipe_pos ≡ p.pipe_pos = pos-pipe_putchar c p ∙ rw full in
          let last : p.pipe_pos ≡ pipe_buf_size - 1 = ground (arith, v.room) in
          (
            valid,
            ground (arith, text, here, last, written-pipe_putchar c p v),
            omega (arith, here, last, pos),
          )
    ]

-- Between `pipe_begin` and `pipe_end` any string may be written, character by character: the
-- captured array holds its first 4095 characters (all of a shorter one) in order, followed by the
-- terminator, and never reaches past the buffer.
pub pipe_end-put_all :
    (p : Pipe) (cs : List ℕ)
    → length p.pipe_buf ≡ pipe_buf_size
    → let q = (pipe_end (put_all cs (pipe_begin p))).1 in
      let buf = q.pipe_buf in
      let n = min (pipe_buf_size - 1) (length cs) in
      (take n buf ≡ take (pipe_buf_size - 1) cs)
      × (get_or buf n 1 ≡ 0)
      × (length buf ≡ pipe_buf_size)
      × (q.pipe_on ≡ false)
unfolding pipe_end pipe_begin
pipe_end-put_all p cs h =
    let (v, start) = pipe_begin-IsValid p h in
    let (w, text, pos) = put_all_lem cs (pipe_begin p) v in
    let q : Pipe = put_all cs (pipe_begin p) in
    let here : min (pipe_buf_size - 1) (length cs) ≡ q.pipe_pos = omega (arith, pos) in
    rw (here) (
      take-set_le q.pipe_pos q.pipe_pos q.pipe_buf 0 (omega arith) ∙ text,
      get_or-set_self q.pipe_buf q.pipe_pos 0 1 (omega (arith, w.size, w.room)),
      length-set q.pipe_buf q.pipe_pos 0 ∙ w.size,
      refl,
    )
