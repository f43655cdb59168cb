-- ===== src/Pipe/Stage.antt =====
-- Two stages of a pipeline over the buffers of pipe.c.
use Prim.Native.Nat.{min}
use gannet_os.Base.{
  ℕ, zero, suc, ◌-◌, ◌≤◌, ◌<◌, ◌≡◌, ◌≢◌, refl, ap, ◌∙◌, List, [], ◌∷◌, arith, ==_of_ne, length,
  take, get_or, some, length-take, set, get_or-set_self,
}
use gannet_os.Pipe.{Pipe, pipe_buf_size, pipe_begin, pipe_end, pipe_set_stdin, pipe_buffer}
use gannet_os.Pipe.Capture.{put_all, pipe_end-put_all}
use gannet_os.Pipe.Stdin.{c_string, drain, drain-rest_from}

-- No character of the text is the terminator.
abbrev pub NonNul : List ℕ → Type 0
NonNul [] = Unit
NonNul (c ∷ cs) = (c ≢ 0) × NonNul cs

take-NonNul : (n : ℕ) (cs : List ℕ) → NonNul cs → NonNul (take n cs)
take-NonNul zero cs h = tt
take-NonNul (suc n) [] h = tt
take-NonNul (suc n) (c ∷ cs) h = (h.0, take-NonNul n cs h.1)

c_string-take :
    (n : ℕ) (buf : List ℕ) → NonNul (take n buf) → get_or buf n 1 ≡ 0 → c_string buf ≡ take n buf
unfolding c_string
c_string-take n [] h e = absurd (omega arith)
c_string-take zero (c ∷ buf) h e = rw e refl
c_string-take (suc n) (c ∷ buf) h e =
    rw (==_of_ne c 0 h.0) (ap (λ cs. c ∷ cs) (c_string-take n buf h.1 e))

-- A stage writes any text with no NUL in it, and the next stage reads it by the pointer that
-- pipe_end returns, in pieces of any size of at least 2 and at least 4096 times. If that stage is
-- the last one, exactly the first 4095 characters arrive, in order, and all of a shorter text. If
-- its own output is captured, so that pipe_begin comes behind pipe_set_stdin, nothing arrives while
-- it only reads, since the string that it reads is the buffer that pipe_begin empties.
pub drain-pipe_end :
    (p : Pipe) (cs buf : List ℕ) (reads maxlen : ℕ)
    → length p.pipe_buf ≡ pipe_buf_size
    → NonNul cs
    → 1 < maxlen
    → maxlen ≤ length buf
    → pipe_buf_size ≤ reads
    → let (at, q) = pipe_end (put_all cs (pipe_begin p)) in
      let next = pipe_set_stdin (some at) q in
      (drain reads maxlen buf next ≡ take (pipe_buf_size - 1) cs)
      × (drain reads maxlen buf (pipe_begin next) ≡ [])
unfolding pipe_end pipe_set_stdin pipe_begin c_string
drain-pipe_end p cs buf reads maxlen size nn h fits enough =
    let (text, end, whole_size, _) = pipe_end-put_all p cs size in
    let n : ℕ = min (pipe_buf_size - 1) (length cs) in
    let q : Pipe = (pipe_end (put_all cs (pipe_begin p))).1 in
    let kept = take-NonNul (pipe_buf_size - 1) cs nn in
    let whole : c_string q.pipe_buf ≡ take (pipe_buf_size - 1) cs =
      c_string-take n q.pipe_buf (rw text kept) end ∙ text in
    let next : Pipe = pipe_set_stdin (some pipe_buffer) q in
    let emptied : c_string (set q.pipe_buf 0 0) ≡ [] =
      c_string-take 0 (set q.pipe_buf 0 0) tt
        (get_or-set_self q.pipe_buf 0 0 1 (omega (arith, whole_size))) in
    (
      drain-rest_from reads maxlen buf q.pipe_buf next h fits refl
            (omega (arith, ap length whole, length-take (pipe_buf_size - 1) cs))
          ∙ whole,
      drain-rest_from reads maxlen buf (set q.pipe_buf 0 0) (pipe_begin next) h fits refl
            (omega (arith, ap length emptied))
          ∙ emptied,
    )
