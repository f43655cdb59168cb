-- ===== src/Pipe/Stdin.antt =====
-- The reads of a stage from its input, pipe_set_stdin and pipe_read_stdin of pipe.c.
use Prim.Native.Nat.{min}
use native.Mathlib.Numerals.{add-one}
use gannet_os.Base.{
  ℕ, zero, suc, ◌+◌, ◌-◌, ◌≤◌, ◌<◌, ◌≡◌, ◌≢◌, refl, sym, ap, ◌∙◌, inl, inr, some, List, [], ◌∷◌,
  ◌++◌, append-nil, append_assoc, arith, ◌==◌, ==_iff, Bool-cases, if◌then◌else◌, length, take,
  drop, get_or, set, drop-nil, take-append-drop, length-set, take-set, take-set_le,
  eq-nil_of_length, length-drop, get_or-set_self,
}
use gannet_os.Pipe.{Pipe, pipe_set_stdin, pipe_read_stdin, read_loop, StringAt, stdin_array}

-- The string in an array: its elements before the terminator, or all of them.
unfoldable pub c_string : List ℕ → List ℕ
c_string [] = []
c_string (c ∷ cs) = if c == 0 then [] else c ∷ c_string cs

-- What `pipe_read_stdin` has still to deliver from position `pos`.
abbrev pub rest_from : List ℕ → ℕ → List ℕ
rest_from str pos = c_string (drop pos str)

rest_from-nil : (str : List ℕ) (pos : ℕ) → get_or str pos 0 ≡ 0 → rest_from str pos ≡ []
unfolding c_string
rest_from-nil [] pos h = ap c_string (drop-nil pos)
rest_from-nil (c ∷ str) zero h = rw (h)
rest_from-nil (c ∷ str) (suc pos) h = rest_from-nil str pos h

rest_from-cons :
    (str : List ℕ) (pos : ℕ)
    → get_or str pos 0 ≢ 0
    → rest_from str pos ≡ get_or str pos 0 ∷ rest_from str (suc pos)
unfolding c_string
rest_from-cons [] pos h = absurd (h refl)
rest_from-cons (c ∷ str) zero h = ground (arith, h)
rest_from-cons (c ∷ str) (suc pos) h = rest_from-cons str pos h

-- What a read of at most `left` characters delivers, and where it stops.
pub record Delivered (left : ℕ) (str : List ℕ) (pos n : ℕ) (buf : List ℕ) (r : ℕ × ℕ × List ℕ)
    : Type 0 where
  text : take r.1 r.2 ≡ take n buf ++ take left (rest_from str pos)
  count : r.1 ≡ n + min left (length (rest_from str pos))
  rest : rest_from str r.0 ≡ drop left (rest_from str pos)
  size : length r.2 ≡ length buf

read_loop-Delivered :
    (left : ℕ) (str : List ℕ) (pos n : ℕ) (buf : List ℕ)
    → n + left < length buf
    → Delivered left str pos n buf (read_loop left str pos n buf)
unfolding read_loop
read_loop-Delivered zero str pos n buf h = record {
  text = sym (append-nil (take n buf));
  count = omega arith;
  rest = refl;
  size = refl;
}
read_loop-Delivered (suc left) str pos n buf h = elim (Bool-cases (get_or str pos 0 == 0)) [
  | inl end ↦ rw end (stopped (rest_from-nil str pos ((==_iff _ 0).0 end)))
  | inr more ↦
      let size : length (set buf n (get_or str pos 0)) ≡ length buf = length-set buf n _ in
      let ih =
        read_loop-Delivered left str (pos + 1) (n + 1) (set buf n (get_or str pos 0))
          (omega (arith, size)) in
      rw more (extend ih size (rest_from-cons str pos (λ e. ground arith)))
]
  where
    stopped : rest_from str pos ≡ [] → Delivered (suc left) str pos n buf (pos, n, buf)
    stopped e = record {
      text = rw e (sym (append-nil (take n buf)));
      count = rw e (omega arith);
      rest = rw e refl;
      size = refl;
    }

    extend :
        {r : ℕ × ℕ × List ℕ}
        → Delivered left str (pos + 1) (n + 1) (set buf n (get_or str pos 0)) r
        → length (set buf n (get_or str pos 0)) ≡ length buf
        → rest_from str pos ≡ get_or str pos 0 ∷ rest_from str (suc pos)
        → Delivered (suc left) str pos n buf r
    extend ih size e =
        let next : pos + 1 ≡ suc pos = add-one pos in
        let grown : take (n + 1) (set buf n (get_or str pos 0))
            ≡ take n buf ++ (get_or str pos 0 ∷ []) =
          ap (λ k. take k (set buf n (get_or str pos 0))) (add-one n)
          ∙ take-set n buf (get_or str pos 0) (omega arith) in
        record {
          text = rw e (
              ih.text
              ∙ rw (grown, next)
                  (append_assoc (take n buf) (get_or str pos 0 ∷ [])
                    (take left (rest_from str (suc pos)))));
          count = rw e (omega (arith, ih.count, ap (λ k. length (rest_from str k)) next));
          rest = rw e (ih.rest ∙ ap (λ k. drop left (rest_from str k)) next);
          size = ih.size ∙ size;
        }

pipe_read_stdin-some :
    (buf str : List ℕ) (maxlen : ℕ) (p : Pipe)
    → 0 < maxlen
    → stdin_array p ≡ some str
    → pipe_read_stdin buf maxlen p ≡ (
        let (pos, n, filled) = read_loop (maxlen - 1) str p.stdin_pos 0 buf in
        (n, set filled n 0, record p { stdin_pos = pos }))
unfolding pipe_read_stdin
pipe_read_stdin-some buf str maxlen p h e = ground arith

-- A read with room for `maxlen` bytes returns the next characters of the string, as many as there
-- are up to `maxlen - 1`, puts them at the front of the buffer with a terminator behind them, and
-- leaves the rest of the string for the next read.
pub pipe_read_stdin_lem :
    (buf str : List ℕ) (maxlen : ℕ) (p : Pipe)
    → 0 < maxlen
    → maxlen ≤ length buf
    → stdin_array p ≡ some str
    → let (n, out, q) = pipe_read_stdin buf maxlen p in
      let waiting = rest_from str p.stdin_pos in
      (n ≡ min (maxlen - 1) (length waiting))
      × (take n out ≡ take (maxlen - 1) waiting)
      × (get_or out n 1 ≡ 0)
      × (rest_from str q.stdin_pos ≡ drop (maxlen - 1) waiting)
      × (stdin_array q ≡ some str)
      × (length out ≡ length buf)
pipe_read_stdin_lem buf str maxlen p h fits e = rw (pipe_read_stdin-some buf str maxlen p h e) (
  omega (arith, got.count),
  take-set_le n n filled 0 (omega arith) ∙ got.text,
  get_or-set_self filled n 0 1 (omega (arith, got.count, got.size)),
  got.rest,
  e,
  length-set filled n 0 ∙ got.size,
)
  where
    got :
        Delivered (maxlen - 1) str p.stdin_pos 0 buf (read_loop (maxlen - 1) str p.stdin_pos 0 buf)
    got = read_loop-Delivered (maxlen - 1) str p.stdin_pos 0 buf (omega arith)

    n : ℕ
    n = (read_loop (maxlen - 1) str p.stdin_pos 0 buf).1

    filled : List ℕ
    filled = (read_loop (maxlen - 1) str p.stdin_pos 0 buf).2

-- A stage that reads until a read returns 0, with the number of reads it may make.
pub drain : ℕ → ℕ → List ℕ → Pipe → List ℕ
drain zero maxlen buf p = []
drain (suc reads) maxlen buf p =
    let (n, out, q) = pipe_read_stdin buf maxlen p in
    let rest = drain reads maxlen out q in if n == 0 then [] else take n out ++ rest

pub drain-rest_from :
    (reads maxlen : ℕ) (buf str : List ℕ) (p : Pipe)
    → 1 < maxlen
    → maxlen ≤ length buf
    → stdin_array p ≡ some str
    → length (rest_from str p.stdin_pos) < reads
    → drain reads maxlen buf p ≡ rest_from str p.stdin_pos
unfolding drain
drain-rest_from zero maxlen buf str p h fits e enough = absurd (omega arith)
drain-rest_from (suc reads) maxlen buf str p h fits e enough =
    let (count, text, end, rest, same, size) =
      pipe_read_stdin_lem buf str maxlen p (omega arith) fits e in
    let (n, out, q) = pipe_read_stdin buf maxlen p in
    elim (Bool-cases (n == 0)) [
      | inl done ↦ rw done (sym (eq-nil_of_length (rest_from str p.stdin_pos) (ground arith)))
      | inr more ↦
          let fewer : length (rest_from str q.stdin_pos) < reads =
            ground (arith, ap length rest, length-drop (maxlen - 1) (rest_from str p.stdin_pos)) in
          let others = drain-rest_from reads maxlen out str q h (omega arith) same fewer in
          rw (more, others, text, rest) (take-append-drop (maxlen - 1) (rest_from str p.stdin_pos))
    ]

-- Reads of any size of at least 2 deliver the whole string that was set, in order, in as many
-- reads as it has characters and one more.
pub drain-pipe_set_stdin :
    (reads maxlen : ℕ) (buf str : List ℕ) (at : StringAt) (p : Pipe)
    → stdin_array (pipe_set_stdin (some at) p) ≡ some str
    → 1 < maxlen
    → maxlen ≤ length buf
    → length (c_string str) < reads
    → drain reads maxlen buf (pipe_set_stdin (some at) p) ≡ c_string str
unfolding pipe_set_stdin
drain-pipe_set_stdin reads maxlen buf str at p leads h fits enough =
    drain-rest_from reads maxlen buf str (pipe_set_stdin (some at) p) h fits leads enough
