-- ===== src/Pipe.antt =====
-- The shell's pipe, kernel/proc/pipe.c: a capture buffer for the output of one stage, and the
-- input of the next stage, which reads a string from where it last stopped. The string is reached by
-- a pointer, which may be that of the capture buffer itself.
pub mod Capture
pub mod Stdin
pub mod Stage
mod Tests
use gannet_os.Base.{
  ℕ, zero, suc, ◌+◌, ◌-◌, Bool, true, false, ◌&&◌, not, Option, none, some, List, [], ◌∷◌, ltb,
  ◌==◌, if◌then◌else◌, get_or, set, replicate, length, is_some,
}

abbrev pub pipe_buf_size : ℕ
pipe_buf_size = 4096

-- Where a `const char *` leads: to `pipe_buf`, or to an array elsewhere, which nothing here changes.
pub data StringAt : Type 0 where
  pipe_buffer : StringAt
  elsewhere : List ℕ → StringAt

-- A null pointer is `none`.
pub record Pipe : Type 0 where
  pub pipe_buf : List ℕ
  pub pipe_pos : ℕ
  pub pipe_on : Bool
  pub stdin_data : Option StringAt
  pub stdin_pos : ℕ

-- The state of the static variables at boot.
abbrev pub boot : Pipe
boot = record {
  pipe_buf = replicate pipe_buf_size 0;
  pipe_pos = 0;
  pipe_on = false;
  stdin_data = none;
  stdin_pos = 0;
}

unfoldable pub pipe_begin : Pipe → Pipe
pipe_begin p = record p { pipe_pos = 0; pipe_on = true; pipe_buf = set p.pipe_buf 0 0 }

-- The buffer is returned by its address, and stays the buffer.
unfoldable pub pipe_end : Pipe → StringAt × Pipe
pipe_end p = (pipe_buffer, record p { pipe_buf = set p.pipe_buf p.pipe_pos 0; pipe_on = false })

unfoldable pub pipe_active : Pipe → Bool
pipe_active p = p.pipe_on

unfoldable pub pipe_putchar : ℕ → Pipe → Pipe
pipe_putchar c p =
    if ltb p.pipe_pos (pipe_buf_size - 1)
    then record p {
      pipe_buf = set (set p.pipe_buf p.pipe_pos c) (p.pipe_pos + 1) 0;
      pipe_pos = p.pipe_pos + 1;
    }
    else p

unfoldable pub pipe_set_stdin : Option StringAt → Pipe → Pipe
pipe_set_stdin str p = record p { stdin_data = str; stdin_pos = 0 }

unfoldable pub pipe_has_stdin : Pipe → Bool
pipe_has_stdin p = is_some p.stdin_data

-- The array that `stdin_data` leads to, as it is now.
abbrev pub stdin_array : Pipe → Option (List ℕ)
stdin_array p = elim p.stdin_data [
  | none ↦ none
  | some where' ↦ elim where' [ pipe_buffer ↦ some p.pipe_buf | elsewhere str ↦ some str ]
]

-- The copying loop of `pipe_read_stdin`, with the `maxlen - 1 - n` rounds that its second test
-- leaves: the position it stops at, the count and the caller's buffer. A read past the end of the
-- array gives the terminator.
pub read_loop : ℕ → List ℕ → ℕ → ℕ → List ℕ → ℕ × ℕ × List ℕ
read_loop zero str pos n buf = (pos, n, buf)
read_loop (suc left) str pos n buf =
    let rest = read_loop left str (pos + 1) (n + 1) (set buf n (get_or str pos 0)) in
    if get_or str pos 0 == 0 then (pos, n, buf) else rest

-- `maxlen` is an `int`: the case of a negative one is that of 0, since both fail `maxlen > 0`.
-- The result is the count, the caller's buffer and the state.
unfoldable pub pipe_read_stdin : List ℕ → ℕ → Pipe → ℕ × List ℕ × Pipe
pipe_read_stdin buf maxlen p = elim (stdin_array p) [
  | none ↦ (0, (if ltb 0 maxlen then set buf 0 0 else buf), p)
  | some str ↦
      if ltb 0 maxlen
      then (let (pos, n, filled) = read_loop (maxlen - 1) str p.stdin_pos 0 buf in
          (n, set filled n 0, record p { stdin_pos = pos }))
      else (0, buf, p)
]
