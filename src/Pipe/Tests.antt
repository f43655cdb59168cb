-- ===== src/Pipe/Tests.antt =====
-- The pipe at concrete texts and buffers.
use gannet_os.Base.{ℕ, ◌-◌, ◌≡◌, refl, List, [], ◌∷◌, some, arith, length, take, drop, get_or, min}
use gannet_os.Pipe.{
  Pipe, boot, pipe_buf_size, pipe_begin, pipe_end, pipe_putchar, pipe_set_stdin, pipe_read_stdin,
  read_loop, elsewhere, stdin_array,
}
use gannet_os.Pipe.Capture.{put_all}
use gannet_os.Pipe.Stdin.{rest_from, drain, pipe_read_stdin_lem}
use gannet_os.Pipe.Stage.{drain-pipe_end}

abbrev hello : List ℕ
hello = b'h' ∷ b'e' ∷ b'l' ∷ b'l' ∷ b'o' ∷ []

abbrev text : List ℕ
text = b'h' ∷ b'e' ∷ b'l' ∷ b'l' ∷ b'o' ∷ 0 ∷ 9 ∷ []

abbrev reading : Pipe
reading = record boot { stdin_data = some (elsewhere text); stdin_pos = 1 }

abbrev room : List ℕ
room = 7 ∷ 7 ∷ 7 ∷ []

captured_hello :
    take 6 (pipe_end (put_all hello (pipe_begin boot))).1.pipe_buf
    ≡ b'h' ∷ b'e' ∷ b'l' ∷ b'l' ∷ b'o' ∷ 0 ∷ []
unfolding pipe_end put_all pipe_begin pipe_putchar
captured_hello = refl

read_two : (pipe_read_stdin room 3 reading).1 ≡ b'e' ∷ b'l' ∷ 0 ∷ []
unfolding pipe_read_stdin read_loop
read_two = refl

pipe_read_stdin_lem_example :
    let (n, out, q) = pipe_read_stdin room 3 reading in
    let waiting = rest_from text reading.stdin_pos in
    (n ≡ min 2 (length waiting))
    × (take n out ≡ take 2 waiting)
    × (get_or out n 1 ≡ 0)
    × (rest_from text q.stdin_pos ≡ drop 2 waiting)
    × (stdin_array q ≡ some text)
    × (length out ≡ length room)
pipe_read_stdin_lem_example =
    pipe_read_stdin_lem room text 3 reading (omega arith) (omega arith) refl

drain-pipe_end_example :
    let (at, q) = pipe_end (put_all hello (pipe_begin boot)) in
    let next = pipe_set_stdin (some at) q in
    (drain 4096 3 room next ≡ take (pipe_buf_size - 1) hello)
    × (drain 4096 3 room (pipe_begin next) ≡ [])
drain-pipe_end_example =
    drain-pipe_end boot hello room 4096 3 refl (omega arith) (omega arith) (omega arith)
      (omega arith)
