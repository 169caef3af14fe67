-- ===== src/Tests/Framing.antt =====
-- Tests of the frames of the bus and instances of their theorems.
use open_sesame.Prelude.{◌≡◌, refl, some, [], ◌∷◌, ◌++◌, take, drop}
use open_sesame.Prelude.Text.{codes}
use open_sesame.Ipc.Framing.{Bytes, read_frame, write_frame, frame, end_of_stream, too_large}
use open_sesame.Ipc.Framing.Stream.{answer, read_frame-write_frame}

abbrev hello : Bytes
hello = codes "hello postcard"

abbrev stream : Bytes
stream = 0 ∷ 0 ∷ 0 ∷ 14 ∷ hello

hello_written : write_frame [] hello ≡ some stream
unfolding write_frame
hello_written = refl

hello_read : read_frame (stream ++ 1 ∷ 2 ∷ []) ≡ frame hello (1 ∷ 2 ∷ [])
unfolding read_frame
hello_read = refl

cut_off : read_frame (0 ∷ 0 ∷ 0 ∷ 9 ∷ 1 ∷ []) ≡ end_of_stream
unfolding read_frame
cut_off = refl

oversized : read_frame (1 ∷ 0 ∷ 0 ∷ 1 ∷ []) ≡ too_large 16777217
unfolding read_frame
oversized = refl

-- A second frame behind the first.
abbrev both : Bytes
both = stream ++ 0 ∷ 0 ∷ 0 ∷ 2 ∷ codes "hi"

hi_written : write_frame stream (codes "hi") ≡ some both
unfolding write_frame
hi_written = refl

read_frame-write_frame_example :
    (take 18 both ≡ stream)
    × (read_frame (drop 18 both ++ 1 ∷ 2 ∷ []) ≡ answer (codes "hi") (1 ∷ 2 ∷ []))
read_frame-write_frame_example =
    read_frame-write_frame stream (codes "hi") (1 ∷ 2 ∷ []) both hi_written
