-- ===== src/Ipc/Framing/Stream.antt =====
-- Frames are read from a stream as they were written to it.
use open_sesame.Prelude.{
  ℕ, ◌^◌, ◌≡◌, ◌≤◌, ◌<◌, refl, sym, ◌∙◌, ap, subst, inl, inr, true, false, Bool-cases, none, some,
  ◌++◌, arith, ltb, leb, ltb→lt, if◌then◌else◌, length, take, drop, Option-cases,
}
use mathlib.Core.List.{append_assoc}
use open_sesame.Ipc.Framing.{
  Bytes, max_frame_size, to_be_bytes, from_be_bytes, read_exact, ReadResult, frame, end_of_stream,
  too_large, read_payload, read_frame, write_frame,
}
use open_sesame.Ipc.Framing.Exact.{
  from_be_bytes-to_be_bytes, read_exact-append, read_exact-to_be_bytes, read_exact-parts,
  take-append, drop-append,
}

read_frame-framed :
    (payload rest : Bytes)
    → length payload < 2 ^ 32
    → read_frame (to_be_bytes (length payload) ++ (payload ++ rest))
      ≡ read_payload (length payload) (payload ++ rest)
unfolding read_frame
read_frame-framed payload rest h =
    rw (read_exact-to_be_bytes (length payload) (payload ++ rest), read_frame)
      (ap (λ n. read_payload n (payload ++ rest)) (from_be_bytes-to_be_bytes (length payload) h))

-- The answer to a frame at the front of a stream.
abbrev pub answer : Bytes → Bytes → ReadResult
answer payload rest =
    if leb (length payload) max_frame_size then frame payload rest else too_large (length payload)

read_payload-append :
    (payload rest : Bytes) → read_payload (length payload) (payload ++ rest) ≡ answer payload rest
unfolding read_payload
read_payload-append payload rest = elim (Bool-cases (leb (length payload) max_frame_size)) [
  | inl fits ↦ rw (fits, not_over (length payload) fits, read_exact-append payload rest) refl
  | inr large ↦ rw (large, over (length payload) large) refl
]
  where
    not_over : (n : ℕ) → leb n max_frame_size ≡ true → ltb max_frame_size n ≡ false
    not_over n h = ground arith

    over : (n : ℕ) → leb n max_frame_size ≡ false → ltb max_frame_size n ≡ true
    over n h = ground arith

-- A frame that `write_frame` has put behind what the writer held leaves that as it was, and is read,
-- when the reader comes to it, as one frame with the payload, what is written behind it being left; but
-- if the payload is larger than `max_frame_size`, it is written all the same and refused by the reader.
pub read_frame-write_frame :
    (before payload rest stream : Bytes)
    → write_frame before payload ≡ some stream
    → (take (length before) stream ≡ before)
      × (read_frame (drop (length before) stream ++ rest) ≡ answer payload rest)
unfolding write_frame
read_frame-write_frame before payload rest stream h =
    elim (Bool-cases (ltb (length payload) (2 ^ 32))) [
      | inl fits ↦
          let same : before ++ framed ≡ stream = some-inj (sym (is_written fits) ∙ h) in
          (
            subst (λ s. take (length before) s ≡ before) same (take-append before framed),
            subst (λ s. read_frame (drop (length before) s ++ rest) ≡ answer payload rest) same
                (ap (λ s. read_frame (s ++ rest)) (drop-append before framed)
                  ∙ (ap read_frame (append_assoc (to_be_bytes (length payload)) payload rest)
                      ∙ (read_frame-framed payload rest (ltb→lt (length payload) (2 ^ 32) fits)
                          ∙ read_payload-append payload rest))),
          )
      | inr large ↦ absurd (none-ne (sym (not_written large) ∙ h))
    ]
  where
    framed : Bytes
    framed = to_be_bytes (length payload) ++ payload

    is_written :
        ltb (length payload) (2 ^ 32) ≡ true → write_frame before payload ≡ some (before ++ framed)
    is_written fits =
        rw (fits, write_frame)
          (ap some (append_assoc before (to_be_bytes (length payload)) payload))

    not_written : ltb (length payload) (2 ^ 32) ≡ false → write_frame before payload ≡ none
    not_written large = rw (large, write_frame) refl

    some-inj : {s t : Bytes} → some s ≡ some t → s ≡ t
    some-inj d = cc

    none-ne : none ≡ some stream → ⊥
    none-ne d = cc

read_payload-parts :
    (len : ℕ) (stream payload rest : Bytes)
    → read_payload len stream ≡ frame payload rest
    → (length payload ≤ max_frame_size) × (stream ≡ payload ++ rest)
unfolding read_payload
read_payload-parts len stream payload rest h = elim (Bool-cases (ltb max_frame_size len)) [
  | inl over ↦ absurd (too_large-ne (sym (refused over) ∙ h))
  | inr fits ↦ elim (Option-cases (read_exact len stream)) [
    | inl short ↦ absurd (end_of_stream-ne (sym (ended fits short) ∙ h))
    | inr ((p, r), there) ↦
        let e = frame-inj p r (sym (framed fits p r there) ∙ h) in
        let parts = read_exact-parts len stream p r there in
        (
          subst (λ q. length q ≤ max_frame_size) e.0 (omega (arith, parts.1, not_over fits)),
          parts.0 ∙ (ap (λ q. q ++ r) e.0 ∙ ap (λ q. payload ++ q) e.1),
        )
  ]
]
  where
    too_large-ne : too_large len ≡ frame payload rest → ⊥
    too_large-ne d = cc

    end_of_stream-ne : end_of_stream ≡ frame payload rest → ⊥
    end_of_stream-ne d = cc

    frame-inj : (p r : Bytes) → frame p r ≡ frame payload rest → (p ≡ payload) × (r ≡ rest)
    frame-inj p r d = (cc, cc)

    refused : ltb max_frame_size len ≡ true → read_payload len stream ≡ too_large len
    refused over = rw (over, read_payload) refl

    ended :
        ltb max_frame_size len ≡ false
        → read_exact len stream ≡ none
        → read_payload len stream ≡ end_of_stream
    ended fits short = rw (fits, read_payload, short) refl

    framed :
        ltb max_frame_size len ≡ false
        → (p r : Bytes) → read_exact len stream ≡ some (p, r)
        → read_payload len stream ≡ frame p r
    framed fits p r there = rw (fits, read_payload, there) refl

    not_over : ltb max_frame_size len ≡ false → len ≤ max_frame_size
    not_over g = ground arith

-- A frame that is read has at most `max_frame_size` bytes, whatever the stream says of its length,
-- and the frame's four bytes of length, its payload and what is left make up the stream.
read_frame-bounded :
    (stream payload rest : Bytes)
    → read_frame stream ≡ frame payload rest
    → (length payload ≤ max_frame_size)
      × ((len_buf : Bytes) × (stream ≡ len_buf ++ (payload ++ rest)) × (length len_buf ≡ 4))
unfolding read_frame
read_frame-bounded stream payload rest h = elim (Option-cases (read_exact 4 stream)) [
  | inl short ↦ absurd (end_of_stream-ne (sym (ended short) ∙ h))
  | inr ((len_buf, behind), there) ↦
      let head = read_exact-parts 4 stream len_buf behind there in
      let body =
        read_payload-parts (from_be_bytes len_buf) behind payload rest
          (sym (entered len_buf behind there) ∙ h) in
      (body.0, (len_buf, head.0 ∙ ap (λ q. len_buf ++ q) body.1, head.1))
]
  where
    end_of_stream-ne : end_of_stream ≡ frame payload rest → ⊥
    end_of_stream-ne d = cc

    ended : read_exact 4 stream ≡ none → read_frame stream ≡ end_of_stream
    ended short = rw (short, read_frame) refl

    entered :
        (len_buf behind : Bytes)
        → read_exact 4 stream ≡ some (len_buf, behind)
        → read_frame stream ≡ read_payload (from_be_bytes len_buf) behind
    entered len_buf behind there = rw (there, read_frame) refl
