-- ===== src/Codec/RoundTrip.antt =====
-- What `WriteFrame` of internal/proto/codec.go puts on a stream, `ReadFrame` takes off it.
use livegit.Prelude.{
  ℕ, zero, suc, ◌+◌, ◌%◌, ◌^◌, ◌<◌, ◌≤◌, Bool, true, false, ◌≡◌, refl, sym, arith, Option, none,
  some, List, [], ◌∷◌, ◌++◌, Bytes, length, take, drop, if◌then◌else◌, ltb, All, length-append,
  append_assoc, append-nil, take-append, drop-append,
}
use livegit.Codec.{
  Frame, max_frame_size, put_uvarint, put_uint64, header, write_parts, write_frame, decode_frame,
  read_payload, with_length, read_frame,
}
use livegit.Codec.Uvarint.{capacity, read-put_uvarint, big_endian-put_uint64}

-- A writer that keeps what it is given and never fails.
abbrev pub appended : Bytes → Bytes → Bytes × Bool
appended p w = (w ++ p, true)

take-uint64 : (n : ℕ) (s : Bytes) → take 8 (put_uint64 n ++ s) ≡ put_uint64 n
unfolding put_uint64
take-uint64 n s = refl

drop-uint64 : (n : ℕ) (s : Bytes) → drop 8 (put_uint64 n ++ s) ≡ s
unfolding put_uint64
drop-uint64 n s = refl

-- The types are one byte, the numbers 64 bits, and what the reader accepts bounds the length.
abbrev pub Fits : Frame → Type 0
Fits f = (f.kind < 256) × (f.req_id < 2 ^ 64) × (length f.body + 9 ≤ max_frame_size)

abbrev pub encoded : Frame → Bytes
encoded f = put_uvarint 10 (length (header f) + length f.body) ++ (header f ++ f.body)

pub length-header : (f : Frame) → length (header f) ≡ 9
unfolding header put_uint64
length-header f = refl

write_body :
    (body w : Bytes)
    → write_parts appended (if ltb 0 (length body) then body ∷ [] else []) w ≡ (w ++ body, true)
unfolding write_parts
write_body [] w = rw append-nil
write_body (b ∷ body) w =
    let some_left : ltb 0 (suc (length body)) ≡ true = ground arith in rw some_left

pub write_frame-encoded :
    (f : Frame) (w : Bytes) → write_frame appended f w ≡ (w ++ encoded f, true)
unfolding write_frame write_parts
write_frame-encoded f w = rw (
  write_body f.body (w ++ put_uvarint 10 (length (header f) + length f.body) ++ header f),
  append_assoc,
  append_assoc,
)

pub decode_frame-header :
    (f : Frame) → f.kind < 256 → f.req_id < 2 ^ 64 → decode_frame (header f ++ f.body) ≡ f
unfolding decode_frame header
decode_frame-header f k r =
    let kind : f.kind % 256 ≡ f.kind = omega (arith, k) in
    rw (
      kind,
      take-uint64 f.req_id f.body,
      drop-uint64 f.req_id f.body,
      big_endian-put_uint64 f.req_id r,
    )

pub read_payload-encoded :
    (f : Frame) (rest : Bytes)
    → Fits f
    → read_payload (length (header f) + length f.body) ((header f ++ f.body) ++ rest)
      ≡ some (f, rest)
unfolding read_payload
read_payload-encoded f rest h =
    let whole : length (header f) + length f.body ≡ length (header f ++ f.body) =
      sym (length-append (header f) f.body) in
    let small : ltb (length (header f ++ f.body)) 9 ≡ false =
      ground (arith, length-header f, whole) in
    let large : ltb 268435456 (length (header f ++ f.body)) ≡ false =
      ground (arith, length-header f, whole, h.2) in
    let short : ltb (length ((header f ++ f.body) ++ rest)) (length (header f ++ f.body)) ≡ false =
      ground (arith, length-append (header f ++ f.body) rest) in
    rw (
      whole,
      small,
      large,
      short,
      take-append (header f ++ f.body) rest,
      drop-append (header f ++ f.body) rest,
      decode_frame-header f h.0 h.1,
    )

pub read_frame-encoded :
    (f : Frame) (rest : Bytes) → Fits f → read_frame (encoded f ++ rest) ≡ some (f, rest)
unfolding read_frame with_length
read_frame-encoded f rest h =
    let small : length (header f) + length f.body < capacity 9 =
      omega (arith, length-header f, h.2) in
    rw
      (
        append_assoc (put_uvarint 10 (length (header f) + length f.body)) (header f ++ f.body) rest,
        read-put_uvarint 9 (length (header f) + length f.body) ((header f ++ f.body) ++ rest) small,
      )
      (read_payload-encoded f rest h)

-- The frames written one after the other, up to a failure.
abbrev pub write_frames : List Frame → Bytes → Bytes
write_frames [] w = w
write_frames (f ∷ fs) w = write_frames fs (write_frame appended f w).0

abbrev with_more :
    Option (Frame × Bytes) → (Bytes → Option (List Frame × Bytes)) → Option (List Frame × Bytes)
with_more none more = none
with_more (some (f, s)) more = elim (more s) [ none ↦ none | some (fs, s') ↦ some (f ∷ fs, s') ]

-- As many frames as asked for, and the bytes that follow.
unfoldable pub read_frames : ℕ → Bytes → Option (List Frame × Bytes)
read_frames zero s = some ([], s)
read_frames (suc n) s = with_more (read_frame s) (read_frames n)

pub write_frames-encoded :
    (fs : List Frame) (w : Bytes) → write_frames fs w ≡ w ++ write_frames fs []
write_frames-encoded [] w = sym (append-nil w)
write_frames-encoded (f ∷ fs) w = rw (
  write_frame-encoded f w,
  write_frame-encoded f [],
  write_frames-encoded fs (w ++ encoded f),
  write_frames-encoded fs (encoded f),
  append_assoc,
)

-- Frames whose types are bytes, whose request numbers are 64-bit and whose bodies are within the
-- limit, written one after the other to a stream that takes every write, are read back one after
-- the other, and what follows them on the stream is left.
pub read_frames-write_frames :
    (fs : List Frame) (rest : Bytes)
    → All Fits fs
    → read_frames (length fs) (write_frames fs [] ++ rest) ≡ some (fs, rest)
unfolding read_frames
read_frames-write_frames [] rest h = refl
read_frames-write_frames (f ∷ fs) rest h = rw (
  write_frame-encoded f [],
  write_frames-encoded fs (encoded f),
  append_assoc (encoded f) (write_frames fs []) rest,
  read_frame-encoded f (write_frames fs [] ++ rest) h.0,
  read_frames-write_frames fs rest h.1,
)
