-- ===== src/Codec.antt =====
-- The framing of messages, internal/proto/codec.go, with what it uses of Go's encoding/binary, on
-- the bytes of a stream. The text of a body (JSON) is a parameter.
pub mod Uvarint
pub mod RoundTrip
mod Samples
use livegit.Prelude.{
  ℕ, zero, suc, ◌+◌, ◌-◌, ◌*◌, ◌/◌, ◌%◌, ◌^◌, Bool, true, false, not, ◌&&◌, ◌||◌, Option, none,
  some, List, [], ◌∷◌, ◌++◌, Bytes, length, take, drop, if◌then◌else◌, ltb, leb,
}

pub record Frame : Type 0 where
  pub kind : ℕ
  pub req_id : ℕ
  pub body : Bytes

-- 256 MiB
abbrev pub max_frame_size : ℕ
max_frame_size = 268435456

-- binary.PutUvarint, with room for so many bytes
unfoldable pub put_uvarint : ℕ → ℕ → Bytes
put_uvarint zero n = []
put_uvarint (suc room) n =
    let rest = put_uvarint room (n / 128) in if ltb n 128 then n ∷ [] else (n % 128 + 128) ∷ rest

-- The bytes after the low seven bits.
unfoldable pub add_low : ℕ → Option (ℕ × Bytes) → Option (ℕ × Bytes)
add_low low none = none
add_low low (some (high, rest)) = some (low + 128 * high, rest)

-- binary.ReadUvarint, which takes ten bytes at most; a tenth above 1 is an overflow.
unfoldable pub read_uvarint : ℕ → Bytes → Option (ℕ × Bytes)
read_uvarint zero s = none
read_uvarint (suc left) [] = none
read_uvarint (suc left) (b ∷ s) =
    let more = add_low (b % 128) (read_uvarint left s) in
    if ltb b 128 then (if leb left 0 && ltb 1 b then none else some (b, s)) else more

-- binary.BigEndian.PutUint64
unfoldable pub put_uint64 : ℕ → Bytes
put_uint64 n =
    (n / 2 ^ 56 % 256)
    ∷ (n / 2 ^ 48 % 256)
    ∷ (n / 2 ^ 40 % 256)
    ∷ (n / 2 ^ 32 % 256)
    ∷ (n / 2 ^ 24 % 256)
    ∷ (n / 2 ^ 16 % 256)
    ∷ (n / 2 ^ 8 % 256)
    ∷ (n % 256)
    ∷ []

unfoldable pub big_endian : ℕ → Bytes → ℕ
big_endian n [] = n
big_endian n (b ∷ s) = big_endian (n * 256 + b) s

-- The first byte is the type, the next eight the request, and the rest the body.
unfoldable pub header : Frame → Bytes
header f = (f.kind % 256) ∷ put_uint64 f.req_id

module _ {W : Type 0} (write : Bytes → W → W × Bool) where
  -- The writes one after the other, up to one that fails.
  unfoldable pub write_parts : List Bytes → W → W × Bool
  write_parts [] w = (w, true)
  write_parts (p ∷ parts) w =
      let (w', ok) = write p w in
      let rest = write_parts parts w' in if not ok then (w', false) else rest

  -- `WriteFrame`; an empty body is not written.
  unfoldable pub write_frame : Frame → W → W × Bool
  write_frame f w =
      let len = put_uvarint 10 (length (header f) + length f.body) in
      write_parts (len ∷ header f ∷ (if ltb 0 (length f.body) then f.body ∷ [] else [])) w

unfoldable pub decode_frame : Bytes → Frame
decode_frame [] = record { kind = 0; req_id = 0; body = [] }
decode_frame (k ∷ buf) = record { kind = k; req_id = big_endian 0 (take 8 buf); body = drop 8 buf }

unfoldable pub read_payload : ℕ → Bytes → Option (Frame × Bytes)
read_payload n s =
    if ltb n 9 || ltb max_frame_size n
    then none
    else if ltb (length s) n
    then none
    else some (decode_frame (take n s), drop n s)

unfoldable pub with_length : Option (ℕ × Bytes) → Option (Frame × Bytes)
with_length none = none
with_length (some (n, s)) = read_payload n s

-- `ReadFrame` of a stream that ends after these bytes; with it the bytes that follow
unfoldable pub read_frame : Bytes → Option (Frame × Bytes)
read_frame s = with_length (read_uvarint 10 s)

-- `NewFrame`, where the body may have no text
unfoldable pub new_frame : {B : Type 0} → (B → Option Bytes) → ℕ → ℕ → B → Option Frame
new_frame marshal kind req_id body = elim (marshal body) [
  | none ↦ none
  | some b ↦ some (record { kind = kind; req_id = req_id; body = b })
]
