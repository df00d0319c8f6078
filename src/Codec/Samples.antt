-- ===== src/Codec/Samples.antt =====
-- Two frames, one without a body.
use livegit.Prelude.{arith, ◌≡◌, some, [], ◌∷◌, ◌++◌}
use livegit.Codec.{Frame}
use livegit.Codec.RoundTrip.{read_frames, write_frames, read_frames-write_frames}

abbrev ping : Frame
ping = record { kind = 3; req_id = 70000; body = [] }

abbrev reply : Frame
reply = record { kind = 100; req_id = 258; body = 123 ∷ 125 ∷ [] }

read_frames-write_frames_example :
    read_frames 2 (write_frames (ping ∷ reply ∷ []) [] ++ 7 ∷ []) ≡ some (ping ∷ reply ∷ [], 7 ∷ [])
read_frames-write_frames_example =
    read_frames-write_frames (ping ∷ reply ∷ []) (7 ∷ [])
      ((omega arith, omega arith, omega arith), ((omega arith, omega arith, omega arith), tt))
