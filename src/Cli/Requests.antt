-- ===== src/Cli/Requests.antt =====
-- The request file between the command and the mount: what is written and what is read from it.
use livegit.Prelude.{
  split_on, split_on-field, IsWithout, ◌≡◌, refl, false, some, List, [], ◌∷◌, Bytes, ◌==◌, bytes_eq,
  bytes_beq, All,
}
use livegit.Ignore.{trim_space}
use livegit.Cli.{line_break, request_text, requests, take_requests}

-- A path that a line of the file can carry: it has no line break, no white space at its ends, and
-- is not empty.
abbrev pub IsPlain : Bytes → Type 0
IsPlain r = IsWithout line_break r × (trim_space r ≡ r) × ((r == []) ≡ false)

requests-request_text :
    (rels : List Bytes)
    → All IsPlain rels
    → requests (split_on line_break (request_text rels)) ≡ rels
unfolding request_text requests
requests-request_text [] h = unfold split_on requests trim_space in unfold bytes_beq in refl
requests-request_text (r ∷ rels) ((whole, trimmed, some_path), h) =
    rw
      (
        split_on-field line_break r (request_text rels) whole,
        requests,
        trimmed,
        requests-request_text rels h,
        some_path,
      )
      refl

-- The mount reads from the request file the paths that the command wrote to it, in their order, if
-- none is empty, holds a line break, or starts or ends with white space.
pub take_requests-request_text :
    (rels : List Bytes) → All IsPlain rels → take_requests (some (request_text rels)) ≡ rels
unfolding take_requests
take_requests-request_text rels h = requests-request_text rels h

-- A path that consists of white space alone is read from the request file as no path at all.
pub take_requests-blank :
    (r : Bytes)
    → IsWithout line_break r
    → trim_space r ≡ []
    → take_requests (some (request_text (r ∷ []))) ≡ []
unfolding take_requests request_text requests
take_requests-blank r whole blank =
    rw (split_on-field line_break r [] whole, requests, blank)
      (unfold split_on requests trim_space bytes_beq in refl)
