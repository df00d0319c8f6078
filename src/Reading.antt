-- ===== src/Reading.antt =====
-- The reading loop, `readStream` of internal/fuse/source.go. What each request finds on Source is an
-- argument, since the file may change between two of them. The request for the next chunk is made
-- before the sink has this one; the chunks come in the same order.
pub mod Whole
pub mod Ends
pub mod Fetching
mod Samples
use livegit.Prelude.{
  ℕ, zero, suc, ◌+◌, Bool, true, false, not, ◌&&◌, ◌||◌, Option, none, some, List, [], ◌∷◌, Bytes,
  eqb, length, if◌then◌else◌,
}
use livegit.Remote.Read.{FileStat, ReadResp}

-- The chunks for the sink, and the metadata if there is no error
abbrev pub Chunks : Type 0
Chunks = List Bytes × Option FileStat

abbrev pub stat_of : Bytes → ReadResp → FileStat
stat_of p r = record {
  rel = p;
  exists = true;
  is_dir = false;
  size = r.size;
  mod_time = r.mod_time;
  mode = r.mode;
}

abbrev pub not_there : Bytes → FileStat
not_there p = record { rel = p; exists = false; is_dir = false; size = 0; mod_time = 0; mode = 0 }

unfoldable pub is_changed : Option FileStat → ReadResp → Bool
is_changed none r = false
is_changed (some st) r = not (eqb r.size st.size && eqb r.mod_time st.mod_time)

unfoldable pub first_stat : Bytes → Option FileStat → ReadResp → FileStat
first_stat p none r = stat_of p r
first_stat p (some st) r = st

-- A chunk that is not found: first, or after others
unfoldable pub on_missing : Bytes → Option FileStat → Chunks
on_missing p none = ([], some (not_there p))
on_missing p (some st) = ([], none)

unfoldable pub with_chunk : Bytes → Option Chunks → Option Chunks
with_chunk chunk none = none
with_chunk chunk (some (chunks, meta)) = some (chunk ∷ chunks, meta)

-- A round, with what the rounds after it give
unfoldable pub on_answer : Bytes → Option FileStat → Option ReadResp → Option Chunks → Option Chunks
on_answer p st none rest = some ([], none)
on_answer p st (some r) rest =
    if not r.found
    then some (on_missing p st)
    else if is_changed st r
    then some ([], none)
    else if r.more && eqb (length r.content) 0
    then some ([], none)
    else if r.more
    then with_chunk r.content rest
    else some (r.content ∷ [], some (first_stat p st r))

unfoldable pub chunk_length : Option ReadResp → ℕ
chunk_length none = 0
chunk_length (some r) = length r.content

unfoldable pub known_stat : Bytes → Option FileStat → Option ReadResp → Option FileStat
known_stat p st none = st
known_stat p st (some r) = some (first_stat p st r)

-- `readStream`, from a round on; `ask` is the answer to the round's request at an offset. None where
-- the rounds do not suffice.
unfoldable pub read_stream :
    Bytes → (ℕ → ℕ → Option ReadResp) → ℕ → ℕ → ℕ → Option FileStat → Option Chunks
read_stream p ask zero round off st = none
read_stream p ask (suc left) round off st =
    let answer = ask round off in
    let rest =
      read_stream p ask left (suc round) (off + chunk_length answer) (known_stat p st answer) in
    on_answer p st answer rest
