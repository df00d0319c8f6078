-- ===== src/Upload.antt =====
-- The uploading half of the client, `writeCall` and `writeFile` of internal/fuse/source.go. The
-- call to Source is a parameter that passes a state along, as is the text of an upload's identity;
-- an open local file is read without errors and does not change while it is sent.
pub mod Loop
pub mod Stage
pub mod Answers
pub mod Complete
mod Samples
use livegit.Prelude.{
  ℕ, zero, suc, ◌+◌, Bool, true, false, not, Option, none, some, [], Bytes, length, take, drop,
  if◌then◌else◌, ltb, leb,
}
use livegit.Remote.{WriteReq, WriteAck, Answer}

-- The local file that is sent, as `Stat` and `ReadAt` see it; the time is in nanoseconds.
pub record LocalFile : Type 0 where
  pub content : Bytes
  pub mtime : ℕ

-- The request that flushEntry makes of a journaled write: Source overwrites.
abbrev pub flush_req : Bytes → ℕ → ℕ → WriteReq
flush_req rel mod_time mode = record {
  rel = rel;
  content = [];
  offset = 0;
  more = false;
  probe = false;
  stage_id = [];
  base_hash = [];
  mod_time = mod_time;
  mode = mode;
  is_dir = false;
}

-- The chunk that is read at an offset.
unfoldable pub chunk_at : ℕ → WriteReq → Bytes → ℕ → WriteReq
chunk_at chunk_size req content off =
    let buf = take chunk_size (drop off content) in
    record req { content = buf; offset = off; more = ltb (off + length buf) (length content) }

-- Where to go on from, once the probe is answered.
unfoldable pub resume_at : ℕ → ℕ → ℕ
resume_at staged_at size = if leb size staged_at then 0 else staged_at

-- An error ends the loop, as does the answer to the last chunk.
unfoldable pub next_round : {S : Type 0} → Bool → (S → S × Answer) → S × Answer → S × Answer
next_round more rest (s, none) = (s, none)
next_round more rest (s, some ack) = if more then rest s else (s, some ack)

-- An error ends the upload; otherwise it goes on with the answer.
unfoldable pub with_answer : {S : Type 0} → (WriteAck → S → S × Answer) → S × Answer → S × Answer
with_answer next (s, none) = (s, none)
with_answer next (s, some ack) = next ack s

module _ {S : Type 0} (call : WriteReq → S → S × Answer) where
  -- The loop of `writeFile`. Every round sends a byte at least.
  unfoldable pub send_chunks : ℕ → ℕ → WriteReq → Bytes → ℕ → S → S × Answer
  send_chunks zero chunk_size req content off s = (s, none)
  send_chunks (suc fuel) chunk_size req content off s =
      let chunk = chunk_at chunk_size req content off in
      next_round chunk.more (send_chunks fuel chunk_size req content (off + length chunk.content))
        (call chunk s)

  unfoldable pub probe_and_send : ℕ → WriteReq → Bytes → S → S × Answer
  probe_and_send chunk_size req content s =
      let size = length content in
      with_answer (λ ack. send_chunks size chunk_size req content (resume_at ack.staged_at size))
        (call (record req { probe = true }) s)

  -- `writeFile`; `none` is a local file that cannot be opened.
  unfoldable pub write_file : (ℕ → ℕ → Bytes) → ℕ → WriteReq → Option LocalFile → S → S × Answer
  write_file stage_id chunk_size req none s = (s, none)
  write_file stage_id chunk_size req (some f) s =
      let size = length f.content in
      if leb size chunk_size
      then call (record req { content = f.content }) s
      else probe_and_send chunk_size (record req { stage_id = stage_id size f.mtime }) f.content s
