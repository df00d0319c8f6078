-- ===== src/Upload/Loop.antt =====
-- One round of the loop of `writeFile`, internal/fuse/source.go.
use livegit.Prelude.{ℕ, suc, ◌+◌, Bool, true, false, ◌≡◌, some, Bytes, length}
use livegit.Remote.{WriteReq, WriteAck, Answer}
use livegit.Upload.{chunk_at, next_round, with_answer, resume_at, send_chunks, probe_and_send}

module _ {S : Type 0} (s s' : S) (ack : WriteAck) where
  next_round-more :
      (more : Bool) (rest : S → S × Answer) (r : S × Answer)
      → r ≡ (s', some ack)
      → more ≡ true
      → next_round more rest r ≡ rest s'
  unfolding next_round
  next_round-more more rest r e m = rw (e, m)

  next_round-last :
      (more : Bool) (rest : S → S × Answer) (r : S × Answer)
      → r.1 ≡ some ack
      → more ≡ false
      → next_round more rest r ≡ r
  unfolding next_round
  next_round-last more rest (t, a) e m = rw (e, m)

  with_answer-some :
      (next : WriteAck → S → S × Answer) (r : S × Answer)
      → r ≡ (s', some ack)
      → with_answer next r ≡ next ack s'
  unfolding with_answer
  with_answer-some next r e = rw e

module _ {S : Type 0} (call : WriteReq → S → S × Answer) (chunk_size : ℕ) (req : WriteReq)
    (content : Bytes) where
  pub send_chunks-more :
      (fuel off : ℕ) (s s' : S) (ack : WriteAck)
      → call (chunk_at chunk_size req content off) s ≡ (s', some ack)
      → (chunk_at chunk_size req content off).more ≡ true
      → send_chunks call (suc fuel) chunk_size req content off s
        ≡ send_chunks call fuel chunk_size req content
            (off + length (chunk_at chunk_size req content off).content)
            s'
  unfolding send_chunks
  send_chunks-more fuel off s s' ack answered more = next_round-more s s' ack _ _ _ answered more

  pub send_chunks-last :
      (fuel off : ℕ) (s : S) (ack : WriteAck)
      → (call (chunk_at chunk_size req content off) s).1 ≡ some ack
      → (chunk_at chunk_size req content off).more ≡ false
      → send_chunks call (suc fuel) chunk_size req content off s
        ≡ call (chunk_at chunk_size req content off) s
  unfolding send_chunks
  send_chunks-last fuel off s ack answered last = next_round-last s s ack _ _ _ answered last

  pub probe_and_send-eq :
      (s s' : S) (ack : WriteAck)
      → call (record req { probe = true }) s ≡ (s', some ack)
      → probe_and_send call chunk_size req content s
        ≡ send_chunks call
            (length content)
            chunk_size
            req
            content
            (resume_at ack.staged_at (length content))
            s'
  unfolding probe_and_send
  probe_and_send-eq s s' ack answered = with_answer-some s s' ack _ _ answered
