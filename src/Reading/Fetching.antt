-- ===== src/Reading/Fetching.antt =====
-- `doFetch` of internal/fuse/fetch.go with `readStream` of internal/fuse/source.go as its source.
use livegit.Prelude.{
  ℕ, suc, Option, none, List, [], ◌∷◌, ◌++◌, Bytes, ◌≡◌, refl, ap, ◌∙◌, inl, inr, Option-cases,
  arith,
}
use livegit.Download.{Version, Local, SinkIo, Stream, DownloadIo, Committed, committed, do_fetch}
use livegit.Download.Commit.{joined_chunks, IsStaged, IsFaithful, IsWhole, do_fetch-IsWhole}
use livegit.Reading.{read_stream}
use livegit.Reading.Whole.{Meets, answers, concat, IsVersioned, chunks_of, read_stream-Rests}

-- What becomes of each chunk in the sink
abbrev pub sunk : (ℕ → SinkIo) → ℕ → List Bytes → List (Bytes × SinkIo)
sunk sink i [] = []
sunk sink i (chunk ∷ chunks) = (chunk, sink i) ∷ sunk sink (suc i) chunks

joined_chunks-sunk :
    (sink : ℕ → SinkIo) (i : ℕ) (chunks : List Bytes)
    → joined_chunks (sunk sink i chunks) ≡ concat chunks
joined_chunks-sunk sink i [] = refl
joined_chunks-sunk sink i (chunk ∷ chunks) =
    ap (λ l. chunk ++ l) (joined_chunks-sunk sink (suc i) chunks)

-- The stream of a download: the chunks that `readStream` passes on, with as many rounds as `left`
abbrev pub reading : Bytes → ℕ → (ℕ → Meets) → ℕ → (ℕ → SinkIo) → Stream
reading p max meets left sink start =
    let (chunks, meta) = chunks_of (read_stream p (answers p max meets) left 0 start none) in
    (sunk sink 0 chunks, meta)

module _ (content : Version → Bytes) (p : Bytes) (max : ℕ) (meets : ℕ → Meets) (left : ℕ)
    (sink : ℕ → SinkIo) where
  reading-IsFaithful :
      IsVersioned content p max meets → IsFaithful content (reading p max meets left sink)
  reading-IsFaithful v start meta m ex =
      elim (Option-cases (read_stream p (answers p max meets) left 0 start none)) [
        | inl e ↦ ground (arith, simp e at m)
        | inr (chunks, e) ↦ rw e (
            joined_chunks-sunk sink 0 chunks.0
            ∙ read_stream-Rests content p max meets v left start chunks e meta (simp e at m) ex)
      ]

  -- What a download commits to the cache is the whole of one version of the file, with its size and
  -- time, however the file changes on Source between the requests for its chunks and whatever fails: if
  -- size and time tell the versions apart, the file does not change within one request, between the
  -- look at its size and time and the read of its bytes, and what was staged before is a beginning
  -- of the version that its sidecar names. The hash is that of the file where the staged bytes could be read again.
  pub do_fetch-read_stream :
      (io : DownloadIo) (id : Option Version) (local : Local) (e : Committed)
      → IsVersioned content p max meets
      → IsStaged content local
      → (do_fetch (reading p max meets left sink) io id local).1 ≡ committed e
      → IsWhole content io (do_fetch (reading p max meets left sink) io id local).0 e
  do_fetch-read_stream io id local e v staged h =
      do_fetch-IsWhole content (reading p max meets left sink) io id local e staged
        (reading-IsFaithful v) h
