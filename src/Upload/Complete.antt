-- ===== src/Upload/Complete.antt =====
-- An upload to the agent's file server whose system calls all go well: it ends, and with the bytes
-- of the local file in place.
use livegit.Prelude.{
  ℕ, zero, suc, ◌+◌, ◌-◌, ◌≤◌, ◌<◌, true, not, ◌&&◌, ◌≡◌, refl, ap, sym, ◌∙◌, inl, inr, arith, some,
  [], ◌++◌, append-nil, append_assoc, Bytes, ◌==◌, bytes_eq, length, length-append, length-drop,
  take, drop, take-append-drop, leb, lt→ltb, ltb→lt, ◌∷◌, Bool-cases,
}
use livegit.Paths.{PathMapper, rel_to_remote}
use livegit.Remote.{
  WriteReq, Files, Disk, Answer, part_of, content_of, id_matches, probe_staged, stage_chunk, write,
}
use livegit.Remote.Staging.{Staged}
use livegit.Upload.{
  LocalFile, flush_req, chunk_at, resume_at, send_chunks, probe_and_send, write_file,
}
use livegit.Upload.Stage.{all_well, Continues, stage_well, drop-append}
use livegit.Upload.Loop.{send_chunks-more, send_chunks-last, probe_and_send-eq}
use livegit.Upload.Answers.{Committed, write-probe_at, write-more, write-last, write-whole}

module _ (hash : Bytes → Bytes) (m : PathMapper) (rel : Bytes) (mod_time : ℕ) (mode : ℕ) (now : ℕ)
    (backup : Bytes) where
  -- A call to a file server whose system calls all go well.
  abbrev pub call : WriteReq → Disk → Disk × Answer
  call r d = write hash m r (all_well now) backup d

  abbrev pub abs : Bytes
  abs = rel_to_remote m rel

  -- The bytes of the local file are at the real path, and the answer says so.
  abbrev pub Uploaded : Bytes → Disk × Answer → Type 0
  Uploaded content = Committed hash m (flush_req rel mod_time mode) now backup content

  module _ (id : Bytes) (content : Bytes) (chunk_size : ℕ) (chunk_size-pos : 0 < chunk_size) where
    abbrev req : WriteReq
    req = record (flush_req rel mod_time mode) { stage_id = id }

    abbrev chunk : ℕ → WriteReq
    chunk off = chunk_at chunk_size req content off

    sizes :
        (p rest : Bytes) (off : ℕ)
        → content ≡ p ++ rest
        → length p ≡ off
        → (length content ≡ off + length rest)
          × (length rest ≡ length (take chunk_size rest) + length (drop chunk_size rest))
          × (length (drop chunk_size rest) ≡ length rest - chunk_size)
    sizes p rest off e n = (
      ap length e ∙ length-append p rest ∙ ap (λ k. k + length rest) n,
      ap length (sym (take-append-drop chunk_size rest))
          ∙ length-append (take chunk_size rest) (drop chunk_size rest),
      length-drop chunk_size rest,
    )

    chunk-next :
        (p rest : Bytes) (off : ℕ) → content ≡ p ++ rest → length p ≡ off → drop off content ≡ rest
    chunk-next p rest off e n =
        ap (λ k. drop k content) (sym n) ∙ ap (drop (length p)) e ∙ drop-append p rest

    -- What is left after the chunk that is sent next.
    sent :
        (p rest : Bytes)
        → content ≡ p ++ rest
        → content ≡ (p ++ take chunk_size rest) ++ drop chunk_size rest
    sent p rest e =
        e
        ∙ ap (λ l. p ++ l) (sym (take-append-drop chunk_size rest))
        ∙ sym (append_assoc p (take chunk_size rest) (drop chunk_size rest))

    empty : (q : Bytes) → length q ≡ 0 → q ≡ []
    empty [] e = refl
    empty (x ∷ q) e = absurd (omega (arith, e))

    module _ (big : chunk_size < length content) where
      send_chunks-Uploaded :
          (fuel : ℕ) (p rest : Bytes) (off : ℕ) (d : Disk)
          → content ≡ p ++ rest
          → length p ≡ off
          → length rest ≤ fuel
          → 0 < length rest
          → Continues abs id d.files p
          → Uploaded content (send_chunks call fuel chunk_size req content off d)
      unfolding chunk_at
      send_chunks-Uploaded zero p rest off d e n enough left c =
          absurd (omega (arith, enough, left))
      send_chunks-Uploaded (suc fuel) p rest off d e n enough left c =
          let next : drop off content ≡ rest = chunk-next p rest off e n in
          let (whole, split, dropped) = sizes p rest off e n in
          let (fits, named, staged) = stage_well abs (chunk off) now d.files p n c in
          let k : length (chunk off).content ≡ length (take chunk_size rest) =
            ap (λ l. length (take chunk_size l)) next in
          let files' : Files = (stage_chunk abs (chunk off) (all_well now) d.files).0 in
          let grown : p ++ (chunk off).content ≡ p ++ take chunk_size rest =
            ap (λ l. p ++ take chunk_size l) next in
          elim (Bool-cases (chunk off).more) [
            | inl more ↦
                let go : Uploaded content (
                    send_chunks call fuel chunk_size req content (off + length (chunk off).content)
                      (record d { files = files' })) =
                  send_chunks-Uploaded fuel (p ++ take chunk_size rest) (drop chunk_size rest)
                    (off + length (chunk off).content) (record d { files = files' }) (sent p rest e)
                    (length-append p (take chunk_size rest) ∙ omega (arith, n, k))
                    (omega (arith, enough, dropped, chunk_size-pos, left))
                    (omega (arith, ltb→lt _ _ more, whole, split, k))
                    (inr (named, staged ∙ grown)) in
                rw
                  (send_chunks-more call chunk_size req content fuel off d
                    (record d { files = files' }) _
                    (write-more hash m (chunk off) now backup refl refl d more fits) more)
                  go
            | inr more ↦
                let ended : drop chunk_size rest ≡ [] =
                  empty (drop chunk_size rest) (ground (arith, more, whole, split, k)) in
                let all : p ++ (chunk off).content ≡ content =
                  grown
                  ∙ sym (append-nil _)
                  ∙ ap (λ l. (p ++ take chunk_size rest) ++ l) (sym ended)
                  ∙ sym (sent p rest e) in
                let done : Uploaded content (call (chunk off) d) =
                  write-last hash m (chunk off) now backup refl refl d content refl more
                    (lt→ltb 0 off (ground (arith, more, whole, split, k, dropped, big))) fits
                    (staged ∙ all) in
                rw (send_chunks-last call chunk_size req content fuel off d _ done.1 more) done
          ]

      -- Where the probe's answer sends the loop, what was staged is what the loop goes on from.
      resumes :
          (d : Disk)
          → Staged abs id content d.files
          → (p : Bytes) × (rest : Bytes) × (content ≡ p ++ rest)
            × (length p ≡ resume_at (probe_staged abs id d.files) (length content))
            × (0 < length rest)
            × Continues abs id d.files p
      unfolding resume_at probe_staged
      resumes d h =
          let from_start : (off : ℕ)
              → off ≡ 0
              → (p : Bytes) × (rest : Bytes) × (content ≡ p ++ rest)
                × (length p ≡ off)
                × (0 < length rest)
                × Continues abs id d.files p =
            λ off z. ([], content, refl, sym z, omega (arith, big), inl refl) in
          elim (Bool-cases (not (id == []) && id_matches abs id d.files)) [
            | inr fresh ↦ rw fresh (from_start _ (ground arith))
            | inl known ↦
                let matched : id_matches abs id d.files ≡ true = ground (arith, known) in
                let (rest, e) = h matched in
                elim (Bool-cases
                  (leb (length content) (length (content_of (part_of abs) d.files)))) [
                    | inl over ↦ rw (known, over) (from_start 0 refl)
                    | inr within ↦
                        rw (known, within)
                          (
                            content_of (part_of abs) d.files,
                            rest,
                            e,
                            refl,
                            ground (
                              arith,
                              within,
                              ap length e,
                              length-append (content_of (part_of abs) d.files) rest,
                            ),
                            inr (matched, refl),
                          )
                  ]
          ]

      probe_and_send-Uploaded :
          (d : Disk)
          → Staged abs id content d.files
          → Uploaded content (probe_and_send call chunk_size req content d)
      probe_and_send-Uploaded d h =
          let (p, rest, e, n, left, c) = resumes d h in
          rw
            (probe_and_send-eq call chunk_size req content d d _
              (write-probe_at hash m req now backup refl refl d))
            (send_chunks-Uploaded (length content) p rest _ d e n (short p rest e) left c)
        where
          short : (p rest : Bytes) → content ≡ p ++ rest → length rest ≤ length content
          short p rest e = omega (arith, ap length e, length-append p rest)

  -- When every system call of Source goes well, the upload of a local file ends with its bytes in
  -- place and is answered with their hash, whatever was at the path before, in one frame or in
  -- chunks, and from wherever an earlier attempt stopped, if what is staged under this upload's
  -- identity is the first bytes of the file.
  pub write_file-Uploaded :
      (stage_id : ℕ → ℕ → Bytes) (chunk_size : ℕ) (f : LocalFile) (d : Disk)
      → 0 < chunk_size
      → Staged abs (stage_id (length f.content) f.mtime) f.content d.files
      → Uploaded f.content
          (write_file call stage_id chunk_size (flush_req rel mod_time mode) (some f) d)
  unfolding write_file
  write_file-Uploaded stage_id chunk_size f d pos h =
      elim (Bool-cases (leb (length f.content) chunk_size)) [
        | inl small ↦ rw small (
            write-whole hash m (record (flush_req rel mod_time mode) { content = f.content }) now
              backup refl refl d refl refl refl)
        | inr big ↦ rw big (
            probe_and_send-Uploaded (stage_id (length f.content) f.mtime) f.content chunk_size pos
              (ground (arith, big)) d h)
      ]
