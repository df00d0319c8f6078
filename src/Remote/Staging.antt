-- ===== src/Remote/Staging.antt =====
-- The staging file of an upload, `write` of internal/agent/fileserver.go: what it holds between the
-- chunks.
use livegit.Prelude.{
  true, false, ◌≡◌, ◌≢◌, refl, ap, sym, ◌∙◌, inl, inr, arith, [], ◌∷◌, ◌++◌, append_assoc, Bytes,
  ◌==◌, bytes_eq, nat_eq, eqb_iff, bytes_beq_iff, length, take, drop, take-append-drop,
  if◌then◌else◌, Bool-cases, insert,
}
use livegit.Remote.{
  WriteReq, WriteIo, SourceFile, Files, part_of, id_of, private_file, content_of, id_matches,
  probe_staged, open_part, append_part, stage_chunk,
}
use livegit.Remote.Keys.{
  same_key, id-part, part-id, content_of-insert, id_matches-insert, id_matches-delete,
}

-- The first bytes of a content.
abbrev pub IsPrefix : Bytes → Bytes → Type 0
IsPrefix p content = (rest : Bytes) × (content ≡ p ++ rest)

take-append : (p r : Bytes) → take (length p) (p ++ r) ≡ p
take-append [] r = refl
take-append (x ∷ p) r = ap (λ l. x ∷ l) (take-append p r)

not_empty : (s : Bytes) → s ≢ [] → (s == []) ≡ false
not_empty s ne = ground (arith, bytes_beq_iff s [])

-- Two prefixes of one length are one.
pub IsPrefix-unique :
    (p q content : Bytes) → IsPrefix p content → IsPrefix q content → length p ≡ length q → p ≡ q
IsPrefix-unique p q content (r, e) (s, f) n =
    sym (take-append p r)
    ∙ ap (λ l. take (length p) l) (sym e ∙ f)
    ∙ ap (λ k. take k (q ++ s)) n
    ∙ take-append q s

-- The request carries the piece of the content that stands at its offset.
abbrev pub ChunkOf : Bytes → WriteReq → Type 0
ChunkOf content req =
    (front : Bytes) × (rest : Bytes) × (content ≡ front ++ (req.content ++ rest))
    × (length front ≡ req.offset)

-- Where the sidecar names this upload, the staging file holds the first bytes of its content.
abbrev pub Staged : Bytes → Bytes → Bytes → Files → Type 0
Staged abs id content files =
    id_matches abs id files ≡ true → IsPrefix (content_of (part_of abs) files) content

pub content-insert_part :
    (abs : Bytes) (f : SourceFile) (files : Files)
    → content_of (part_of abs) (insert (part_of abs) f files) ≡ f.content
content-insert_part abs f files =
    content_of-insert (part_of abs) (part_of abs) f files ∙ rw (same_key (part_of abs))

pub id-insert_part :
    (abs id : Bytes) (f : SourceFile) (files : Files)
    → id_matches abs id (insert (part_of abs) f files) ≡ id_matches abs id files
id-insert_part abs id f files = id_matches-insert abs id (part_of abs) f files ∙ rw (part-id abs)

module _ (abs : Bytes) (req : WriteReq) (io : WriteIo) where
  pub content-open_part :
      (files : Files)
      → content_of (part_of abs) (open_part abs req io files)
        ≡ (if req.offset == 0 then [] else content_of (part_of abs) files)
  unfolding open_part
  content-open_part files = content-insert_part abs _ files

  pub id-open_part :
      (id : Bytes) (files : Files)
      → id_matches abs id (open_part abs req io files) ≡ id_matches abs id files
  unfolding open_part
  id-open_part id files = id-insert_part abs id _ files

  append_part-IsPrefix :
      (content : Bytes) (files : Files)
      → io.fstat_ok ≡ true
      → ChunkOf content req
      → IsPrefix (content_of (part_of abs) files) content
      → IsPrefix (content_of (part_of abs) (append_part abs req io files).0) content
  unfolding append_part
  append_part-IsPrefix content files sized (front, rest, e, n) h =
      let p : Bytes = content_of (part_of abs) files in
      elim (Bool-cases (length p == req.offset)) [
        | inr m ↦ rw (sized, m) h
        | inl m ↦
            let same : p ≡ front =
              IsPrefix-unique p front content h (req.content ++ rest, e)
                ((eqb_iff (length p) req.offset).0 m ∙ sym n) in
            elim (Bool-cases io.append_ok) [
              | inl ok ↦
                  rw (sized, m, ok, content-insert_part)
                    (
                      rest,
                      e
                          ∙ sym (append_assoc front req.content rest)
                          ∙ ap (λ l. (l ++ req.content) ++ rest) (sym same),
                    )
              | inr ok ↦
                  rw (sized, m, ok, content-insert_part)
                    (
                      drop io.appended req.content ++ rest,
                      e
                          ∙ ap (λ l. front ++ (l ++ rest))
                              (sym (take-append-drop io.appended req.content))
                          ∙ ap (λ l. front ++ l)
                              (append_assoc (take io.appended req.content)
                                (drop io.appended req.content) rest)
                          ∙ sym (
                              append_assoc front (take io.appended req.content)
                                (drop io.appended req.content ++ rest))
                          ∙ ap
                              (λ l.
                                (l ++ take io.appended req.content)
                                ++ (drop io.appended req.content ++ rest))
                              (sym same),
                    )
            ]
      ]

  abbrev first : Files → Files
  first files = insert (id_of abs) (private_file req.stage_id io.now) files

  opened_first :
      (content : Bytes) (files : Files)
      → (req.offset == 0) ≡ true
      → IsPrefix (content_of (part_of abs) (open_part abs req io (first files))) content
  opened_first content files z = rw (content-open_part (first files), z) (content, refl)

  opened :
      (content : Bytes) (files : Files)
      → (req.offset == 0) ≡ false
      → IsPrefix (content_of (part_of abs) files) content
      → IsPrefix (content_of (part_of abs) (open_part abs req io files)) content
  opened content files z h = rw (content-open_part files, z) h

  -- A chunk of an upload keeps what is staged for it the first bytes of its content, wherever a
  -- system call fails, if a first chunk's staging file can be opened once its sidecar is written and
  -- the size of an open staging file can be had.
  pub stage_chunk-Staged :
      (content : Bytes) (files : Files)
      → ChunkOf content req
      → (req.offset ≡ 0 → io.id_ok ≡ true → io.open_ok ≡ true)
      → io.fstat_ok ≡ true
      → Staged abs req.stage_id content files
      → Staged abs req.stage_id content (stage_chunk abs req io files).0
  unfolding stage_chunk
  stage_chunk-Staged content files chunk opens sized h = elim (Bool-cases (req.offset == 0)) [
    | inl z ↦ elim (Bool-cases io.id_ok) [
      | inr i ↦ rw (z, i) h
      | inl i ↦
          simp (z, i, opens ((eqb_iff req.offset 0).0 z) i)
            (λ _.
              append_part-IsPrefix content (open_part abs req io (first files)) sized chunk
                (opened_first content files z))
    ]
    | inr z ↦ elim (Bool-cases (id_matches abs req.stage_id files)) [
      | inr d ↦ rw (z, d, id_matches-delete, same_key (id_of abs)) (λ k. absurd (ground arith))
      | inl d ↦ elim (Bool-cases io.open_ok) [
        | inr o ↦ rw (z, d, o) h
        | inl o ↦
            simp (z, d, o)
              (λ _.
                append_part-IsPrefix content (open_part abs req io files) sized chunk
                  (opened content files z (h d)))
      ]
    ]
  ]

  -- Where the staging file cannot be opened after a first chunk's sidecar is written, the bytes of
  -- whatever upload was staged before are what a probe for the new upload finds.
  pub stage_chunk-stale :
      (files : Files)
      → req.offset ≡ 0
      → req.stage_id ≢ []
      → io.id_ok ≡ true
      → io.open_ok ≡ false
      → let (files', fits) = stage_chunk abs req io files in
        (fits ≡ false)
        × (content_of (part_of abs) files' ≡ content_of (part_of abs) files)
        × (probe_staged abs req.stage_id files' ≡ length (content_of (part_of abs) files))
  unfolding stage_chunk probe_staged
  stage_chunk-stale files z ne i o =
      rw
        (
          z,
          i,
          o,
          content_of-insert,
          id_matches-insert,
          id-part,
          same_key (id_of abs),
          same_key req.stage_id,
        )
        (refl, refl, rw (not_empty req.stage_id ne))
