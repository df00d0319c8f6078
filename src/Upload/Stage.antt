-- ===== src/Upload/Stage.antt =====
-- A chunk that the agent stages when its system calls all go well.
use livegit.Prelude.{
  ℕ, true, false, ◌≡◌, refl, ap, sym, ◌∙◌, inl, inr, ◌⊎◌, arith, [], ◌∷◌, ◌++◌, Bytes, ◌==◌,
  bytes_eq, nat_eq, eqb_iff, length, drop, Bool-cases, insert,
}
use livegit.Remote.{
  WriteReq, WriteIo, Files, written, part_of, id_of, private_file, content_of, id_matches,
  open_part, append_part, stage_chunk,
}
use livegit.Remote.Keys.{same_key, id_matches-insert}
use livegit.Remote.Staging.{content-insert_part, id-insert_part, content-open_part, id-open_part}

-- Every system call goes well.
abbrev pub all_well : ℕ → WriteIo
all_well now = record {
  mkdir_ok = true;
  id_ok = true;
  open_ok = true;
  fstat_ok = true;
  append_ok = true;
  appended = 0;
  hash_ok = true;
  backup_ok = true;
  commit = written;
  chmod_ok = true;
  now = now;
}

pub drop-append : (p r : Bytes) → drop (length p) (p ++ r) ≡ r
drop-append [] r = refl
drop-append (x ∷ p) r = drop-append p r

-- What was staged before this chunk: nothing that counts for a first chunk, else the bytes `p`.
abbrev pub Continues : Bytes → Bytes → Files → Bytes → Type 0
Continues abs id files p =
    (p ≡ []) ⊎ ((id_matches abs id files ≡ true) × (content_of (part_of abs) files ≡ p))

module _ (abs : Bytes) (req : WriteReq) (now : ℕ) where
  append_well :
      (files : Files) (p : Bytes)
      → content_of (part_of abs) files ≡ p
      → length p ≡ req.offset
      → ((append_part abs req (all_well now) files).1 ≡ true)
        × (id_matches abs req.stage_id (append_part abs req (all_well now) files).0
            ≡ id_matches abs req.stage_id files)
        × (content_of (part_of abs) (append_part abs req (all_well now) files).0 ≡ p ++ req.content)
  unfolding append_part
  append_well files p e n =
      simp (e, n, same_nat req.offset)
        (refl, id-insert_part abs req.stage_id _ files, content-insert_part abs _ files)
    where
      same_nat : (k : ℕ) → (k == k) ≡ true
      same_nat k = ground arith

  -- A chunk that continues what is staged is staged after it.
  pub stage_well :
      (files : Files) (p : Bytes)
      → length p ≡ req.offset
      → Continues abs req.stage_id files p
      → ((stage_chunk abs req (all_well now) files).1 ≡ true)
        × (id_matches abs req.stage_id (stage_chunk abs req (all_well now) files).0 ≡ true)
        × (content_of (part_of abs) (stage_chunk abs req (all_well now) files).0 ≡ p ++ req.content)
  unfolding stage_chunk
  stage_well files p n c = elim (Bool-cases (req.offset == 0)) [
    | inl z ↦
        let start : Files = insert (id_of abs) (private_file req.stage_id now) files in
        let named : id_matches abs req.stage_id (open_part abs req (all_well now) start) ≡ true =
          id-open_part abs req (all_well now) req.stage_id start
          ∙ id_matches-insert abs req.stage_id (id_of abs) _ files
          ∙ rw (same_key (id_of abs)) (same_key req.stage_id) in
        let nothing : content_of (part_of abs) (open_part abs req (all_well now) start) ≡ p =
          content-open_part abs req (all_well now) start
          ∙ rw z (sym (empty p (n ∙ (eqb_iff req.offset 0).0 z))) in
        let (fits, same, grown) =
          append_well (open_part abs req (all_well now) start) p nothing n in
        simp z (fits, same ∙ named, grown)
    | inr z ↦ elim c [
      | inl e ↦ absurd (nonzero e z)
      | inr (id, e) ↦
          let still : content_of (part_of abs) (open_part abs req (all_well now) files) ≡ p =
            content-open_part abs req (all_well now) files ∙ rw z e in
          let (fits, same, grown) =
            append_well (open_part abs req (all_well now) files) p still n in
          simp (z, id)
            (fits, same ∙ id-open_part abs req (all_well now) req.stage_id files ∙ id, grown)
    ]
  ]
    where
      empty : (q : Bytes) → length q ≡ 0 → q ≡ []
      empty [] e = refl
      empty (x ∷ q) e = absurd (omega (arith, e))

      nonzero : p ≡ [] → (req.offset == 0) ≡ false → ⊥
      nonzero e z = absurd (ground (arith, n, ap length e))
