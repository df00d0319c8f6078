-- ===== src/Remote/Keys.antt =====
-- A file, its staging file and its sidecar, internal/agent/fileserver.go: their names differ, and
-- what a write to one of them changes.
use livegit.Prelude.{
  bytes_beq_refl, ◌+◌, true, false, ◌≡◌, ◌≢◌, ◌∙◌, inl, inr, arith, Bytes, codes, ◌==◌, bytes_eq,
  bytes_beq_iff, length, length-append, if◌then◌else◌, Bool-cases, insert, delete, lookup-insert,
  lookup-delete,
}
use livegit.Remote.{Files, SourceFile, part_of, id_of, content_of, id_matches}

pub same_key : (k : Bytes) → (k == k) ≡ true
same_key k = bytes_beq_refl k

pub other_key : (j k : Bytes) → length j ≢ length k → (j == k) ≡ false
other_key j k ne = ground (arith, bytes_beq_iff j k)

module _ (abs : Bytes) where
  part_longer : length (part_of abs) ≡ length abs + 8
  part_longer = length-append abs (codes ".lg-part")

  id_longer : length (id_of abs) ≡ length abs + 11
  id_longer = length-append (part_of abs) (codes ".id") ∙ omega (arith, part_longer)

  pub abs-part : (abs == part_of abs) ≡ false
  abs-part = other_key abs (part_of abs) (λ e. omega (arith, part_longer, e))

  pub part-abs : (part_of abs == abs) ≡ false
  part-abs = other_key (part_of abs) abs (λ e. omega (arith, part_longer, e))

  pub abs-id : (abs == id_of abs) ≡ false
  abs-id = other_key abs (id_of abs) (λ e. omega (arith, id_longer, e))

  pub id-abs : (id_of abs == abs) ≡ false
  id-abs = other_key (id_of abs) abs (λ e. omega (arith, id_longer, e))

  pub part-id : (part_of abs == id_of abs) ≡ false
  part-id = other_key (part_of abs) (id_of abs) (λ e. omega (arith, part_longer, id_longer, e))

  pub id-part : (id_of abs == part_of abs) ≡ false
  id-part = other_key (id_of abs) (part_of abs) (λ e. omega (arith, part_longer, id_longer, e))

pub content_of-insert :
    (p k : Bytes) (f : SourceFile) (files : Files)
    → content_of p (insert k f files) ≡ (if k == p then f.content else content_of p files)
unfolding content_of
content_of-insert p k f files =
    rw (content_of, lookup-insert) (elim (Bool-cases (k == p)) [ inl e ↦ rw e | inr e ↦ rw e ])

pub id_matches-insert :
    (abs id k : Bytes) (f : SourceFile) (files : Files)
    → id_matches abs id (insert k f files)
      ≡ (if k == id_of abs then f.content == id else id_matches abs id files)
unfolding id_matches
id_matches-insert abs id k f files =
    rw (id_matches, lookup-insert)
      (elim (Bool-cases (k == id_of abs)) [ inl e ↦ rw e | inr e ↦ rw e ])

pub id_matches-delete :
    (abs id k : Bytes) (files : Files)
    → id_matches abs id (delete k files)
      ≡ (if k == id_of abs then false else id_matches abs id files)
unfolding id_matches
id_matches-delete abs id k files =
    rw (id_matches, lookup-delete)
      (elim (Bool-cases (k == id_of abs)) [ inl e ↦ rw e | inr e ↦ rw e ])
