-- ===== src/Paths/Parent.antt =====
-- The parent of a canonical path is the path without its last element.
use mathlib.Core.List.{reverse, foldl-append, reverse-append}
use mathlib.Core.Bool.{false≢true}
use livegit.Prelude.{
  bytes_beq_ne, ◌<◌, true, false, ◌≡◌, ◌≢◌, refl, ap, sym, ◌∙◌, inl, inr, arith, List, [], ◌∷◌,
  ◌++◌, Bytes, bytes_eq, bytes_beq, bytes_beq_iff, eqb, length, length-append, All, All-map,
  Bool-cases, append_assoc,
}
use livegit.Prefix.{slash, head_is}
use livegit.Paths.{
  dot, join, split, in_head, clean, clean_step, dir_part, parent_of_dir, parent_rel,
}
use livegit.Paths.Segments.{IsPlain, run, step-empty, in_head-append}
use livegit.Paths.Canonical.{
  IsStack, IsProper, IsProper-reverse, IsCanonical, body, clean-relative, join-head, join-ne-dot,
  run-split-join, run-reverse,
}

dir_part-plain : (s : Bytes) → IsPlain s → dir_part s ≡ []
unfolding dir_part
dir_part-plain [] h = refl
dir_part-plain (c ∷ s) h = rw (dir_part-plain s h.1) (unfold bytes_beq in ground (arith, h.0.0))

dir_part-append : (b s : Bytes) → IsPlain s → dir_part (b ++ slash ∷ s) ≡ b ++ slash ∷ []
unfolding dir_part bytes_beq
dir_part-append [] s h = rw (dir_part-plain s h) refl
dir_part-append (c ∷ b) s h =
    rw (dir_part-append b s h) (ground (arith, bytes_beq_iff (b ++ slash ∷ []) [], not_nil b))
  where
    not_nil : (b : Bytes) → b ++ slash ∷ [] ≢ []
    not_nil [] e = ground arith
    not_nil (x ∷ b) e = ground arith

split-snoc : (b : Bytes) → split (b ++ slash ∷ []) ≡ split b ++ [] ∷ []
unfolding split
split-snoc [] = refl
split-snoc (c ∷ b) = elim (Bool-cases (eqb c slash)) [
  | inl e ↦ rw e (ap (λ l. [] ∷ l) (split-snoc b))
  | inr e ↦ rw e (ap (in_head c) (split-snoc b) ∙ in_head-append c b ([] ∷ []))
]

body-snoc : (b : Bytes) → body (b ++ slash ∷ []) ≡ body b
body-snoc b =
    ap (λ l. join (reverse (run false [] l))) (split-snoc b)
    ∙ ap (λ l. join (reverse l))
        (foldl-append (clean_step false) [] (split b) ([] ∷ [])
          ∙ step-empty false (run false [] (split b)))

pub join-snoc :
    (segs : List Bytes) (s : Bytes) → segs ≢ [] → join (segs ++ s ∷ []) ≡ join segs ++ slash ∷ s
unfolding join
join-snoc [] s ne = absurd (ne refl)
join-snoc (t ∷ []) s ne = refl
join-snoc (t ∷ u ∷ segs) s ne = rw (join-snoc (u ∷ segs) s (λ e. ground arith)) (rw append_assoc)

head-append : (b c : Bytes) → b ≢ [] → head_is slash b ≡ false → head_is slash (b ++ c) ≡ false
unfolding head_is
head-append [] c ne h = absurd (ne refl)
head-append (x ∷ b) c ne h = h

append-ne-nil : (b c : Bytes) → b ≢ [] → b ++ c ≢ []
append-ne-nil [] c ne e = ne refl
append-ne-nil (x ∷ b) c ne e = ground arith

slash_head : head_is slash (slash ∷ []) ≡ true
unfolding head_is
slash_head = refl

parent_of_dir-id : (b : Bytes) → b ≢ dot → head_is slash b ≡ false → parent_of_dir b ≡ b
unfolding parent_of_dir
parent_of_dir-id b nd h = rw (bytes_beq_ne b dot nd, bytes_beq_ne b (slash ∷ []) not_slash)
  where
    not_slash : b ≢ slash ∷ []
    not_slash e = false≢true (sym h ∙ ap (head_is slash) e ∙ slash_head)

clean-dir_part :
    (b : Bytes) → body b ≡ b → b ≢ [] → head_is slash b ≡ false → clean (b ++ slash ∷ []) ≡ b
clean-dir_part b same ne h =
    let whole : body (b ++ slash ∷ []) ≡ b = body-snoc b ∙ same in
    clean-relative (b ++ slash ∷ []) (head-append b (slash ∷ []) ne h)
      (bytes_beq_ne _ [] (append-ne-nil b (slash ∷ []) ne))
    ∙ rw (whole, bytes_beq_ne b [] ne)

parent_rel-eq : (p : Bytes) → parent_rel p ≡ parent_of_dir (clean (dir_part p))
parent_rel-eq p = unfold parent_rel in refl

parent_below :
    (b s : Bytes)
    → IsPlain s
    → body b ≡ b
    → b ≢ []
    → b ≢ dot
    → head_is slash b ≡ false
    → parent_rel (b ++ slash ∷ s) ≡ b
parent_below b s h same ne nd head =
    parent_rel-eq (b ++ slash ∷ s)
    ∙ ap (λ d. parent_of_dir (clean d)) (dir_part-append b s h)
    ∙ ap parent_of_dir (clean-dir_part b same ne head)
    ∙ parent_of_dir-id b nd head

parent_top : (s : Bytes) → IsPlain s → parent_rel s ≡ []
parent_top s h =
    parent_rel-eq s
    ∙ ap (λ d. parent_of_dir (clean d)) (dir_part-plain s h)
    ∙ (unfold clean parent_of_dir bytes_beq in refl)

join-nonempty : (segs : List Bytes) → All IsProper segs → segs ≢ [] → join segs ≢ []
unfolding join
join-nonempty [] h ne e = ne refl
join-nonempty (s ∷ []) h ne e = h.0.1 e
join-nonempty (s ∷ t ∷ segs) h ne e = append-ne-nil s (slash ∷ join (t ∷ segs)) h.0.1 e

reverse-ne-nil : (t : Bytes) (out : List Bytes) → reverse (t ∷ out) ≢ []
reverse-ne-nil t out e = snoc-ne-nil (reverse out) (sym (reverse-append (t ∷ []) out) ∙ e)
  where
    snoc-ne-nil : (l : List Bytes) → l ++ t ∷ [] ≢ []
    snoc-ne-nil [] e = ground arith
    snoc-ne-nil (x ∷ l) e = ground arith

-- The parent of a canonical path has the same elements but the last.
pub parent_rel-join :
    (s : Bytes) (out : List Bytes)
    → IsStack (s ∷ out)
    → parent_rel (join (reverse (s ∷ out))) ≡ join (reverse out)
parent_rel-join s [] h = unfold join in parent_top s h.0.0
parent_rel-join s (t ∷ out) h =
    let segs : List Bytes = reverse (t ∷ out) in
    let proper : All IsProper segs = IsProper-reverse (t ∷ out) h.1 in
    let ne : segs ≢ [] = reverse-ne-nil t out in
    let b : Bytes = join segs in
    let plain : All IsPlain segs = All-map segs (λ x k. k.0) proper in
    ap (λ l. parent_rel (join l)) (reverse-append (s ∷ []) (t ∷ out))
    ∙ ap parent_rel (join-snoc segs s ne)
    ∙ parent_below b s h.0.0
        (ap (λ l. join (reverse l)) (run-split-join segs plain ∙ run-reverse (t ∷ out) h.1))
        (join-nonempty segs proper ne) (join-ne-dot segs proper) (join-head segs proper)

length-pos : (s : Bytes) → s ≢ [] → 0 < length s
length-pos [] ne = absurd (ne refl)
length-pos (c ∷ s) ne = omega arith

shorter :
    (s : Bytes) (out : List Bytes)
    → IsStack (s ∷ out)
    → length (join (reverse out)) < length (join (reverse (s ∷ out)))
shorter s [] h = unfold join in length-pos s h.0.1
shorter s (t ∷ out) h =
    rw (reverse-append (s ∷ []) (t ∷ out), join-snoc (reverse (t ∷ out)) s (reverse-ne-nil t out))
      (omega (arith, length-append (join (reverse (t ∷ out))) (slash ∷ s)))

-- The parent of a canonical path other than the root is canonical and shorter.
pub parent_rel_lem :
    (p : Bytes)
    → IsCanonical p
    → p ≢ []
    → IsCanonical (parent_rel p) × (length (parent_rel p) < length p)
parent_rel_lem p ([], h, e) ne = absurd (ne (e ∙ (unfold join in refl)))
parent_rel_lem p (s ∷ out, h, e) ne =
    let up : parent_rel p ≡ join (reverse out) = ap parent_rel e ∙ parent_rel-join s out h in
    ((out, h.1, up), rw (up, e) (shorter s out h))
