-- ===== src/Paths/Mapper.antt =====
-- The two directions of `PathMapper` between a remote path and a rel path.
use mathlib.Core.List.{reverse}
use livegit.Prelude.{
  bytes_beq_ne, bytes_beq_refl, true, false, ◌≡◌, ◌≢◌, refl, ap, sym, ◌∙◌, inl, inr, arith, none,
  some, List, [], ◌∷◌, ◌++◌, Bytes, ◌==◌, bytes_eq, bytes_beq, bytes_beq_iff, length, drop, All,
  Bool-cases, append_assoc, append-nil,
}
use livegit.Prefix.{slash, head_is}
use livegit.Paths.{
  rel, join, split, to_slash, clean_step, trim_right, clean_slash, has_prefix, trim_prefix,
  PathMapper, remote_to_rel, rel_to_remote,
}
use livegit.Paths.Segments.{IsPlain}
use livegit.Paths.Canonical.{IsProper, elements, rel-eq-join, rel_lem, rel-IsProper, join-head}

-- A leading slash makes no difference to `Rel`.
rel-slash : (p : Bytes) → rel (slash ∷ p) ≡ rel p
rel-slash p = rel-eq-join (slash ∷ p) ∙ ap (λ l. join (reverse l)) same ∙ sym (rel-eq-join p)
  where
    same : elements (slash ∷ p) ≡ elements p
    same = unfold to_slash split clean_step bytes_beq in refl

trim_right-append : (a b : Bytes) → trim_right b ≡ b → b ≢ [] → trim_right (a ++ b) ≡ a ++ b
unfolding trim_right
trim_right-append [] b h ne = h
trim_right-append (c ∷ a) b h ne =
    rw (trim_right-append a b h ne) (ground (arith, bytes_beq_iff (a ++ b) [], not_nil a))
  where
    not_nil : (a : Bytes) → a ++ b ≢ []
    not_nil [] e = ne e
    not_nil (x ∷ a) e = ground arith

trim_right-plain : (s : Bytes) → IsPlain s → trim_right s ≡ s
unfolding trim_right
trim_right-plain [] h = refl
trim_right-plain (c ∷ s) h = rw (trim_right-plain s h.1) (ground (arith, h.0.0))

join-ne-nil : (t : Bytes) (segs : List Bytes) → t ≢ [] → join (t ∷ segs) ≢ []
unfolding join
join-ne-nil t [] h e = h e
join-ne-nil [] (s ∷ segs) h e = h refl
join-ne-nil (c ∷ t) (s ∷ segs) h e = ground arith

trim_right-join : (segs : List Bytes) → All IsProper segs → trim_right (join segs) ≡ join segs
unfolding join
trim_right-join [] h = unfold trim_right in refl
trim_right-join (s ∷ []) h = trim_right-plain s h.0.0
trim_right-join (s ∷ t ∷ segs) h =
    let last : Bytes = join (t ∷ segs) in
    rw (← append_assoc s (slash ∷ []) last) (
      trim_right-append (s ++ slash ∷ []) last (trim_right-join (t ∷ segs) h.1)
        (join-ne-nil t segs h.1.0.1))

has_prefix-append : (a b : Bytes) → has_prefix (a ++ b) a ≡ true
unfolding has_prefix
has_prefix-append [] b = refl
has_prefix-append (c ∷ a) b = ground (arith, has_prefix-append a b)

drop-append : (a b : Bytes) → drop (length a) (a ++ b) ≡ b
drop-append [] b = refl
drop-append (c ∷ a) b = drop-append a b

trim_prefix-append : (a b : Bytes) → trim_prefix (a ++ b) a ≡ b
unfolding trim_prefix
trim_prefix-append a b = rw (has_prefix-append a b) (drop-append a b)

trim_right-rel : (p : Bytes) → trim_right (rel p) ≡ rel p
trim_right-rel p = let (segs, e, proper) = rel-IsProper p in rw e (trim_right-join segs proper)

rel-head : (p : Bytes) → head_is slash (rel p) ≡ false
rel-head p = let (segs, e, proper) = rel-IsProper p in rw e (join-head segs proper)

clean_slash-id : (p : Bytes) → trim_right p ≡ p → p ≢ [] → clean_slash p ≡ p
unfolding clean_slash
clean_slash-id p h ne = rw h (ground (arith, bytes_beq_iff p []))

-- A remote root that `clean_slash` gives and that is not the file system's root.
abbrev pub IsRoot : Bytes → Type 0
IsRoot root = (trim_right root ≡ root) × (root ≢ []) × (root ≢ slash ∷ [])

maps_back :
    (m : PathMapper) (path rest : Bytes)
    → clean_slash path ≡ m.remote_root ++ rest
    → has_prefix ((m.remote_root ++ rest) ++ slash ∷ []) (m.remote_root ++ slash ∷ []) ≡ true
    → remote_to_rel m path ≡ some (rel rest)
unfolding remote_to_rel
maps_back m path rest e h = rw (e, h, trim_prefix-append)

has_prefix-root :
    (root : Bytes) → has_prefix ((root ++ []) ++ slash ∷ []) (root ++ slash ∷ []) ≡ true
unfolding has_prefix
has_prefix-root [] = refl
has_prefix-root (c ∷ root) = ground (arith, has_prefix-root root)

has_prefix-below :
    (root q : Bytes) → has_prefix ((root ++ slash ∷ q) ++ slash ∷ []) (root ++ slash ∷ []) ≡ true
unfolding has_prefix
has_prefix-below [] q = refl
has_prefix-below (c ∷ root) q = ground (arith, has_prefix-below root q)

append-slash_ne_nil : (root q : Bytes) → root ++ slash ∷ q ≢ []
append-slash_ne_nil [] q e = ground arith
append-slash_ne_nil (c ∷ root) q e = ground arith

clean_slash-below :
    (root q : Bytes)
    → trim_right q ≡ q
    → q ≢ []
    → clean_slash (root ++ slash ∷ q) ≡ root ++ slash ∷ q
clean_slash-below root q t ne =
    clean_slash-id (root ++ slash ∷ q)
      (rw (← append_assoc root (slash ∷ []) q) (trim_right-append (root ++ slash ∷ []) q t ne))
      (append-slash_ne_nil root q)

-- Under a remote root other than `/`, the path that a rel path names on the remote side maps back
-- to the rel path's canonical form.
pub remote_to_rel-rel_to_remote :
    (m : PathMapper) (p : Bytes)
    → IsRoot m.remote_root
    → remote_to_rel m (rel_to_remote m p) ≡ some (rel p)
unfolding rel_to_remote
remote_to_rel-rel_to_remote m p h =
    let root : Bytes = m.remote_root in
    elim (Bool-cases (rel p == [])) [
      | inl z ↦
          let empty : rel p ≡ [] = (bytes_beq_iff (rel p) []).0 z in
          rw z (
            maps_back m root [] (clean_slash-id root h.0 h.1 ∙ sym (append-nil root))
              (has_prefix-root root)
            ∙ ap some (ap rel (sym empty) ∙ (rel_lem p).2))
      | inr z ↦
          rw (z, bytes_beq_ne root (slash ∷ []) h.2)
            (maps_back m (root ++ slash ∷ rel p) (slash ∷ rel p)
                (clean_slash-below root (rel p) (trim_right-rel p)
                  (λ e. ground (arith, bytes_beq_iff (rel p) [])))
                (has_prefix-below root (rel p))
              ∙ ap some (rel-slash (rel p) ∙ (rel_lem p).2))
    ]

-- Under the remote root `/` no rel path but the root's maps back: what it names on the remote side
-- is answered by the error for a path outside the root.
pub remote_to_rel-at_slash :
    (m : PathMapper) (p : Bytes)
    → m.remote_root ≡ slash ∷ []
    → rel p ≢ []
    → remote_to_rel m (rel_to_remote m p) ≡ none
unfolding rel_to_remote remote_to_rel
remote_to_rel-at_slash m p root ne =
    rw
      (
        bytes_beq_ne (rel p) [] ne,
        root,
        bytes_beq_refl (slash ∷ []),
        clean_slash-below [] (rel p) (trim_right-rel p) ne,
      )
      (rw (outside (rel p) (rel-head p) ne))
  where
    outside :
        (q : Bytes)
        → head_is slash q ≡ false
        → q ≢ []
        → has_prefix ((slash ∷ q) ++ slash ∷ []) (slash ∷ slash ∷ []) ≡ false
    outside [] h n = absurd (n refl)
    outside (c ∷ q) h n = unfold has_prefix head_is in ground arith
