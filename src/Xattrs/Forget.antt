-- ===== src/Xattrs/Forget.antt =====
-- What the calls of internal/fuse/xattr.go find after others.
use mathlib.Core.List.{foldl}
use livegit.Prelude.{
  Bool, false, ◌&&◌, ◌≡◌, refl, ap, sym, ◌∙◌, inl, inr, arith, Option, none, some, List, [], ◌∷◌,
  Bytes, ◌==◌, bytes_eq, bytes_beq_iff, length, length-append, any, if◌then◌else◌, Bool-cases,
  lookup, insert, lookup-insert, lookup-delete,
}
use livegit.Xattrs.{
  Attrs, Store, attrs_of, set_attr, get_attr, at_or_under, forget_path, forget, joined, names_size,
}

-- The value of a name in the map that a path has, or has not.
found : Bytes → Option Attrs → Option Bytes
found name o = lookup name (elim o [ none ↦ [] | some attrs ↦ attrs ])

get_attr-found : (q name : Bytes) (s : Store) → get_attr q name s ≡ found name (lookup q s)
unfolding get_attr attrs_of found
get_attr-found q name s = refl

-- Attributes are found where they were set, and every other one is as it was.
pub get_attr-set_attr :
    (p q attr name value : Bytes) (s : Store)
    → get_attr q name (set_attr p attr value s)
      ≡ (if p == q && attr == name then some value else get_attr q name s)
unfolding set_attr found get_attr
get_attr-set_attr p q attr name value s =
    get_attr-found q name (insert p (insert attr value (attrs_of p s)) s)
    ∙ ap (found name) (lookup-insert p q (insert attr value (attrs_of p s)) s)
    ∙ elim (Bool-cases (p == q)) [
      | inl e ↦ rw e (here ∙ rw ((bytes_beq_iff p q).0 e))
      | inr e ↦ rw e (sym (get_attr-found q name s))
    ]
  where
    here :
        found name (some (insert attr value (attrs_of p s)))
        ≡ (if attr == name then some value else get_attr p name s)
    here = lookup-insert attr name value (attrs_of p s)

-- Whether one of the paths of the list is this one.
listed : Bytes → Store → Bool
listed q l = any (λ e. e.0 == q) l

lookup-forget_path :
    (dir q : Bytes) (s : Store) (e : Bytes × Attrs)
    → lookup q (forget_path dir s e)
      ≡ (if at_or_under dir e.0 && e.0 == q then none else lookup q s)
unfolding forget_path
lookup-forget_path dir q s e = elim (Bool-cases (at_or_under dir e.0)) [
  | inl u ↦ rw u (lookup-delete e.0 q s)
  | inr u ↦ rw u
]

lookup-forget_loop :
    (dir q : Bytes) (l s : Store)
    → lookup q (foldl (forget_path dir) s l)
      ≡ (if at_or_under dir q && listed q l then none else lookup q s)
unfolding listed
lookup-forget_loop dir q [] s = ground arith
lookup-forget_loop dir q (e ∷ l) s =
    lookup-forget_loop dir q l (forget_path dir s e)
    ∙ rw (lookup-forget_path dir q s e) (elim (Bool-cases (e.0 == q)) [
      | inl h ↦ rw (ap (at_or_under dir) ((bytes_beq_iff e.0 q).0 h), h) (ground arith)
      | inr h ↦ rw h (ground arith)
    ])

unlisted : (q : Bytes) (s : Store) → listed q s ≡ false → lookup q s ≡ none
unfolding listed lookup
unlisted q [] h = refl
unlisted q (e ∷ s) h = ground (arith, unlisted q s)

lookup-forget :
    (dir q : Bytes) (s : Store)
    → lookup q (forget dir s) ≡ (if at_or_under dir q then none else lookup q s)
unfolding forget
lookup-forget dir q s = lookup-forget_loop dir q s s ∙ elim (Bool-cases (listed q s)) [
  | inl l ↦ rw l (ground arith)
  | inr l ↦ rw (l, unlisted q s l) (ground arith)
]

-- After a forget the directory and all below it have no attributes, and every other path has
-- those that it had.
pub get_attr-forget :
    (dir q name : Bytes) (s : Store)
    → get_attr q name (forget dir s) ≡ (if at_or_under dir q then none else get_attr q name s)
get_attr-forget dir q name s =
    get_attr-found q name (forget dir s)
    ∙ ap (found name) (lookup-forget dir q s)
    ∙ elim (Bool-cases (at_or_under dir q)) [
      | inl u ↦ rw u (unfold found lookup in refl)
      | inr u ↦ rw u (sym (get_attr-found q name s))
    ]

-- The room that Listxattr asks for is the length of what it copies.
pub length-joined : (names : List Bytes) → length (joined names) ≡ names_size names
unfolding joined names_size
length-joined [] = refl
length-joined (name ∷ names) =
    length-append name (0 ∷ joined names) ∙ omega (arith, length-joined names)
