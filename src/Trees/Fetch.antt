-- ===== src/Trees/Fetch.antt =====
-- What `fetchTree` makes of the pages that `treePage` serves.
use livegit.Prelude.{
  ℕ, zero, suc, ◌+◌, ◌-◌, ◌<◌, true, false, ◌≡◌, ◌≢◌, refl, ap, sym, ◌∙◌, inl, inr, arith, Option,
  none, some, List, [], ◌∷◌, ◌++◌, append-nil, append_assoc, Bytes, ◌==◌, bytes_eq, bytes_beq_iff,
  length, length-append, length-drop, take, drop, take-append-drop, lt→ltb, leb, Bool-cases,
}
use livegit.Index.{TreeEntry}
use livegit.Trees.{
  TreeReq, TreeResp, Snapshot, page_size_of, page_at, make_pages, later_page, first_page, tree_page,
  and_then, decode_page, with_page, fetch_pages, from_first, fetch_tree,
}

page_at-append :
    {G : Type 0} (before : List G) (p : G) (after : List G)
    → page_at (length before) (before ++ p ∷ after) ≡ some p
unfolding page_at
page_at-append [] p after = refl
page_at-append (x ∷ before) p after = page_at-append before p after

module _ (digest_of : List TreeEntry → Bytes) {G : Type 0} (encode : List TreeEntry → G)
    (decode : G → Option (List TreeEntry))
    (decode-encode : (page : List TreeEntry) → decode (encode page) ≡ some page) where
  -- The pages hold these entries, in order.
  abbrev Holds : List G → List TreeEntry → Type 0
  Holds [] es = es ≡ []
  Holds (p ∷ ps) es =
      (a : List TreeEntry) × (b : List TreeEntry) × (decode p ≡ some a) × (es ≡ a ++ b) × Holds ps b

  empty : {A : Type 0} (q : List A) → length q ≡ 0 → q ≡ []
  empty [] e = refl
  empty (x ∷ q) e = absurd (omega (arith, e))

  make_pages-Holds :
      (fuel size : ℕ) (es : List TreeEntry)
      → 0 < size
      → length es < fuel
      → Holds (make_pages digest_of encode fuel size es) es
  unfolding make_pages
  make_pages-Holds zero size es pos enough = absurd (omega (arith, enough))
  make_pages-Holds (suc fuel) size es pos enough = elim (Bool-cases (leb (length es) size)) [
    | inl fits ↦ rw fits (
      take size es,
      [],
      decode-encode (take size es),
      sym (take-append-drop size es)
          ∙ ap (λ l. take size es ++ l)
              (empty (drop size es) (length-drop size es ∙ ground (arith, fits))),
      refl,
    )
    | inr more ↦ rw more (
      take size es,
      drop size es,
      decode-encode (take size es),
      sym (take-append-drop size es),
      make_pages-Holds fuel size (drop size es) pos
          (ground (arith, length-drop size es, enough, more, pos)),
    )
  ]

  module _ (walk : List TreeEntry) (size : ℕ) where
    abbrev pub call : TreeReq → Snapshot G → Snapshot G × Option (TreeResp G)
    call = tree_page digest_of encode walk size

    later_page-served :
        (before : List G) (p : G) (after : List G) (s : Snapshot G)
        → s.pages ≡ before ++ p ∷ after
        → 0 < length before
        → call (record { digest = s.digest; cursor = length before }) s ≡ (
          s,
          some (record {
            unchanged = false;
            digest = s.digest;
            pages = length s.pages;
            gz = some p;
          }),
        )
    unfolding tree_page later_page
    later_page-served before p after s e pos =
        let within : leb (length s.pages) (length before) ≡ false =
          ground (arith, ap length e, length-append before (p ∷ after)) in
        let gz : page_at (length before) s.pages ≡ some p =
          ap (page_at (length before)) e ∙ page_at-append before p after in
        simp (lt→ltb 0 (length before) pos, (bytes_beq_iff s.digest s.digest).1 refl, within, gz)

    and_then-some :
        {A : Type 0} {B : Type 0} (next : A → Snapshot G → Snapshot G × Option B)
        (r : Snapshot G × Option A) (a : A) (s : Snapshot G)
        → r ≡ (s, some a)
        → and_then next r ≡ next a s
    unfolding and_then
    and_then-some next r a s e = rw e

    with_page-some :
        (gz : G) (next : List TreeEntry → Snapshot G → Snapshot G × Option (List TreeEntry))
        (page : List TreeEntry) (s : Snapshot G)
        → decode gz ≡ some page
        → with_page decode call (some gz) next s ≡ next page s
    unfolding with_page decode_page
    with_page-some gz next page s e = and_then-some next (s, decode gz) page s (ap (λ d. (s, d)) e)

    fetch_pages-rest :
        (todo : List G) (es : List TreeEntry) (before : List G) (cur : ℕ) (acc : List TreeEntry)
        (s : Snapshot G)
        → s.pages ≡ before ++ todo
        → length before ≡ cur
        → 0 < cur
        → Holds todo es
        → fetch_pages decode call (length todo) cur s.digest acc s ≡ (s, some (acc ++ es))
    unfolding fetch_pages
    fetch_pages-rest [] es before cur acc s e n pos h =
        ap (λ l. (s, some l)) (sym (append-nil acc) ∙ ap (λ l. acc ++ l) (sym h))
    fetch_pages-rest (p ∷ todo) es before cur acc s e n pos (a, b, decoded, split, h) =
        let served : call (record { digest = s.digest; cursor = cur }) s ≡ (
          s,
          some (record {
            unchanged = false;
            digest = s.digest;
            pages = length s.pages;
            gz = some p;
          }),
        ) =
          ap (λ k. call (record { digest = s.digest; cursor = k }) s) (sym n)
          ∙ later_page-served before p todo s e (rw n pos) in
        and_then-some _ _ _ s served
        ∙ with_page-some p _ a s decoded
        ∙ fetch_pages-rest todo b (before ++ p ∷ []) (cur + 1) (acc ++ a) s
            (e ∙ sym (append_assoc before (p ∷ []) todo))
            (length-append before (p ∷ []) ∙ omega (arith, n)) (omega arith) h
        ∙ ap (λ l. (s, some l)) (append_assoc acc a b ∙ ap (λ l. acc ++ l) (sym split))

    fetch_all :
        (pages : List G) (es : List TreeEntry) (digest : Bytes)
        → Holds pages es
        → 0 < length pages
        → with_page decode call
            (page_at 0 pages)
            (fetch_pages decode call (length pages - 1) 1 digest)
            (record { digest = digest; pages = pages })
          ≡ (record { digest = digest; pages = pages }, some es)
    fetch_all [] es digest h pos = absurd (omega (arith, pos))
    fetch_all (p ∷ todo) es digest (a, b, decoded, split, h) pos =
        let s : Snapshot G = record { digest = digest; pages = p ∷ todo } in
        let count : length (p ∷ todo) - 1 ≡ length todo = omega arith in
        ap
          (λ gz.
            with_page decode call gz (fetch_pages decode call (length (p ∷ todo) - 1) 1 digest) s)
          (page_at-append [] p todo)
        ∙ with_page-some p _ a s decoded
        ∙ ap (λ k. fetch_pages decode call k 1 digest a s) count
        ∙ fetch_pages-rest todo b (p ∷ []) 1 a s refl refl (omega arith) h
        ∙ ap (λ l. (s, some l)) (sym split)

    abbrev pages : List G
    pages = make_pages digest_of encode (suc (length walk)) (page_size_of size) walk

    pages-pos : 0 < length pages
    unfolding make_pages
    pages-pos = omega arith

    page_size_of-pos : 0 < page_size_of size
    page_size_of-pos = ground arith

    first_page-changed :
        (have : Bytes) (s : Snapshot G)
        → digest_of walk ≢ have
        → call (record { digest = have; cursor = 0 }) s ≡ (
          record { digest = digest_of walk; pages = pages },
          some (record {
            unchanged = false;
            digest = digest_of walk;
            pages = length pages;
            gz = page_at 0 pages;
          }),
        )
    unfolding tree_page first_page
    first_page-changed have s ne = simp (differ (digest_of walk) have ne)
      where
        differ : (a b : Bytes) → a ≢ b → (a == b) ≡ false
        differ a b ne = ground (arith, bytes_beq_iff a b)

    first_page-unchanged :
        (have : Bytes) (s : Snapshot G)
        → digest_of walk ≡ have
        → call (record { digest = have; cursor = 0 }) s
          ≡ (s, some (record { unchanged = true; digest = digest_of walk; pages = 0; gz = none }))
    unfolding tree_page first_page
    first_page-unchanged have s e = simp ((bytes_beq_iff (digest_of walk) have).1 e)

    -- A fetch from a file server whose walk does not change meanwhile gives back exactly the
    -- walk's entries and their digest, however they are cut into pages, and where the caller has
    -- that digest already it gives no entries and says that they are unchanged.
    pub fetch_tree_lem :
        (have : Bytes) (s : Snapshot G)
        → (digest_of walk ≢ have
            → (fetch_tree decode call have s).1
              ≡ some (record { entries = walk; digest = digest_of walk; unchanged = false }))
          × (digest_of walk ≡ have
              → fetch_tree decode call have s
                ≡ (s, some (record { entries = []; digest = have; unchanged = true })))
    unfolding fetch_tree from_first
    fetch_tree_lem have s =
        let held : Holds pages walk =
          make_pages-Holds (suc (length walk)) (page_size_of size) walk page_size_of-pos
            (omega arith) in
        (
          (λ ne.
              ap (λ r. r.1)
                (and_then-some (from_first decode call have) _ _ _ (first_page-changed have s ne)
                  ∙ and_then-some _ _ _ _ (fetch_all pages walk (digest_of walk) held pages-pos))),
          (λ e. and_then-some (from_first decode call have) _ _ _ (first_page-unchanged have s e)),
        )
