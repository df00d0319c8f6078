-- ===== src/Trees.antt =====
-- The full-tree snapshot in pages: `treePage` of internal/agent/fileserver.go and `fetchTree` of
-- internal/fuse/source.go. The walk of the tree is a parameter, as are the digest (SHA-256), the
-- gzipped JSON `G` of a page, its encoding, which never fails on a buffer, and its decoding, which may.
pub mod Fetch
mod Samples
use livegit.Prelude.{
  ℕ, zero, suc, ◌+◌, ◌-◌, Bool, true, false, not, Option, none, some, List, [], ◌∷◌, ◌++◌, Bytes,
  ◌==◌, bytes_eq, nat_eq, length, take, drop, if◌then◌else◌, ltb, leb,
}
use livegit.Index.{TreeEntry}

-- internal/proto/messages.go
pub record TreeReq : Type 0 where
  pub digest : Bytes
  pub cursor : ℕ

pub record TreeResp (G : Type 0) : Type 0 where
  pub unchanged : Bool
  pub digest : Bytes
  pub pages : ℕ
  pub gz : Option G

-- fs.treeDigest and fs.treePages
pub record Snapshot (G : Type 0) : Type 0 where
  pub digest : Bytes
  pub pages : List G

-- A page size that is not set is the default of 25000.
abbrev pub page_size_of : ℕ → ℕ
page_size_of n = if n == 0 then 25000 else n

unfoldable pub page_at : {G : Type 0} → ℕ → List G → Option G
page_at n [] = none
page_at zero (p ∷ ps) = some p
page_at (suc n) (p ∷ ps) = page_at n ps

module _ {G : Type 0} (digest_of : List TreeEntry → Bytes) (encode : List TreeEntry → G) where
  -- The loop that cuts the entries into pages, on those that are left; there is a page at least.
  unfoldable pub make_pages : ℕ → ℕ → List TreeEntry → List G
  make_pages zero size entries = []
  make_pages (suc fuel) size entries =
      let rest = make_pages fuel size (drop size entries) in
      encode (take size entries) ∷ (if leb (length entries) size then [] else rest)

  -- A page of the snapshot that is kept.
  unfoldable pub later_page : TreeReq → Snapshot G → Snapshot G × Option (TreeResp G)
  later_page req s =
      if not (req.digest == s.digest)
      then (s, none)
      else if leb (length s.pages) req.cursor
      then (s, none)
      else (
        s,
        some (record {
          unchanged = false;
          digest = s.digest;
          pages = length s.pages;
          gz = page_at req.cursor s.pages;
        }),
      )

  -- A fresh walk, cut into pages where Ghost does not hold its digest.
  unfoldable pub first_page :
      List TreeEntry → ℕ → TreeReq → Snapshot G → Snapshot G × Option (TreeResp G)
  first_page entries size req s =
      let digest = digest_of entries in
      let pages = make_pages (suc (length entries)) (page_size_of size) entries in
      if digest == req.digest
      then (s, some (record { unchanged = true; digest = digest; pages = 0; gz = none }))
      else (
        record { digest = digest; pages = pages },
        some (record {
          unchanged = false;
          digest = digest;
          pages = length pages;
          gz = page_at 0 pages;
        }),
      )

  -- `treePage`, with what a walk finds now and the size of a page
  unfoldable pub tree_page :
      List TreeEntry → ℕ → TreeReq → Snapshot G → Snapshot G × Option (TreeResp G)
  tree_page entries size req s =
      if ltb 0 req.cursor then later_page req s else first_page entries size req s

-- An error of a call ends the function.
unfoldable pub and_then :
    {S : Type 0} {A : Type 0} {B : Type 0} → (A → S → S × Option B) → S × Option A → S × Option B
and_then next (s, none) = (s, none)
and_then next (s, some a) = next a s

-- What `fetchTree` returns: the entries, their digest, and whether they are unchanged.
pub record Fetched : Type 0 where
  pub entries : List TreeEntry
  pub digest : Bytes
  pub unchanged : Bool

module _ {G : Type 0} {S : Type 0} (decode : G → Option (List TreeEntry))
    (call : TreeReq → S → S × Option (TreeResp G)) where
  -- `decodeTreePage`; nothing is no gzip stream.
  unfoldable pub decode_page : Option G → Option (List TreeEntry)
  decode_page none = none
  decode_page (some gz) = decode gz

  -- The rest of `fetchTree` once a page is decoded.
  unfoldable pub with_page :
      Option G
      → (List TreeEntry → S → S × Option (List TreeEntry))
      → S
      → S × Option (List TreeEntry)
  with_page gz next s = and_then next (s, decode_page gz)

  -- The loop over the pages from `cur` on, of which `left` are left.
  unfoldable pub fetch_pages : ℕ → ℕ → Bytes → List TreeEntry → S → S × Option (List TreeEntry)
  fetch_pages zero cur digest entries s = (s, some entries)
  fetch_pages (suc left) cur digest entries s =
      and_then
        (λ page. with_page page.gz (λ more. fetch_pages left (cur + 1) digest (entries ++ more)))
        (call (record { digest = digest; cursor = cur }) s)

  -- `fetchTree` after its first answer
  unfoldable pub from_first : Bytes → TreeResp G → S → S × Option Fetched
  from_first have first s =
      let fetch = with_page first.gz (fetch_pages (first.pages - 1) 1 first.digest) in
      if first.unchanged
      then (s, some (record { entries = []; digest = have; unchanged = true }))
      else and_then
          (λ entries t.
            (t, some (record { entries = entries; digest = first.digest; unchanged = false })))
          (fetch s)

  unfoldable pub fetch_tree : Bytes → S → S × Option Fetched
  fetch_tree have s = and_then (from_first have) (call (record { digest = have; cursor = 0 }) s)
