-- ===== src/Watch/Shown.antt =====
-- A change of a file on Source, from the watcher's event to what Ghost shows, internal/agent/watcher.go
-- and internal/fuse/invalidate.go.
use livegit.Prelude.{
  bytes_beq_refl, ◌≡◌, ◌≢◌, refl, sym, ap, ◌∙◌, Bool, true, false, ◌||◌, Option, none, some, [],
  Bytes, bytes_eq, lookup, delete, lookup-insert, lookup-delete,
}
use livegit.Paths.{PathMapper, rel, remote_to_rel, rel_to_remote}
use livegit.Paths.Canonical.{rel_lem}
use livegit.Paths.Mapper.{IsRoot, remote_to_rel-rel_to_remote}
use livegit.Journal.{has_pending}
use livegit.Index.{Index, Entry, put, get, set_have_content}
use livegit.Index.Tree.{get-put}
use livegit.Backend.{Backend, Invalidation, invalidate, drop_content, hash_differs}
use livegit.Watch.{Event, FileInfo, announced, handle}

get-set_have_content :
    (k : Bytes) (have : Bool) (ix : Index) (e : Entry)
    → get k ix ≡ some e
    → get k (set_have_content k have ix) ≡ some (record e { have_content = have })
unfolding get set_have_content
get-set_have_content k have ix e h =
    rw (h, set_have_content)
      (lookup-insert (rel k) (rel k) _ ix.entries ∙ rw (bytes_beq_refl (rel k)) refl)

-- The entry of a file that was announced
abbrev pub shown : Bytes → FileInfo → Bytes → Bool → Entry
shown p info hash have = record {
  rel = p;
  is_dir = false;
  size = info.size;
  mod_time = info.mod_time;
  mode = info.perm;
  hash = hash;
  have_content = have;
}

module _ (p : Bytes) (info : FileInfo) (hash : Bytes) (ev : Event) (b : Backend) where
  abbrev inv : Invalidation
  inv = announced p (some info) (some hash) ev

  -- The file is announced by its new metadata.
  inv_lem :
      info.is_dir ≡ false
      → (ev.removed || ev.renamed) ≡ false
      → inv ≡ record {
        rel = p;
        deleted = false;
        is_dir = false;
        size = info.size;
        mode = info.perm;
        hash = hash;
        mod_time = info.mod_time;
      }
  unfolding announced
  inv_lem file kept = rw (kept, file) refl

  invalidate-shown :
      rel p ≡ p
      → p ≢ []
      → info.is_dir ≡ false
      → (ev.removed || ev.renamed) ≡ false
      → has_pending p b.journal ≡ false
      → hash_differs hash (get p b.index) ≡ true
      → (get p (invalidate inv b).index ≡ some (shown p info hash false))
        × (lookup p (invalidate inv b).cache ≡ none)
  unfolding invalidate drop_content
  invalidate-shown own ne file kept idle new =
      let e : Entry = shown p info hash false in
      let put_there = (get-put e b.index (λ z. ne (sym own ∙ z))).0 in
      let step : invalidate inv b ≡ record b {
        cache = delete p b.cache;
        index = set_have_content p false (put e b.index);
      } =
        rw (inv_lem file kept, own, idle, new) refl in
      (
        rw step (get-set_have_content p false (put e b.index) _ put_there ∙ rw own refl),
        rw step (lookup-delete p p b.cache ∙ rw (bytes_beq_refl p) refl),
      )

-- What Ghost makes of the announcement, if there is one
abbrev pub after_event : Option Invalidation → Backend → Backend
after_event none b = b
after_event (some i) b = invalidate i b

handle-announced :
    (matches : Bytes → Bool → Bool) (m : PathMapper) (p : Bytes) (info : FileInfo) (hash : Bytes)
    (ev : Event)
    → IsRoot m.remote_root
    → ev.name ≡ rel_to_remote m p
    → matches (rel p) info.is_dir ≡ false
    → (handle matches m (some info) (some hash) ev).0
      ≡ some (announced (rel p) (some info) (some hash) ev)
unfolding handle
handle-announced matches m p info hash ev root named wanted =
    let back : remote_to_rel m ev.name ≡ some (rel p) =
      ap (remote_to_rel m) named ∙ remote_to_rel-rel_to_remote m p root in
    rw (back, handle, wanted) refl

-- A file that is written on Source under a remote root other than `/`, is neither ignored nor in
-- the queue of Ghost, and has another content hash than Ghost knows, is shown by Ghost with its new
-- size, time, mode and hash once the watcher's announcement has arrived, and its cached copy is gone.
pub handle-shown :
    (matches : Bytes → Bool → Bool) (m : PathMapper) (p : Bytes) (info : FileInfo) (hash : Bytes)
    (ev : Event) (b : Backend)
    → IsRoot m.remote_root
    → ev.name ≡ rel_to_remote m p
    → matches (rel p) info.is_dir ≡ false
    → rel p ≢ []
    → info.is_dir ≡ false
    → (ev.removed || ev.renamed) ≡ false
    → has_pending (rel p) b.journal ≡ false
    → hash_differs hash (get (rel p) b.index) ≡ true
    → (get (rel p) (after_event (handle matches m (some info) (some hash) ev).0 b).index
        ≡ some (shown (rel p) info hash false))
      × (lookup (rel p) (after_event (handle matches m (some info) (some hash) ev).0 b).cache
          ≡ none)
handle-shown matches m p info hash ev b root named wanted ne file kept idle new =
    rw (handle-announced matches m p info hash ev root named wanted)
      (invalidate-shown (rel p) info hash ev b (rel_lem p).2 ne file kept idle new)
