-- ===== src/Attributes/Shown.antt =====
-- What is set is what is shown.
use livegit.Prelude.{
  bytes_beq_refl, ℕ, ◌+◌, Bool, true, false, not, ◌&&◌, ◌||◌, Option, some, [], Bytes, bytes_eq,
  bytes_beq, bytes_beq_iff, lookup, lookup-insert, ◌≡◌, ◌≢◌, refl, sym, ◌∙◌, inl, inr, Bool-cases,
  arith,
}
use livegit.Paths.{rel}
use livegit.Paths.Canonical.{rel_lem}
use livegit.Journal.{JournalEntry, append_done, op_write, append, has_pending}
use livegit.Journal.Queue.{append_lem}
use livegit.Index.{Entry, get}
use livegit.Index.Tree.{get-put}
use livegit.Remote.Read.{FileStat}
use livegit.Backend.{Backend, CachedFile, new_entry, ignores}
use livegit.Backend.Records.{Ready, has_pending-append}
use livegit.Changes.{materialize}
use livegit.Attributes.{
  SetRequest, SetIo, given, or_else, perm_or, is_dir_at, content_for, changed, with_cached,
  push_attrs, set_content, record_setattr, attr_of, getattr,
}

module _ (io : SetIo) (req : SetRequest) (f : CachedFile) where
  content_for-found :
      (p : Bytes) (b : Backend) → lookup p b.cache ≡ some f → content_for io req p b ≡ (b, some f)
  unfolding content_for materialize
  content_for-found p b h = elim (Bool-cases (given req.size)) [
    | inl g ↦ rw (content_for, g) (rw (materialize, h) refl)
    | inr g ↦ rw (content_for, g, h) refl
  ]

module _ (now : ℕ) (path : Bytes) where
  -- The change is queued, and the cache and the index have it.
  abbrev IsRecorded : CachedFile → Backend → Type 0
  IsRecorded f b =
      (has_pending (rel path) b.journal ≡ true)
      × (lookup (rel path) b.cache ≡ some f)
      × ((e : Entry) × (get (rel path) b.index ≡ some e) × (e.is_dir ≡ false))

  push-IsRecorded :
      (io : SetIo) (req : SetRequest) (f : CachedFile) (b : Backend)
      → Ready b.journal
      → rel path ≢ []
      → io.append_io ≡ append_done
      → let r = push_attrs io req now (rel path) f (with_cached (rel path) f b) in
        (r.1 ≡ true) × IsRecorded f r.0
  unfolding push_attrs
  push-IsRecorded io req f b ready ne done =
      let mt = or_else io.mod_time req.mtime in
      let again : rel (rel path) ≡ rel path = (rel_lem path).2 in
      let e : JournalEntry = record (new_entry (rel path) op_write f.mode now) { mod_time = mt } in
      let shown : Entry = record {
        rel = rel path;
        is_dir = false;
        size = f.size;
        mod_time = mt;
        mode = f.mode;
        hash = [];
        have_content = true;
      } in
      let same : bytes_beq (rel path) (rel path) ≡ true = bytes_beq_refl (rel path) in
      let answered : (append io.append_io e b.journal).1 ≡ some (b.journal.next_seq + 1) =
        rw done ((append_lem e b.journal ready.0 ready.1).0) in
      let queued : has_pending (rel path) (append io.append_io e b.journal).0 ≡ true =
        rw done (has_pending-append e b.journal ready) in
      let put_shown = (get-put shown b.index (λ z. ne (sym again ∙ z))).0 in
      rw (push_attrs, answered)
        (
          refl,
          (
            queued,
            rw (lookup-insert (rel path) (rel path) f b.cache, same) refl,
            (record shown { rel = rel (rel path); have_content = true }, put_shown, refl),
          ),
        )

  set_content-found :
      (io : SetIo) (req : SetRequest) (f : CachedFile) (b : Backend)
      → io.truncate_ok ≡ true
      → io.chmod_ok ≡ true
      → (given req.size || given req.mode) ≡ true
      → set_content io req now (rel path) (b, some f)
        ≡ push_attrs io req now
            (rel path)
            (changed req f)
            (with_cached (rel path) (changed req f) b)
  unfolding set_content
  set_content-found io req f b t c g =
      let cut : (given req.size && not io.truncate_ok) ≡ false = ground (arith, t) in
      let modes : (given req.mode && not io.chmod_ok) ≡ false = ground (arith, c) in
      rw (cut, modes, g) refl

  getattr-IsRecorded :
      (f : CachedFile) (online : Bool) (stat : Option FileStat) (mt : ℕ) (b : Backend)
      → rel path ≢ []
      → IsRecorded f b
      → (getattr online stat mt path b).1
        ≡ some
            (record { exists = true; is_dir = false; size = f.size; mod_time = mt; mode = f.mode })
  unfolding getattr attr_of
  getattr-IsRecorded f online stat mt b ne (queued, cached, (e, found, file)) =
      let other : bytes_beq (rel path) [] ≡ false =
        ground (arith, ne, bytes_beq_iff (rel path) []) in
      rw (getattr, other, found, cached) (rw (attr_of, file) refl)

  -- A new size or mode of a file whose content is in the cache is queued for Source, and is what the
  -- file shows from then on, if no call fails, the path is not the root, not ignored and no directory.
  pub record_setattr_lem :
      (matches : Bytes → Bool) (io : SetIo) (req : SetRequest) (f : CachedFile) (b : Backend)
      (online : Bool) (stat : Option FileStat) (mt : ℕ)
      → Ready b.journal
      → rel path ≢ []
      → ignores matches (rel path) ≡ false
      → is_dir_at (get (rel path) b.index) ≡ false
      → lookup (rel path) b.cache ≡ some f
      → (io.truncate_ok ≡ true) × (io.chmod_ok ≡ true) × (io.append_io ≡ append_done)
      → (given req.size || given req.mode) ≡ true
      → let r = record_setattr matches io req now path b in
        (r.1 ≡ true)
        × (has_pending (rel path) r.0.journal ≡ true)
        × ((getattr online stat mt path r.0).1
            ≡ some (record {
              exists = true;
              is_dir = false;
              size = or_else f.size req.size;
              mod_time = mt;
              mode = perm_or f.mode req.mode;
            }))
  unfolding record_setattr
  record_setattr_lem matches io req f b online stat mt ready ne shown file cached (t, c, a) g =
      let (ok, set) = push-IsRecorded io req (changed req f) b ready ne a in
      rw
        (
          record_setattr,
          shown,
          file,
          content_for-found io req f (rel path) b cached,
          set_content-found io req f b t c g,
        )
        (ok, set.0, getattr-IsRecorded (changed req f) online stat mt _ ne set)
