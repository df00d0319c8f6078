-- ===== src/Attributes.antt =====
-- The attributes of a path: `RecordSetattr` of internal/fuse/backend.go, `Getattr` and `Readdir` of
-- internal/fuse/attr.go. What Materialize brings, what the system calls and Source answer is given;
-- `mod_time` is that of the cached file, which is not part of the cache's model.
pub mod Shown
mod Samples
use livegit.Prelude.{
  ℕ, ◌+◌, ◌%◌, Bool, true, false, not, ◌&&◌, ◌||◌, Option, none, some, List, [], Bytes, ◌==◌,
  bytes_eq, if◌then◌else◌, lookup, insert,
}
use livegit.Paths.{rel}
use livegit.Journal.{JournalEntry, AppendIo, op_write, append}
use livegit.Index.{Entry, Index, DirEntry, put, get, children_of}
use livegit.Remote.Read.{FileStat}
use livegit.Backend.{Backend, CachedFile, new_entry, ignores}
use livegit.Changes.{Materialized, materialize}

-- What is asked for
pub record SetRequest : Type 0 where
  pub size : Option ℕ
  pub mode : Option ℕ
  pub mtime : Option ℕ

pub record SetIo : Type 0 where
  pub fetched : Materialized
  pub truncate_ok : Bool
  pub chmod_ok : Bool
  pub mod_time : ℕ
  pub append_io : AppendIo

abbrev pub given : Option ℕ → Bool
given none = false
given (some n) = true

abbrev pub or_else : ℕ → Option ℕ → ℕ
or_else old none = old
or_else old (some n) = n

-- The permissions asked for; 0o777 is 511.
abbrev pub perm_or : ℕ → Option ℕ → ℕ
perm_or old none = old
perm_or old (some m) = m % 512

-- The change of an index entry, for a directory and for a file
abbrev pub dir_attrs : SetRequest → Entry → Entry
dir_attrs req e = record e {
  mode = perm_or e.mode req.mode;
  mod_time = or_else e.mod_time req.mtime;
}

abbrev pub file_attrs : SetRequest → Entry → Entry
file_attrs req e = record (dir_attrs req e) { size = or_else e.size req.size }

unfoldable pub is_dir_at : Option Entry → Bool
is_dir_at none = false
is_dir_at (some e) = e.is_dir

unfoldable pub reflect : (Entry → Entry) → Bytes → Backend → Backend
reflect change p b = elim (get p b.index) [
  | none ↦ b
  | some e ↦ record b { index = put (change e) b.index }
]

-- The content, which only a truncation fetches
unfoldable pub content_for : SetIo → SetRequest → Bytes → Backend → Backend × Option CachedFile
content_for io req p b =
    if given req.size then materialize io.fetched p b else (b, lookup p b.cache)

abbrev pub resized : SetRequest → CachedFile → CachedFile
resized req f = record f { size = or_else f.size req.size }

abbrev pub changed : SetRequest → CachedFile → CachedFile
changed req f = record (resized req f) { mode = perm_or f.mode req.mode }

abbrev pub with_cached : Bytes → CachedFile → Backend → Backend
with_cached p f b = record b { cache = insert p f b.cache }

-- The journal and the index learn of a new size or mode.
unfoldable pub push_attrs : SetIo → SetRequest → ℕ → Bytes → CachedFile → Backend → Backend × Bool
push_attrs io req now p f b =
    let mt = or_else io.mod_time req.mtime in
    let (journal, answer) =
      append io.append_io (record (new_entry p op_write f.mode now) { mod_time = mt }) b.journal in
    let shown : Entry = record {
      rel = p;
      is_dir = false;
      size = f.size;
      mod_time = mt;
      mode = f.mode;
      hash = [];
      have_content = true;
    } in
    elim answer [
      | none ↦ (record b { journal = journal }, false)
      | some _ ↦ (record b { journal = journal; index = put shown b.index }, true)
    ]

unfoldable pub set_content :
    SetIo → SetRequest → ℕ → Bytes → Backend × Option CachedFile → Backend × Bool
set_content io req now p (b, none) =
    if given req.size then (b, false) else (reflect (file_attrs req) p b, true)
set_content io req now p (b, some f) =
    if given req.size && not io.truncate_ok
    then (b, false)
    else if given req.mode && not io.chmod_ok
    then (with_cached p (resized req f) b, false)
    else if given req.size || given req.mode
    then push_attrs io req now p (changed req f) (with_cached p (changed req f) b)
    else (reflect (file_attrs req) p b, true)

-- `RecordSetattr`
unfoldable pub record_setattr :
    (Bytes → Bool) → SetIo → SetRequest → ℕ → Bytes → Backend → Backend × Bool
record_setattr matches io req now path b =
    let p = rel path in
    if ignores matches p
    then (b, true)
    else if is_dir_at (get p b.index)
    then (reflect (dir_attrs req) p b, true)
    else set_content io req now p (content_for io req p b)

pub record Attr : Type 0 where
  pub exists : Bool
  pub is_dir : Bool
  pub size : ℕ
  pub mod_time : ℕ
  pub mode : ℕ

abbrev pub no_attr : Attr
no_attr = record { exists = false; is_dir = false; size = 0; mod_time = 0; mode = 0 }

-- The bytes of the cache are newer than the index.
unfoldable pub attr_of : ℕ → Option CachedFile → Entry → Attr
attr_of mod_time cached e =
    let indexed : Attr = record {
      exists = true;
      is_dir = e.is_dir;
      size = e.size;
      mod_time = e.mod_time;
      mode = e.mode;
    } in
    elim cached [
      | none ↦ indexed
      | some f ↦
          if not e.is_dir
          then record {
            exists = true;
            is_dir = false;
            size = f.size;
            mod_time = mod_time;
            mode = f.mode;
          }
          else indexed
    ]

-- What Source's stat tells of a path that the index does not know
unfoldable pub attr_remote : Bytes → Option FileStat → Backend → Backend × Option Attr
attr_remote p none b = (b, none)
attr_remote p (some st) b =
    let e : Entry = record {
      rel = p;
      is_dir = st.is_dir;
      size = st.size;
      mod_time = st.mod_time;
      mode = st.mode;
      hash = [];
      have_content = false;
    } in
    if not st.exists
    then (b, some no_attr)
    else (record b { index = put e b.index }, some (attr_of 0 none e))

-- `Getattr`; none is an error. 0o755 is 493.
unfoldable pub getattr : Bool → Option FileStat → ℕ → Bytes → Backend → Backend × Option Attr
getattr online stat mod_time path b =
    let p = rel path in
    let remote = attr_remote p stat b in
    if p == []
    then (b, some (record no_attr { exists = true; is_dir = true; mode = 493 }))
    else elim (get p b.index) [
      | some e ↦ (b, some (attr_of mod_time (lookup p b.cache) e))
      | none ↦ if b.synced || not online then (b, some no_attr) else remote
    ]

-- `Readdir`
unfoldable pub readdir : Bytes → Backend → List DirEntry
readdir path b = children_of path b.index
