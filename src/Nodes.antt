-- ===== src/Nodes.antt =====
-- The nodes of the mounted tree and the open files, internal/fuse/node.go, on the backend. What the
-- kernel asks is an argument, as is what Materialize brings and what the system calls answer; the
-- owner of a file and the naming of processes are left out.
pub mod Inodes
pub mod Handles
pub mod Edits
pub mod Unsaved
mod Samples
use livegit.Prelude.{
  ℕ, zero, suc, ◌+◌, ◌-◌, ◌*◌, ◌/◌, ◌%◌, ◌^◌, Bool, true, false, not, ◌&&◌, ◌||◌, Option, none,
  some, List, [], ◌++◌, ◌∷◌, map, Bytes, ◌==◌, bytes_eq, nat_eq, if◌then◌else◌, lookup, ltb,
}
use livegit.Prefix.{slash}
use livegit.Paths.{rel}
use livegit.Journal.{AppendIo}
use livegit.Index.{DirEntry}
use livegit.Remote.Read.{FileStat}
use livegit.Backend.{Backend, CachedFile, mark_live_new, mark_dir, record_write, record_delete}
use livegit.Changes.{Materialized, materialize}
use livegit.Changes.OnSource.{RenameIo, record_rename}
use livegit.Attributes.{
  Attr, SetIo, SetRequest, no_attr, getattr, readdir, record_setattr, with_cached,
}
use livegit.Fetch.{
  Fetches, FetchError, StartIo, Started, present, fetching, refused, Wait, returns, blocks,
  reader_added, start_fetch, update,
}

-- syscall.Errno, and fs.ToErrno of a failed call
pub data Errno : Type 0 where
  ok enoent eio eintr exdev : Errno
  os_errno : ℕ → Errno

-- `child`
unfoldable pub child : Bytes → Bytes → Bytes
child n name = if n == [] then rel name else rel (n ++ slash ∷ name)

-- gofuse.Attr without the owner; the kind of file is `is_dir`.
pub record Filled : Type 0 where
  pub is_dir : Bool
  pub perm : ℕ
  pub size : ℕ
  pub time : Option ℕ

-- `fillAttr`; 0o777 is 511, 0o755 is 493, 0o644 is 420.
unfoldable pub fill_attr : Attr → Filled
fill_attr a = record {
  is_dir = a.is_dir;
  perm =
      if a.is_dir
      then (if a.mode == 0 then 493 else a.mode % 512)
      else if a.mode % 512 == 0
      then 420
      else a.mode % 512;
  size = a.size;
  time = if ltb 0 a.mod_time then some a.mod_time else none;
}

-- What Getattr of the backend meets.
pub record AttrIo : Type 0 where
  pub online : Bool
  pub stat : Option FileStat
  pub mod_time : ℕ

abbrev pub shown_attr : Option Attr → Option Filled × Errno
shown_attr none = (none, eio)
shown_attr (some a) = if not a.exists then (none, enoent) else (some (fill_attr a), ok)

-- `Getattr` and `Lookup`, on the node's path and on the child's.
unfoldable pub node_getattr : AttrIo → Bytes → Backend → Backend × (Option Filled × Errno)
node_getattr io n b = let (b', a) = getattr io.online io.stat io.mod_time n b in (b', shown_attr a)

unfoldable pub node_lookup : AttrIo → Bytes → Bytes → Backend → Backend × (Option Filled × Errno)
unfolding node_getattr
node_lookup io n name b = node_getattr io (child n name) b

-- `Readdir`: the names, and which are directories
unfoldable pub node_readdir : Bytes → Backend → List (Bytes × Bool)
node_readdir n b = map (λ e. (e.name, e.is_dir)) (readdir n b)

-- `lgHandle`
pub record Handle : Type 0 where
  pub rel : Bytes
  pub writable : Bool
  pub fetch : Option ℕ
  pub dirty : Bool

pub data Opened : Type 0 where
  opened : Handle → Opened
  declined : Errno → Opened

-- What a writable open meets: what Materialize brings, whether its error says that there is no such
-- file, and the error of the local open.
pub record OpenIo : Type 0 where
  pub fetched : Materialized
  pub missing : Bool
  pub open_error : Option ℕ

-- O_TRUNC empties the file.
unfoldable pub truncated : Bool → Bytes → CachedFile → Backend → Backend
truncated trunc p f b = if trunc then with_cached p (record f { size = 0 }) b else b

unfoldable pub opened_for_write :
    OpenIo → Bool → Bytes → Backend × Option CachedFile → Backend × Opened
opened_for_write io trunc n (b, none) = (b, declined (if io.missing then enoent else eio))
opened_for_write io trunc n (b, some f) = elim io.open_error [
  | some e ↦ (b, declined (os_errno e))
  | none ↦ (
    truncated trunc (rel n) f b,
    opened (record { rel = n; writable = true; fetch = none; dirty = trunc }),
  )
]

-- `Open` for writing
unfoldable pub open_writable : OpenIo → Bool → Bytes → Backend → Backend × Opened
unfolding opened_for_write truncated
open_writable io trunc n b = opened_for_write io trunc n (materialize io.fetched (rel n) b)

-- How the open of what StartFetch names goes, or its own error.
pub record ReadIo : Type 0 where
  pub start : StartIo
  pub missing : Bool
  pub open_ok : Bool
  pub gone : Bool

pub data Reading : Type 0 where
  reading : Option ℕ → Reading
  unreadable : Bool → Reading

-- One round of `OpenForRead`: none is another round.
unfoldable pub open_round : ReadIo → Fetches × Started → Fetches × Option Reading
open_round io (b, refused) = (b, some (unreadable io.missing))
open_round io (b, present) = (b, some (if io.open_ok then reading none else unreadable io.gone))
open_round io (b, fetching id) =
    if io.open_ok
    then (update id reader_added b, some (reading (some id)))
    else (b, if io.gone then none else some (unreadable false))

-- `OpenForRead`, with the rounds that are left
unfoldable pub open_for_read : (ℕ → ReadIo) → Bool → ℕ → Bytes → Fetches → Fetches × Reading
unfolding open_round
open_for_read io bg zero p b = (b, unreadable false)
open_for_read io bg (suc left) p b =
    let (b', found) = open_round (io left) (start_fetch (io left).start p bg b) in
    let rest = open_for_read io bg left p b' in elim found [ none ↦ rest | some r ↦ (b', r) ]

-- `Open` for reading
unfoldable pub open_readable : (ℕ → ReadIo) → Bool → Bytes → Fetches → Fetches × Opened
unfolding open_for_read
open_readable io bg n running =
    let (running', r) = open_for_read io bg 3 n running in
    elim r [
      | unreadable missing ↦ (running', declined (if missing then enoent else eio))
      | reading id ↦
          (running', opened (record { rel = n; writable = false; fetch = id; dirty = false }))
    ]

pub record CreateIo : Type 0 where
  pub mkdir_error : Option ℕ
  pub open_error : Option ℕ
  pub attr : AttrIo

-- The file as os.OpenFile leaves it.
abbrev pub created_file : Bool → ℕ → Option CachedFile → CachedFile
created_file trunc mode none = record { size = 0; mode = mode % 512 }
created_file trunc mode (some f) = if trunc then record f { size = 0 } else f

-- One error, then the other.
abbrev pub first_error : Option ℕ → Option ℕ → Option ℕ
first_error none later = later
first_error (some e) later = some e

module _ (matches : Bytes → Bool) where
  -- `Create`
  unfoldable pub node_create :
      CreateIo → ℕ → Bool → ℕ → Bytes → Bytes → Backend → Backend × (Option Filled × Opened)
  node_create io now trunc mode n name b =
      let p = child n name in
      let live =
        mark_live_new matches now p mode
          (with_cached p (created_file trunc mode (lookup p b.cache)) b) in
      let (b', a) = getattr io.attr.online io.attr.stat io.attr.mod_time p live in
      let shown : Attr = elim a [ none ↦ no_attr | some x ↦ x ] in
      elim (first_error io.mkdir_error io.open_error) [
        | some e ↦ (b, (none, declined (os_errno e)))
        | none ↦ (
          b',
          (
            some (fill_attr shown),
            opened (record { rel = p; writable = true; fetch = none; dirty = true }),
          ),
        )
      ]

  -- `Mkdir`
  unfoldable pub node_mkdir :
      AppendIo → Option ℕ → ℕ → ℕ → Bytes → Bytes → Backend → Backend × Errno
  node_mkdir io mkdir_error now mode n name b = elim mkdir_error [
    | some e ↦ (b, os_errno e)
    | none ↦ (mark_dir matches io now (child n name) mode b, ok)
  ]

  -- `Setattr`; the error of RecordSetattr says that there is no such file, or not.
  unfoldable pub node_setattr :
      SetIo → Bool → AttrIo → SetRequest → ℕ → Bytes → Backend → Backend × (Option Filled × Errno)
  unfolding node_getattr
  node_setattr io missing attr_io req now n b =
      let (b', done) = record_setattr matches io req now n b in
      if done then node_getattr attr_io n b' else (b', (none, if missing then enoent else eio))

  -- `Rename`, but for the moved inodes; a new parent that is no node of the mount is foreign.
  unfoldable pub node_rename :
      RenameIo → Bool → ℕ → ℕ → Bytes → Bytes → Option Bytes → Bytes → Backend → Backend × Errno
  node_rename io missing fuel now n name none new_name b = (b, exdev)
  node_rename io missing fuel now n name (some parent) new_name b =
      let (b', done) = record_rename matches io fuel now (child n name) (child parent new_name) b in
      (b', if done then ok else if missing then enoent else eio)

-- `Unlink` and `Rmdir`
unfoldable pub node_delete : AppendIo → ℕ → Bytes → Bytes → Backend → Backend × Errno
node_delete io now n name b =
    let (b', done) = record_delete io now (child n name) b in (b', if done then ok else eio)

pub record StatfsOut : Type 0 where
  pub bsize : ℕ
  pub blocks : ℕ
  pub bfree : ℕ
  pub files : ℕ
  pub ffree : ℕ
  pub name_len : ℕ

-- `Statfs`
unfoldable pub node_statfs : StatfsOut
node_statfs = record {
  bsize = 4096;
  blocks = 256 * 2 ^ 30 / 4096;
  bfree = 256 * 2 ^ 30 / 4096;
  files = 2 ^ 20;
  ffree = 2 ^ 20;
  name_len = 255;
}
