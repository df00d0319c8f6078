-- ===== src/Remote.antt =====
-- The writing half of the agent's file server, `write` of internal/agent/fileserver.go, on Source's
-- disk. The hash is a parameter, as is the answer of each system call that may fail.
pub mod Keys
pub mod Staging
pub mod Read
pub mod Rename
pub mod Walk
pub mod Delete
mod Samples
use livegit.Prelude.{
  ℕ, Bool, true, false, not, ◌&&◌, ◌||◌, Option, none, some, List, [], ◌++◌, Bytes, codes, ◌==◌,
  bytes_eq, nat_eq, length, take, if◌then◌else◌, ltb, lookup, insert, delete, add,
}
use Prim.Native.Nat.{bit_or}
use livegit.Paths.{PathMapper, rel_to_remote}

-- internal/proto/messages.go
pub record WriteReq : Type 0 where
  pub rel : Bytes
  pub content : Bytes
  pub offset : ℕ
  pub more : Bool
  pub probe : Bool
  pub stage_id : Bytes
  pub base_hash : Bytes
  pub mod_time : ℕ
  pub mode : ℕ
  pub is_dir : Bool

pub record WriteAck : Type 0 where
  pub acked : Bool
  pub conflict : Bool
  pub backup_rel : Bytes
  pub new_hash : Bytes
  pub source_mod : ℕ
  pub staged_at : ℕ

-- WriteAck{}
abbrev pub no_ack : WriteAck
no_ack = record {
  acked = false;
  conflict = false;
  backup_rel = [];
  new_hash = [];
  source_mod = 0;
  staged_at = 0;
}

pub record SourceFile : Type 0 where
  pub content : Bytes
  pub mode : ℕ
  pub mod_time : ℕ

abbrev pub Files : Type 0
Files = List (Bytes × SourceFile)

pub record Disk : Type 0 where
  pub files : Files
  pub dirs : List Bytes

-- How a write to a path that may be read-only goes.
pub data CommitIo : Type 0 where
  written denied_then_written failed : CommitIo

-- What the system calls answer, in the order in which `write` makes them, and the clock. An append
-- that fails has written some first bytes of the chunk.
pub record WriteIo : Type 0 where
  pub mkdir_ok : Bool
  pub id_ok : Bool
  pub open_ok : Bool
  pub fstat_ok : Bool
  pub append_ok : Bool
  pub appended : ℕ
  pub hash_ok : Bool
  pub backup_ok : Bool
  pub commit : CommitIo
  pub chmod_ok : Bool
  pub now : ℕ

abbrev pub part_suffix : Bytes
part_suffix = codes ".lg-part"

-- The staging file and its sidecar.
abbrev pub part_of : Bytes → Bytes
part_of abs = abs ++ part_suffix

abbrev pub id_of : Bytes → Bytes
id_of abs = part_of abs ++ codes ".id"

unfoldable pub content_of : Bytes → Files → Bytes
content_of p files = elim (lookup p files) [ none ↦ [] | some f ↦ f.content ]

-- The sidecar can be read and holds this id.
unfoldable pub id_matches : Bytes → Bytes → Files → Bool
id_matches abs id files = elim (lookup (id_of abs) files) [
  | none ↦ false
  | some f ↦ f.content == id
]

-- The answer to a probe: how much of this upload is staged.
unfoldable pub probe_staged : Bytes → Bytes → Files → ℕ
unfolding id_matches content_of
probe_staged abs id files =
    if not (id == []) && id_matches abs id files then length (content_of (part_of abs) files) else 0

-- 0o600 and 0o644
abbrev pub private_file : Bytes → ℕ → SourceFile
private_file c now = record { content = c; mode = 384; mod_time = now }

-- The staging file as opened: created where it is missing, emptied for a first chunk.
unfoldable pub open_part : Bytes → WriteReq → WriteIo → Files → Files
unfolding content_of
open_part abs req io files =
    insert (part_of abs)
      (private_file (if req.offset == 0 then [] else content_of (part_of abs) files) io.now) files

-- The chunk goes to the end of the staging file, if it continues it or its size cannot be had.
unfoldable pub append_part : Bytes → WriteReq → WriteIo → Files → Files × Bool
unfolding content_of
append_part abs req io files =
    let staged = content_of (part_of abs) files in
    if io.fstat_ok && not (length staged == req.offset)
    then (files, false)
    else if not io.append_ok
    then (
      insert (part_of abs) (private_file (staged ++ take io.appended req.content) io.now) files,
      false,
    )
    else (insert (part_of abs) (private_file (staged ++ req.content) io.now) files, true)

-- A chunk of a staged upload; false is an error answer.
unfoldable pub stage_chunk : Bytes → WriteReq → WriteIo → Files → Files × Bool
stage_chunk abs req io files =
    let first = insert (id_of abs) (private_file req.stage_id io.now) files in
    if req.offset == 0
    then (if not io.id_ok
        then (files, false)
        else if not io.open_ok
        then (first, false)
        else append_part abs req io (open_part abs req io first))
    else if not (id_matches abs req.stage_id files)
    then (delete (id_of abs) (delete (part_of abs) files), false)
    else if not io.open_ok
    then (files, false)
    else append_part abs req io (open_part abs req io files)

-- `none` is an error answer.
abbrev pub Answer : Type 0
Answer = Option WriteAck

module _ (hash : Bytes → Bytes) where
  -- hashx.File
  unfoldable pub hash_file : Bytes → Files → Bytes
  hash_file p files = elim (lookup p files) [ none ↦ [] | some f ↦ hash f.content ]

  -- The mode that the commit asks for: 0o644 where the request has none.
  abbrev pub wanted_mode : WriteReq → ℕ
  wanted_mode req = if req.mode == 0 then 420 else req.mode

  -- The mode of the file before the final chmod: a renamed staging file has its own, a file that
  -- was there keeps its mode unless it had to be made writable, and 0o200 is 128.
  unfoldable pub raw_mode : Bytes → WriteReq → WriteIo → Bool → Files → ℕ
  raw_mode abs req io staged files = if staged then 384 else elim io.commit [
    | denied_then_written ↦ bit_or (wanted_mode req) 128
    | _ ↦ elim (lookup abs files) [ none ↦ wanted_mode req | some f ↦ f.mode ]
  ]

  abbrev pub new_mod_time : WriteReq → WriteIo → ℕ
  new_mod_time req io = if ltb 0 req.mod_time then req.mod_time else io.now

  -- The last part of `write`, once the bytes are known: the staged ones or the request's. A failed
  -- chmod is an error, after the bytes are in place.
  unfoldable pub put_content : Bytes → WriteReq → WriteIo → Bool → WriteAck → Files → Files × Answer
  unfolding content_of raw_mode
  put_content abs req io staged ack files =
      let content = if staged then content_of (part_of abs) files else req.content in
      let rest = if staged then delete (part_of abs) files else files in
      let raw : SourceFile = record {
        content = content;
        mode = raw_mode abs req io staged files;
        mod_time = io.now;
      } in
      let final : SourceFile = record {
        content = content;
        mode = wanted_mode req;
        mod_time = new_mod_time req io;
      } in
      if not io.chmod_ok then (insert abs raw rest, none) else (
        insert abs final rest,
        some (record ack {
          acked = true;
          new_hash = hash content;
          source_mod = new_mod_time req io;
        }),
      )

  -- A staged commit is one rename. A plain write that is refused is tried again after a chmod. One
  -- that fails is taken to leave the file as it was.
  unfoldable pub commit_content :
      Bytes → WriteReq → WriteIo → Bool → WriteAck → Files → Files × Answer
  commit_content abs req io staged ack files = elim io.commit [
    | written ↦ put_content abs req io staged ack files
    | denied_then_written ↦
        if staged
        then (delete (part_of abs) files, none)
        else put_content abs req io staged ack files
    | failed ↦ (if staged then delete (part_of abs) files else files, none)
  ]

  -- The conflict check: a copy of Source's version is made where the two sides diverged.
  unfoldable pub check_conflict :
      PathMapper → Bytes → WriteReq → WriteIo → Bytes → Bool → Files → Files × Answer
  check_conflict m abs req io backup staged files =
      let current = hash_file abs files in
      let copied =
        insert (rel_to_remote m backup)
          (record { content = content_of abs files; mode = 420; mod_time = io.now }) files in
      let plain = commit_content abs req io staged no_ack files in
      let conflict =
        commit_content abs req io staged (record no_ack { conflict = true; backup_rel = backup })
          copied in
      if not io.hash_ok
      then (files, none)
      else if not (current == []) && (not (req.base_hash == []) && not (current == req.base_hash))
      then (if io.backup_ok then conflict else (files, none))
      else plain

  -- The sidecar goes when the upload ends, however the commit went.
  unfoldable pub finish : Bytes → Bool → Files × Answer → Files × Answer
  finish abs staged (files, answer) = (if staged then delete (id_of abs) files else files, answer)

  unfoldable pub write_file_req : PathMapper → WriteReq → WriteIo → Bytes → Files → Files × Answer
  write_file_req m req io backup files =
      let abs = rel_to_remote m req.rel in
      let (files', fits) = stage_chunk abs req io files in
      let whole = finish abs false (check_conflict m abs req io backup false files) in
      let last = finish abs true (check_conflict m abs req io backup true files') in
      if req.probe
      then (
        files,
        some (record no_ack { acked = true; staged_at = probe_staged abs req.stage_id files }),
      )
      else if not (ltb 0 req.offset || req.more)
      then whole
      else if not fits
      then (files', none)
      else if req.more
      then (files', some (record no_ack { acked = true }))
      else last

  -- `write`, with the name that it gives a conflict backup.
  unfoldable pub write : PathMapper → WriteReq → WriteIo → Bytes → Disk → Disk × Answer
  write m req io backup d =
      let (files, answer) = write_file_req m req io backup d.files in
      if not io.mkdir_ok
      then (d, none)
      else if req.is_dir
      then (
        record d { dirs = add (rel_to_remote m req.rel) d.dirs },
        some (record no_ack { acked = true }),
      )
      else (record d { files = files }, answer)
