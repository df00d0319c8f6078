-- ===== src/Remote/Rename.antt =====
-- `rename` of internal/agent/fileserver.go, on files and on the directories that are made as such.
use livegit.Prelude.{
  Bool, true, false, not, ◌||◌, Option, none, some, ◌++◌, map, Bytes, ◌==◌, bytes_eq, length, drop,
  filter, any, if◌then◌else◌,
}
use livegit.Prefix.{under_prefix}
use livegit.Paths.{PathMapper, rel_to_remote}
use livegit.Remote.{Disk}

-- internal/proto/messages.go, less the message
pub record RenameReq : Type 0 where
  pub old_rel : Bytes
  pub new_rel : Bytes

pub record RenameAck : Type 0 where
  pub ok : Bool

-- How os.MkdirAll and os.Rename go.
pub record RenameIo : Type 0 where
  pub mkdir_ok : Bool
  pub rename_ok : Bool

-- os.Lstat finds something: a file, a directory, or what lies below one.
unfoldable pub stands : Bytes → Disk → Bool
stands p d =
    any (λ e. e.0 == p || under_prefix e.0 p) d.files
    || any (λ q. q == p || under_prefix q p) d.dirs

unfoldable pub moved_path : Bytes → Bytes → Bytes → Bytes
moved_path old new p =
    if p == old then new else if under_prefix p old then new ++ drop (length old) p else p

-- os.Rename, which takes the place of a file or of an empty directory, and leaves a path that is
-- renamed to itself.
unfoldable pub move_all : Bytes → Bytes → Disk → Disk
move_all old new d =
    let moved : Disk = record {
      files = map (λ e. (moved_path old new e.0, e.1)) (filter (λ e. not (e.0 == new)) d.files);
      dirs = map (moved_path old new) (filter (λ q. not (q == new)) d.dirs);
    } in
    if old == new then d else moved

-- `rename`; none is an error answer, and a move that Source cannot make is declined.
unfoldable pub rename_source : PathMapper → RenameIo → RenameReq → Disk → Disk × Option RenameAck
rename_source m io req d =
    let old = rel_to_remote m req.old_rel in
    let new = rel_to_remote m req.new_rel in
    if not (stands old d)
    then (d, some (record { ok = false }))
    else if not io.mkdir_ok
    then (d, none)
    else if not io.rename_ok
    then (d, some (record { ok = false }))
    else (move_all old new d, some (record { ok = true }))
