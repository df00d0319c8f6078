-- ===== src/Remote/Read.antt =====
-- `stat` and `read` of internal/agent/fileserver.go. What the system calls may refuse is an
-- argument.
use livegit.Prelude.{
  ℕ, ◌+◌, ◌≤◌, ◌<◌, Bool, true, false, ◌||◌, ◌≡◌, ap, sym, ◌∙◌, arith, Option, none, some, [], ◌++◌,
  ◌-◌, Bytes, ◌==◌, bytes_eq, nat_eq, length, length-append, length-drop, take, drop,
  take-append-drop, if◌then◌else◌, ltb, has, lookup,
}
use livegit.Paths.{PathMapper, rel, rel_to_remote}
use livegit.Remote.{SourceFile, Disk}

-- internal/proto/messages.go
pub record FileStat : Type 0 where
  pub rel : Bytes
  pub exists : Bool
  pub is_dir : Bool
  pub size : ℕ
  pub mod_time : ℕ
  pub mode : ℕ

pub record ReadReq : Type 0 where
  pub rel : Bytes
  pub offset : ℕ
  pub max_len : ℕ

pub record ReadResp : Type 0 where
  pub found : Bool
  pub content : Bytes
  pub more : Bool
  pub size : ℕ
  pub mod_time : ℕ
  pub mode : ℕ

-- A path that cannot be read is one that is not there. The metadata of a directory is `dir`.
unfoldable pub stat : PathMapper → SourceFile → Bytes → Disk → FileStat
stat m dir p d =
    let missing : FileStat = record {
      rel = rel p;
      exists = false;
      is_dir = false;
      size = 0;
      mod_time = 0;
      mode = 0;
    } in
    elim (lookup (rel_to_remote m p) d.files) [
      | some f ↦ record missing {
        exists = true;
        size = length f.content;
        mod_time = f.mod_time;
        mode = f.mode;
      }
      | none ↦
          if has (rel_to_remote m p) d.dirs
          then record missing {
            exists = true;
            is_dir = true;
            size = length dir.content;
            mod_time = dir.mod_time;
            mode = dir.mode;
          }
          else missing
    ]

-- The default is 4 MiB, and no more than 8 MiB may be asked for.
abbrev pub read_max : ℕ → ℕ
read_max asked = if asked == 0 || ltb 8388608 asked then 4194304 else asked

-- The chunk of a file: `os.Stat` finds it as `f`, and by the time of `ReadAt` it holds `bytes`.
unfoldable pub read_file : ReadReq → SourceFile → Bytes → ReadResp
read_file req f bytes =
    let buf = take (read_max req.max_len) (drop req.offset bytes) in
    record {
      found = true;
      content = buf;
      more = ltb (req.offset + length buf) (length f.content);
      size = length f.content;
      mod_time = f.mod_time;
      mode = f.mode;
    }

-- `read`; none is an error answer. `opened` is what the file holds when it is read, if it can be
-- opened and read then.
unfoldable pub read : PathMapper → Option Bytes → ReadReq → Disk → Option ReadResp
read m opened req d =
    let missing : ReadResp = record {
      found = false;
      content = [];
      more = false;
      size = 0;
      mod_time = 0;
      mode = 0;
    } in
    elim (lookup (rel_to_remote m req.rel) d.files) [
      | none ↦ if has (rel_to_remote m req.rel) d.dirs then none else some missing
      | some f ↦ elim opened [ none ↦ none | some bytes ↦ some (read_file req f bytes) ]
    ]

pub read_max-pos : (asked : ℕ) → 0 < read_max asked
read_max-pos asked = ground arith

-- A chunk of a file is the bytes from the offset asked for, a byte at least where any are left;
-- it says that more follow exactly when some do, and is never larger than 8 MiB, if the path is a file that opens and stays as it is,
-- and the offset is within it.
pub read_lem :
    (m : PathMapper) (req : ReadReq) (d : Disk) (f : SourceFile)
    → lookup (rel_to_remote m req.rel) d.files ≡ some f
    → req.offset < length f.content
    → (r : ReadResp) × (rest : Bytes) × (read m (some f.content) req d ≡ some r)
      × (f.content ≡ take req.offset f.content ++ (r.content ++ rest))
      × (0 < length r.content)
      × (length r.content ≤ 8388608)
      × (r.more ≡ ltb 0 (length rest))
unfolding read read_file
read_lem m req d f found within =
    let tail : Bytes = drop req.offset f.content in
    let max : ℕ = read_max req.max_len in
    let left : length tail ≡ length f.content - req.offset = length-drop req.offset f.content in
    let split : length tail ≡ length (take max tail) + length (drop max tail) =
      ap length (sym (take-append-drop max tail)) ∙ length-append (take max tail) (drop max tail) in
    let after : length (drop max tail) ≡ length tail - max = length-drop max tail in
    let pos : 0 < max = read_max-pos req.max_len in
    let capped : max ≤ 8388608 = ground arith in
    (
      read_file req f f.content,
      drop max tail,
      rw (read, found),
      sym (take-append-drop req.offset f.content)
          ∙ ap (λ l. take req.offset f.content ++ l) (sym (take-append-drop max tail)),
      omega (arith, left, split, after, pos, within),
      omega (arith, split, after, capped, left, within),
      ground (arith, left, split, after, within),
    )
