-- ===== src/Download.antt =====
-- One download, `doFetch` of internal/fuse/fetch.go: the staging file, its sidecar and the cache
-- file of one path. The text of a sidecar stands as its two numbers, a size and a time. What
-- `ReadStream` delivers from an offset and how it ends is a parameter.
pub mod Commit
use livegit.Prelude.{
  ℕ, ◌+◌, Bool, true, false, not, ◌&&◌, Option, none, some, List, [], ◌∷◌, ◌++◌, Bytes, eqb, ltb,
  length, take, if◌then◌else◌,
}
use livegit.Remote.Read.{FileStat}

abbrev pub Version : Type 0
Version = ℕ × ℕ

pub record Local : Type 0 where
  pub staged : Option Bytes
  pub sidecar : Option Version
  pub cached : Option Bytes

-- What becomes of a chunk: written, refused by `waitTurn`, or broken off after so many bytes.
pub data SinkIo : Type 0 where
  taken : SinkIo
  turned_away : SinkIo
  broken : (written : ℕ) → SinkIo

-- What becomes of reading the staged bytes into the hash
pub data PrimeIo : Type 0 where
  primed : PrimeIo
  broke_after : (bytes : ℕ) → PrimeIo

abbrev pub Stream : Type 0
Stream = ℕ → List (Bytes × SinkIo) × Option FileStat

pub record DownloadIo : Type 0 where
  pub stat_ok : Bool
  pub prime : PrimeIo
  pub truncate_ok : Bool
  pub seek_ok : Bool
  pub close_ok : Bool
  pub rename_ok : Bool

-- The bytes of the staging file, those the hash has seen, and `progress`
pub record Transfer : Type 0 where
  pub bytes : Bytes
  pub hashed : Bytes
  pub progress : ℕ

-- The entry put into the index
pub record Committed : Type 0 where
  pub size : ℕ
  pub mod_time : ℕ
  pub mode : ℕ
  pub hashed : Bytes

pub data Downloaded : Type 0 where
  vanished : Downloaded
  failed : Downloaded
  committed : Committed → Downloaded

abbrev pub same_version : Version → Version → Bool
same_version v w = eqb v.0 w.0 && eqb v.1 w.1

-- The sidecar is that of the version that the index knows.
unfoldable pub may_resume : Option Version → Option Version → Bool
may_resume (some v) (some prev) = same_version v prev
may_resume _ _ = false

unfoldable pub bytes_of : Option Bytes → Bytes
bytes_of none = []
bytes_of (some s) = s

-- What the hash has seen where the staged bytes are read into it; a break leaves what it saw.
unfoldable pub prime_hasher : PrimeIo → Bytes → Bytes × Bool
prime_hasher primed s = (s, true)
prime_hasher (broke_after n) s = (take n s, false)

-- The hash so far, and the offset to go on from
unfoldable pub resume : DownloadIo → Option Version → Local → Bytes × ℕ
resume io id local =
    let s = bytes_of local.staged in
    let (seen, ok) = prime_hasher io.prime s in
    if may_resume id local.sidecar && (io.stat_ok && ltb 0 (length s))
    then (if ok then (seen, length s) else (seen, 0))
    else ([], 0)

-- The file and the sidecar before the first chunk, where no call fails
unfoldable pub prepare : Option Version → ℕ → Bytes → Local → Local × Transfer
prepare id start seen local =
    if eqb start 0
    then (
      record local { staged = some []; sidecar = id },
      record { bytes = []; hashed = seen; progress = 0 },
    )
    else (local, record { bytes = bytes_of local.staged; hashed = seen; progress = start })

-- The sink, over the chunks that come
unfoldable pub deliver : List (Bytes × SinkIo) → Transfer → Transfer × Bool
deliver [] t = (t, true)
deliver ((chunk, taken) ∷ chunks) t = deliver chunks (record {
  bytes = t.bytes ++ chunk;
  hashed = t.hashed ++ chunk;
  progress = t.progress + length chunk;
})
deliver ((chunk, turned_away) ∷ chunks) t = (t, false)
deliver ((chunk, broken n) ∷ chunks) t = (record t { bytes = t.bytes ++ take n chunk }, false)

-- The staging is what came; the guard against a torn mix, and the commit.
unfoldable pub conclude :
    DownloadIo → Option Version → ℕ → Option FileStat → Local → Transfer → Local × Downloaded
conclude io id start none local t = (record local { staged = some t.bytes }, failed)
conclude io id start (some meta) local t =
    let kept = record local { staged = some t.bytes } in
    if not io.close_ok
    then (kept, failed)
    else if not meta.exists
    then (kept, vanished)
    else if ltb 0 start && not (may_resume id (some (meta.size, meta.mod_time)))
    then (record local { staged = none; sidecar = none }, failed)
    else if not io.rename_ok
    then (kept, failed)
    else (
      record { staged = none; sidecar = none; cached = some t.bytes },
      committed (record {
        size = t.progress;
        mod_time = meta.mod_time;
        mode = meta.mode;
        hashed = t.hashed;
      }),
    )

-- The chunks from an offset, and the end
unfoldable pub transfer :
    Stream → DownloadIo → Option Version → ℕ → Local × Transfer → Local × Downloaded
transfer stream io id start (local, t) =
    let (chunks, meta) = stream start in
    let (t', ok) = deliver chunks t in conclude io id start (if ok then meta else none) local t'

-- `doFetch`
unfoldable pub do_fetch : Stream → DownloadIo → Option Version → Local → Local × Downloaded
do_fetch stream io id local =
    let (seen, start) = resume io id local in
    if eqb start 0 && not io.truncate_ok
    then (local, failed)
    else if ltb 0 start && not io.seek_ok
    then (local, failed)
    else transfer stream io id start (prepare id start seen local)

-- The part of `runFetch` that removes the staging of a file that is not on Source
unfoldable pub clear_vanished : Local × Downloaded → Local × Downloaded
clear_vanished (local, vanished) = (record local { staged = none; sidecar = none }, vanished)
clear_vanished (local, failed) = (local, failed)
clear_vanished (local, committed e) = (local, committed e)
