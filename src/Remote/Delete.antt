-- ===== src/Remote/Delete.antt =====
-- `del` of internal/agent/fileserver.go: what a queued delete removes on Source, and what it keeps.
use livegit.Flush.{DelReq, DelAck}
use livegit.Prelude.{
  Bool, true, false, not, ◌&&◌, ◌≡◌, refl, inl, inr, Option, none, some, [], Bytes, ◌==◌, bytes_eq,
  if◌then◌else◌, Bool-cases,
}
use livegit.Paths.{PathMapper, rel_to_remote, remote_to_rel}
use livegit.Remote.Walk.{
  Info, Found, Founds, file, dir, no_more, entry, at, is_staging, is_junk, name_of, listed,
  walk_dir, blocker, first_blocker, unsynced_left, file_blocks, dir_blocks, or_later, emitted,
}

-- What stands at the path: a regular file with its bytes, a directory, another kind of file, or what
-- os.Lstat cannot tell.
pub data Target : Type 0 where
  missing unknown special : Target
  regular : Bytes → Target
  directory : Bool → Founds → Target

-- How os.Remove and os.RemoveAll go, and whether the file can be hashed. A directory that holds
-- something is not removed by os.Remove; `left` is what a failed os.RemoveAll leaves.
pub record DelIo : Type 0 where
  pub remove_ok : Bool
  pub remove_all_ok : Bool
  pub left : Target
  pub hash_ok : Bool

abbrev pub done : DelAck
done = record { ok = true; conflict = false }

abbrev pub refused : DelAck
refused = record { ok = false; conflict = true }

unfoldable pub is_empty : Founds → Bool
is_empty no_more = true
is_empty (entry f rest) = false

module _ (hash : Bytes → Bytes) (m : PathMapper) (ignored : Bytes → Bool → Bool) where
  unfoldable pub del_dir : DelIo → Bytes → Bool → Founds → Target × Option DelAck
  del_dir io abs readable below =
      if is_empty below && io.remove_ok
      then (missing, some done)
      else elim (unsynced_left m ignored abs readable below) [
        | some b ↦ (directory readable below, some refused)
        | none ↦ if io.remove_all_ok then (missing, some done) else (io.left, some refused)
      ]

  unfoldable pub remove_file : DelIo → Target → Target × Option DelAck
  remove_file io t = if io.remove_ok then (missing, some done) else (t, none)

  unfoldable pub del_regular : DelIo → Bytes → Bytes → Target × Option DelAck
  unfolding remove_file
  del_regular io base content =
      if not io.hash_ok
      then (regular content, none)
      else if not (hash content == []) && (not (base == []) && not (hash content == base))
      then (regular content, some refused)
      else remove_file io (regular content)

  -- `del`: what stands at the path after it, and the answer; none is an error answer.
  unfoldable pub del : DelIo → DelReq → Target → Target × Option DelAck
  unfolding del_dir del_regular remove_file
  del io req missing = (missing, some done)
  del io req unknown = (unknown, none)
  del io req special = remove_file io special
  del io req (regular content) = del_regular io req.base_hash content
  del io req (directory readable below) = del_dir io (rel_to_remote m req.rel) readable below

  -- A file that is neither ignored nor junk, in a directory or below one that is not ignored.
  mutual
    pub data Blocks : Bytes → Found → Type 0 where
      block_file :
          {d name p : Bytes} {info : Option Info}
          → remote_to_rel m (at d name) ≡ some p
          → ignored p false ≡ false
          → is_junk name ≡ false
          → Blocks d (file name info)
      block_below :
          {d name p : Bytes} {info : Option Info} {readable : Bool} {below : Founds}
          → remote_to_rel m (at d name) ≡ some p
          → ignored p true ≡ false
          → BlocksIn (at d name) below
          → Blocks d (dir name info readable below)

    pub data BlocksIn : Bytes → Founds → Type 0 where
      first : {d : Bytes} {f : Found} {rest : Founds} → Blocks d f → BlocksIn d (entry f rest)
      later : {d : Bytes} {f : Found} {rest : Founds} → BlocksIn d rest → BlocksIn d (entry f rest)

  abbrev Stops : Option Bytes → Type 0
  Stops o = (b : Bytes) × (o ≡ some b)

  or_later-Stops : (now next : Option Bytes) → Stops next → Stops (or_later now next)
  or_later-Stops none next h = h
  or_later-Stops (some b) next h = (b, refl)

  mutual
    unfolding blocker first_blocker file_blocks dir_blocks

    blocker-Blocks : {d : Bytes} {f : Found} → Blocks d f → Stops (blocker m ignored d f)
    blocker-Blocks (block_file {p = p} mapped seen kept) = (p, rw mapped (rw (seen, kept) refl))
    blocker-Blocks (block_below {d} {name} {readable = readable} mapped seen inside) =
        let (b, stops) = first_blocker-BlocksIn inside in
        elim (Bool-cases readable) [
          | inl r ↦ (b, rw mapped (rw (seen, r) stops))
          | inr r ↦ (at d name, rw mapped (rw (seen, r) refl))
        ]

    first_blocker-BlocksIn :
        {d : Bytes} {fs : Founds} → BlocksIn d fs → Stops (first_blocker m ignored d fs)
    first_blocker-BlocksIn (first h) = let (b, stops) = blocker-Blocks h in (b, rw stops refl)
    first_blocker-BlocksIn (later {d} {f} {rest} h) =
        or_later-Stops (blocker m ignored d f) (first_blocker m ignored d rest)
          (first_blocker-BlocksIn h)

  unsynced_left-BlocksIn :
      (d : Bytes) (readable : Bool) (below : Founds)
      → BlocksIn d below
      → Stops (unsynced_left m ignored d readable below)
  unfolding unsynced_left
  unsynced_left-BlocksIn d true below h = first_blocker-BlocksIn h
  unsynced_left-BlocksIn d false below h = (d, refl)

  filled : {d : Bytes} {below : Founds} → BlocksIn d below → is_empty below ≡ false
  unfolding is_empty
  filled (first h) = refl
  filled (later h) = refl

  -- A delete of a directory that holds, at any depth, a file that is neither ignored nor junk of
  -- macOS and lies in no ignored directory leaves it as it is, and is answered as a conflict.
  pub del-BlocksIn :
      (io : DelIo) (req : DelReq) (readable : Bool) (below : Founds)
      → BlocksIn (rel_to_remote m req.rel) below
      → del io req (directory readable below) ≡ (directory readable below, some refused)
  unfolding del
  del-BlocksIn io req readable below h =
      let (b, stops) = unsynced_left-BlocksIn (rel_to_remote m req.rel) readable below h in
      rw (filled h) (rw (del_dir, stops) refl)

  -- A staging file of an upload that was broken off is no part of the tree that Ghost is shown, and
  -- yet keeps its directory from being deleted, if it is neither ignored nor junk of macOS.
  pub del-staging :
      (io : DelIo) (req : DelReq) (readable : Bool) (name p : Bytes) (info : Option Info)
      → remote_to_rel m (at (rel_to_remote m req.rel) name) ≡ some p
      → ignored p false ≡ false
      → is_staging name ≡ true
      → is_junk name ≡ false
      → let left = entry (file name info) no_more in
        (walk_dir m ignored (rel_to_remote m req.rel) left ≡ [])
        × (del io req (directory readable left) ≡ (directory readable left, some refused))
  unfolding walk_dir listed emitted name_of
  del-staging io req readable name p info mapped seen staging kept = (
    rw (staging, listed, name_of) refl,
    del-BlocksIn io req readable (entry (file name info) no_more)
        (first (block_file mapped seen kept)),
  )
