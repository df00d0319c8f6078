-- ===== src/Remote/Samples.antt =====
-- Directories that a delete meets.
use livegit.Flush.{DelReq}
use livegit.Prelude.{
  Bool, true, false, ◌≡◌, refl, none, some, [], Bytes, codes, bytes_eq, bytes_beq,
}
use livegit.Paths.{
  PathMapper, rel, rel_to_remote, remote_to_rel, join_path, has_prefix, clean_slash, trim_prefix,
}
use livegit.Remote.Walk.{Found, file, dir, no_more, entry, is_junk, is_staging, walk_dir}
use livegit.Remote.Delete.{
  DelIo, missing, directory, refused, del, block_file, block_below, first, del-BlocksIn,
  del-staging,
}

abbrev mapper : PathMapper
mapper = record { local_root = codes "/m"; remote_root = codes "/r" }

abbrev nothing_ignored : Bytes → Bool → Bool
nothing_ignored p is_dir = false

abbrev same_hash : Bytes → Bytes
same_hash content = content

abbrev io : DelIo
io = record { remove_ok = true; remove_all_ok = true; left = missing; hash_ok = true }

abbrev req : DelReq
req = record { rel = codes "d"; base_hash = [] }

abbrev deep : Found
deep = dir (codes "e") none true (entry (file (codes "x") none) no_more)

del-BlocksIn_example :
    del same_hash mapper nothing_ignored io req (directory true (entry deep no_more))
    ≡ (directory true (entry deep no_more), some refused)
unfolding rel rel_to_remote remote_to_rel join_path has_prefix is_junk bytes_beq clean_slash
    trim_prefix
del-BlocksIn_example =
    del-BlocksIn same_hash mapper nothing_ignored io req true (entry deep no_more) (
      first (
        block_below {d = codes "/r/d"} {name = codes "e"} {p = codes "d/e"} refl refl (
          first (
            block_file {d = codes "/r/d/e"} {name = codes "x"} {p = codes "d/e/x"} refl refl
              refl))))

del-staging_example :
    (walk_dir mapper nothing_ignored
        (rel_to_remote mapper (codes "d"))
        (entry (file (codes "f.lg-part") none) no_more)
      ≡ [])
    × (del same_hash mapper nothing_ignored io req
          (directory true (entry (file (codes "f.lg-part") none) no_more))
        ≡ (directory true (entry (file (codes "f.lg-part") none) no_more), some refused))
unfolding rel rel_to_remote remote_to_rel join_path has_prefix is_junk is_staging bytes_beq
    clean_slash trim_prefix
del-staging_example =
    del-staging same_hash mapper nothing_ignored io req true (codes "f.lg-part")
      (codes "d/f.lg-part") none refl refl refl refl
