-- ===== src/Upload/Answers.antt =====
-- What the agent's file server answers to the requests of an upload when its system calls go well.
use livegit.Prelude.{
  ℕ, Bool, true, false, ◌≡◌, refl, inl, inr, some, [], Bytes, ◌==◌, bytes_eq, nat_eq, if◌then◌else◌,
  ltb, Bool-cases, lookup, insert, delete, lookup-insert, lookup-delete,
}
use livegit.Paths.{PathMapper, rel_to_remote}
use livegit.Remote.{
  WriteReq, WriteAck, SourceFile, Files, Disk, Answer, no_ack, part_of, content_of, probe_staged,
  stage_chunk, wanted_mode, new_mod_time, hash_file, put_content, commit_content, check_conflict,
  finish, write_file_req, write,
}
use livegit.Remote.Keys.{same_key, id-abs}
use livegit.Upload.Stage.{all_well}

module _ (hash : Bytes → Bytes) (m : PathMapper) (r : WriteReq) (now : ℕ) (backup : Bytes) where
  abbrev abs : Bytes
  abs = rel_to_remote m r.rel

  abbrev pub final_file : Bytes → SourceFile
  final_file content = record {
    content = content;
    mode = wanted_mode hash r;
    mod_time = new_mod_time hash r (all_well now);
  }

  abbrev pub final_ack : Bytes → WriteAck
  final_ack content = record no_ack {
    acked = true;
    new_hash = hash content;
    source_mod = new_mod_time hash r (all_well now);
  }

  -- The content is at the real path, and the answer says so.
  abbrev pub Committed : Bytes → Disk × Answer → Type 0
  Committed content (d, answer) =
      (lookup abs d.files ≡ some (final_file content)) × (answer ≡ some (final_ack content))

  no_conflict :
      (staged : Bool) (files : Files)
      → r.base_hash ≡ []
      → check_conflict hash m abs r (all_well now) backup staged files
        ≡ put_content hash abs r (all_well now) staged no_ack files
  unfolding check_conflict commit_content
  no_conflict staged files base = elim (Bool-cases (hash_file hash abs files == [])) [
    | inl e ↦ simp e
    | inr e ↦ simp (e, base, same_key [])
  ]

  put_well :
      (staged : Bool) (files : Files)
      → put_content hash abs r (all_well now) staged no_ack files ≡ (
        insert abs
            (final_file (if staged then content_of (part_of abs) files else r.content))
            (if staged then delete (part_of abs) files else files),
        some (final_ack (if staged then content_of (part_of abs) files else r.content)),
      )
  unfolding put_content
  put_well staged files = refl

  module _ (file_write : r.is_dir ≡ false) (no_probe : r.probe ≡ false) (d : Disk) where
    pub write-probe_at : write hash m (record r { probe = true }) (all_well now) backup d ≡ (
      d,
      some (record no_ack { acked = true; staged_at = probe_staged abs r.stage_id d.files }),
    )
    unfolding write write_file_req
    write-probe_at = simp file_write

    pub write-more :
        r.more ≡ true
        → (stage_chunk abs r (all_well now) d.files).1 ≡ true
        → write hash m r (all_well now) backup d ≡ (
          record d { files = (stage_chunk abs r (all_well now) d.files).0 },
          some (record no_ack { acked = true }),
        )
    unfolding write write_file_req
    write-more more fits = elim (Bool-cases (ltb 0 r.offset)) [
      | inl e ↦ simp (file_write, no_probe, e, more, fits)
      | inr e ↦ simp (file_write, no_probe, e, more, fits)
    ]

    pub write-last :
        (content : Bytes)
        → r.base_hash ≡ []
        → r.more ≡ false
        → ltb 0 r.offset ≡ true
        → (stage_chunk abs r (all_well now) d.files).1 ≡ true
        → content_of (part_of abs) (stage_chunk abs r (all_well now) d.files).0 ≡ content
        → Committed content (write hash m r (all_well now) backup d)
    unfolding write write_file_req finish
    write-last content base more later fits staged =
        simp
          (
            file_write, no_probe, later, more, fits, no_conflict, base, put_well, staged,
            lookup-delete, id-abs, lookup-insert, same_key,
          )
          (refl, refl)

    pub write-whole :
        r.base_hash ≡ []
        → r.more ≡ false
        → ltb 0 r.offset ≡ false
        → Committed r.content (write hash m r (all_well now) backup d)
    unfolding write write_file_req finish
    write-whole base more first =
        simp
          (file_write, no_probe, first, more, no_conflict, base, put_well, lookup-insert, same_key)
          (refl, refl)
