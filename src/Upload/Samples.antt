-- ===== src/Upload/Samples.antt =====
-- Uploads of a small file, and the staging of one at Source.
use livegit.Prelude.{
  ℕ, ◌≡◌, refl, arith, true, false, some, [], ◌∷◌, Bytes, codes, bytes_eq, bytes_beq, lookup,
}
use livegit.Paths.{PathMapper, new_path_mapper, rel_to_remote, rel}
use livegit.Remote.{
  SourceFile, WriteReq, WriteIo, Disk, Files, private_file, part_of, id_of, content_of, id_matches,
  stage_chunk,
}
use livegit.Remote.Read.{ReadReq}
use livegit.Remote.Staging.{Staged, stage_chunk-Staged}
use livegit.Upload.{LocalFile, flush_req, write_file}
use livegit.Upload.Stage.{all_well}
use livegit.Upload.Complete.{Uploaded, call, write_file-Uploaded}

abbrev home : PathMapper
home = new_path_mapper (codes "/me/w") (codes "/srv/w")

abbrev local : LocalFile
local = record { content = codes "abcdef"; mtime = 7 }

abbrev name_upload : ℕ → ℕ → Bytes
name_upload size mtime = size ∷ mtime ∷ []

abbrev at_f : Bytes
at_f = rel_to_remote home (codes "f")

-- An attempt stopped after two bytes.
abbrev interrupted : Files
interrupted =
    (part_of at_f, private_file (codes "ab") 1)
    ∷ (id_of at_f, private_file (name_upload 6 7) 1)
    ∷ []

abbrev disk : Disk
disk = record { files = interrupted; dirs = [] }

interrupted-Staged : Staged at_f (name_upload 6 7) (codes "abcdef") interrupted
unfolding id_matches content_of rel_to_remote new_path_mapper bytes_beq lookup rel
interrupted-Staged h = (codes "cdef", refl)

write_file-Uploaded_example :
    Uploaded
      (λ c. c)
      home
      (codes "f")
      5
      420
      9
      (codes "f.b")
      (codes "abcdef")
      (write_file
        (call (λ c. c) home (codes "f") 5 420 9 (codes "f.b"))
        name_upload
        2
        (flush_req (codes "f") 5 420)
        (some local)
        disk)
write_file-Uploaded_example =
    write_file-Uploaded (λ c. c) home (codes "f") 5 420 9 (codes "f.b") name_upload 2 local disk
      (omega arith) interrupted-Staged

abbrev chunk : WriteReq
chunk = record (flush_req (codes "f") 5 420) {
  content = codes "cd";
  offset = 2;
  more = true;
  stage_id = name_upload 6 7;
}

abbrev first_chunk : WriteReq
first_chunk = record (flush_req (codes "f") 5 420) {
  content = codes "xy";
  offset = 0;
  more = true;
  stage_id = name_upload 9 8;
}

abbrev append_fails : WriteIo
append_fails = record (all_well 3) { append_ok = false; appended = 1 }

abbrev open_fails : WriteIo
open_fails = record (all_well 3) { open_ok = false }

stage_chunk-Staged_example :
    Staged at_f
      (name_upload 6 7)
      (codes "abcdef")
      (stage_chunk at_f chunk append_fails interrupted).0
stage_chunk-Staged_example =
    stage_chunk-Staged at_f chunk append_fails (codes "abcdef") interrupted
      (codes "ab", codes "ef", refl, refl) (λ _ _. refl) refl interrupted-Staged

abbrev source_file : SourceFile
source_file = record { content = codes "hello"; mode = 420; mod_time = 3 }

abbrev served : Disk
served = record { files = (at_f, source_file) ∷ []; dirs = [] }

abbrev read_req : ReadReq
read_req = record { rel = codes "f"; offset = 2; max_len = 2 }

f_served : lookup (rel_to_remote home read_req.rel) served.files ≡ some source_file
unfolding lookup rel_to_remote new_path_mapper bytes_beq rel
f_served = refl
