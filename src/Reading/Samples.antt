-- ===== src/Reading/Samples.antt =====
-- Five bytes of which two are staged, read two at a time.
use livegit.Prelude.{sym, ◌∙◌, ℕ, ◌∷◌, [], ◌≡◌, refl, true, some, none, ap, List, Bytes, drop}
use livegit.Remote.{SourceFile}
use livegit.Remote.Read.{read_file}
use livegit.Download.{
  Version, Local, SinkIo, taken, primed, DownloadIo, Committed, do_fetch, resume, prime_hasher,
  may_resume, bytes_of, prepare, deliver, conclude, transfer,
}
use livegit.Download.Commit.{IsWhole}
use livegit.Reading.{
  read_stream, on_answer, with_chunk, is_changed, first_stat, chunk_length, known_stat,
}
use livegit.Reading.Whole.{answers, concat}
use livegit.Reading.Ends.{stays, read_stream_lem, content_at, bytes_at, full}
use livegit.Reading.Fetching.{reading, do_fetch-read_stream}

abbrev text : Bytes
text = 1 ∷ 2 ∷ 3 ∷ 4 ∷ 5 ∷ []

-- Every version of the file holds the same.
abbrev versions : Version → Bytes
versions v = text

abbrev file : SourceFile
file = record { content = text; mod_time = 70; mode = 420 }

abbrev name : Bytes
name = 97 ∷ []

abbrev sink : ℕ → SinkIo
sink i = taken

abbrev io : DownloadIo
io = record {
  stat_ok = true;
  prime = primed;
  truncate_ok = true;
  seek_ok = true;
  close_ok = true;
  rename_ok = true;
}

abbrev local : Local
local = record { staged = some (1 ∷ 2 ∷ []); sidecar = some (5, 70); cached = none }

abbrev result : Committed
result = record { size = 5; mod_time = 70; mode = 420; hashed = text }

do_fetch-read_stream_example :
    IsWhole versions io
      (do_fetch (reading name 2 (stays name 2 file) 9 sink) io (some (5, 70)) local).0
      result
unfolding do_fetch resume prime_hasher may_resume bytes_of prepare deliver conclude transfer
    read_stream on_answer with_chunk is_changed first_stat chunk_length known_stat read_file
do_fetch-read_stream_example =
    do_fetch-read_stream versions name 2 (stays name 2 file) 9 sink io (some (5, 70)) local result
      (λ round f bytes e. (ap content_at e, sym (ap bytes_at e) ∙ ap content_at e))
      (λ v same. (drop 2 text, refl)) refl

read_stream_lem_example :
    (chunks : List Bytes) × (read_stream name (answers name 2 (stays name 2 file)) 6 0 1 none
      ≡ some (chunks, some (full name 2 file)))
    × (concat chunks ≡ drop 1 text)
read_stream_lem_example = read_stream_lem name 2 file 1
