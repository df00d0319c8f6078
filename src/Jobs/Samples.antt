-- ===== src/Jobs/Samples.antt =====
-- A job that is started, and one that has ended.
use livegit.Prelude.{
  true, false, ◌≡◌, refl, arith, none, some, [], ◌∷◌, ◌++◌, codes, bytes_eq, bytes_beq, lookup,
}
use livegit.Paths.{join_path, has_prefix}
use livegit.Ignore.{trim_space}
use livegit.Jobs.{JobMeta, JobDirs, Host, ActIo, atoi, act, nohup}
use livegit.Jobs.Acts.{OnlyEnded, act-OnlyEnded}
use livegit.Jobs.Start.{StartIo, hex_encode, start, resolve_dir}
use livegit.Jobs.Known.{Known, start-Known}
use livegit.Jobs.Tail.{Tail, Steps, start_tail, here, then, sends, reads}

abbrev all_alive : Host
all_alive = record { unit_active = λ u. true; process_there = λ p. true }

abbrev acts : ActIo
acts = record { stop_ok = true; remove_ok = true }

abbrev starts : StartIo
starts = record {
  random = some (1 ∷ 35 ∷ 69 ∷ 255 ∷ []);
  mkdir_ok = true;
  write_ok = true;
  force_nohup = false;
  linger_note = [];
  systemd_ok = true;
  systemd_error = none;
  nohup_pid = none;
  meta_ok = true;
  now = 7;
}

number : hex_encode (1 ∷ 35 ∷ 69 ∷ 255 ∷ []) ≡ codes "012345ff"
unfolding hex_encode
number = refl

start-Known_example :
    Known
      (hex_encode (1 ∷ 35 ∷ 69 ∷ 255 ∷ []))
      []
      all_alive
      acts
      (codes "make")
      (start starts (codes "/r") (codes "/j") (codes "make") (codes "d") []).0
unfolding start hex_encode lookup bytes_beq trim_space
start-Known_example =
    start-Known all_alive acts starts (codes "/r") (codes "/j") (codes "make") (codes "d") 1 35 69
      255 [] refl (omega arith) refl refl refl

abbrev ended : JobMeta
ended = record {
  id = codes "012345ff";
  cmd = codes "make";
  mode = nohup;
  unit = [];
  pid = 9;
  started = 7;
}

abbrev one_ended : JobDirs
one_ended =
    (
      codes "012345ff",
      record { meta = some ended; exit = some (codes "0" ++ 10 ∷ []); runner = none },
    )
    ∷ []

act-OnlyEnded_example :
    OnlyEnded all_alive acts
      (codes "012345ff")
      (codes "rm")
      one_ended
      (act all_alive acts (codes "012345ff") (codes "rm") one_ended).0
act-OnlyEnded_example = act-OnlyEnded all_alive acts (codes "012345ff") (codes "rm") one_ended

minus_three : atoi (codes "-3") ≡ some (true, 3)
unfolding atoi bytes_beq
minus_three = refl

outside : resolve_dir (codes "/r") (codes "../x") ≡ codes "/r"
unfolding resolve_dir bytes_beq join_path has_prefix
outside = refl

abbrev two_sent : Tail
two_sent = record { finished = false; sent = 1 ∷ 2 ∷ []; unread = 3 ∷ []; phase = reads }

two_sent-Steps : Steps true (start_tail (1 ∷ 2 ∷ 3 ∷ []) false) two_sent
two_sent-Steps = then here (
    sends (start_tail (1 ∷ 2 ∷ 3 ∷ []) false) (1 ∷ 2 ∷ []) (3 ∷ []) refl refl
      (λ e. ground (arith, e)))
