-- ===== src/Run/Words.antt =====
-- The words of a command from `lg run` to Source's shell, and the ignore patterns from the
-- configuration to the agent.
use livegit.Prelude.{
  split_on, split_on-field, split_on-last, IsWithout, ◌≡◌, refl, ap, ◌∙◌, inl, inr, ◌⊎◌, true,
  false, arith, Option, none, some, List, [], ◌∷◌, ◌++◌, Bytes, ◌==◌, bytes_eq, bytes_beq,
  if◌then◌else◌, All, Bool-cases,
}
use livegit.Shellq.{join_quoted}
use livegit.Shellq.Unquote.{words, between, words-join_quoted}
use livegit.Run.{
  RunFlags, no_flags, fallback_flag, detach_flag, short_flag, dashes, run_flags, strip_dashes,
  with_command, parse_run, Ran, on_source, as_job, nowhere, locally, RunCallsIo, run_command,
  join_commas, comma, serve_patterns,
}

-- The word is one of the flags.
abbrev pub IsFlag : Bytes → Type 0
IsFlag f = (f ≡ fallback_flag) ⊎ (f ≡ detach_flag) ⊎ (f ≡ short_flag)

-- The flags that the words set
pub flags_of : RunFlags → List Bytes → RunFlags
flags_of flags [] = flags
flags_of flags (f ∷ fs) =
    let fallback = flags_of (record flags { local_fallback = true }) fs in
    let detached = flags_of (record flags { detach = true }) fs in
    if f == fallback_flag then fallback else detached

run_flags-flags :
    (fs args : List Bytes) (flags : RunFlags)
    → All IsFlag fs
    → run_flags flags (fs ++ dashes ∷ args) ≡ (flags_of flags fs, dashes ∷ args)
unfolding run_flags flags_of bytes_beq
run_flags-flags [] args flags h = refl
run_flags-flags (f ∷ fs) args flags (inl e, h) =
    rw e (run_flags-flags fs args (record flags { local_fallback = true }) h)
run_flags-flags (f ∷ fs) args flags (inr (inl e), h) =
    rw e (run_flags-flags fs args (record flags { detach = true }) h)
run_flags-flags (f ∷ fs) args flags (inr (inr e), h) =
    rw e (run_flags-flags fs args (record flags { detach = true }) h)

parse_run-dashes :
    (fs : List Bytes) (a : Bytes) (args : List Bytes)
    → All IsFlag fs
    → parse_run (fs ++ dashes ∷ a ∷ args) ≡ some (flags_of no_flags fs, a ∷ args)
unfolding parse_run strip_dashes with_command bytes_beq
parse_run-dashes fs a args h =
    ap (λ r. with_command r.0 (strip_dashes r.1)) (run_flags-flags fs (a ∷ args) no_flags h)

-- The line that a command is given on Source
pub line_of : Ran → Option Bytes
line_of nowhere = none
line_of (on_source line dir) = some line
line_of (as_job line dir) = some line
line_of (locally ws) = none

abbrev pub run_parsed : RunCallsIo → Bytes → Option (RunFlags × List Bytes) → Option Bytes
run_parsed io dir none = none
run_parsed io dir (some command) = line_of (run_command io dir command).0

-- The line on Source that `lg run` with these arguments comes to
abbrev pub run_words : RunCallsIo → Bytes → List Bytes → Option Bytes
run_words io dir args = run_parsed io dir (parse_run args)

sent :
    (io : RunCallsIo) (dir : Bytes) (flags : RunFlags) (args : List Bytes)
    → io.loaded ≡ true
    → io.authenticated ≡ true
    → io.online ≡ true
    → line_of (run_command io dir (flags, args)).0 ≡ some (join_quoted args)
unfolding run_command line_of
sent io dir flags args loaded known online = elim (Bool-cases flags.detach) [
  | inl d ↦ rw (run_command, loaded, known, online, d) (ground arith)
  | inr d ↦ rw (run_command, loaded, known, online, d) (ground arith)
]

-- However many flags stand before `--`, the words after it reach Source: where `lg run` runs them
-- there or as a job, a shell reads the line that it is given back as exactly these words.
pub run_words-dashes :
    (io : RunCallsIo) (dir : Bytes) (fs : List Bytes) (a : Bytes) (args : List Bytes)
    → All IsFlag fs
    → io.loaded ≡ true
    → io.authenticated ≡ true
    → io.online ≡ true
    → (line : Bytes) × (run_words io dir (fs ++ dashes ∷ a ∷ args) ≡ some line)
      × (words between [] [] line ≡ some (a ∷ args))
run_words-dashes io dir fs a args h loaded known online = (
  join_quoted (a ∷ args),
  ap (run_parsed io dir) (parse_run-dashes fs a args h)
      ∙ sent io dir (flags_of no_flags fs) (a ∷ args) loaded known online,
  words-join_quoted (a ∷ args) [],
)

-- A pattern that a list with commas can carry
abbrev pub IsField : Bytes → Type 0
IsField p = IsWithout comma p × ((p == []) ≡ false)

split_on-join_commas :
    (p : Bytes) (ps : List Bytes)
    → All IsField (p ∷ ps)
    → split_on comma (join_commas (p ∷ ps)) ≡ p ∷ ps
unfolding join_commas
split_on-join_commas p [] h = split_on-last comma p h.0.0
split_on-join_commas p (q ∷ ps) h =
    split_on-field comma p (join_commas (q ∷ ps)) h.0.0
    ∙ ap (λ l. p ∷ l) (split_on-join_commas q ps h.1)

-- The agent is handed the ignore patterns of the configuration, in their order, if none is empty or
-- holds a comma.
pub serve_patterns-join_commas :
    (ps : List Bytes) → All IsField ps → serve_patterns (join_commas ps) ≡ ps
unfolding serve_patterns join_commas bytes_beq
serve_patterns-join_commas [] h = refl
serve_patterns-join_commas ([] ∷ ps) h = cc (h.0.1)
serve_patterns-join_commas ((c ∷ p) ∷ []) h = split_on-join_commas (c ∷ p) [] h
serve_patterns-join_commas ((c ∷ p) ∷ q ∷ ps) h = split_on-join_commas (c ∷ p) (q ∷ ps) h
