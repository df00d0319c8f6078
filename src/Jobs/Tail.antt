-- ===== src/Jobs/Tail.antt =====
-- Tailing the log of a job, the loop of `serveLog` in internal/agent/jobs.go, beside the job that
-- writes it: every order of their steps.
use livegit.Prelude.{
  ◌⊎◌, ◌≡◌, ◌≢◌, refl, sym, ap, ◌∙◌, Bool, true, false, [], ◌++◌, append_assoc, append-nil, Bytes,
}

-- Where the loop stands: before a read, after one that met the end of the file, done with the log, or
-- broken off.
pub data Phase : Type 0 where
  reads at_end done broken : Phase

-- The log, whether the job's exit code is written, what the loop has sent, in what it has still to
-- read, and where it stands.
pub record Tail : Type 0 where
  pub finished : Bool
  pub sent : Bytes
  pub unread : Bytes
  pub phase : Phase

abbrev pub start_tail : Bytes → Bool → Tail
start_tail log finished = record { finished = finished; sent = []; unread = log; phase = reads }

-- A step of the job or of the loop, which follows the log or not. A read of a file that is not at
-- its end brings a byte or more; the loop stops early where Ghost is gone or a call fails.
pub data Step (follow : Bool) : Tail → Tail → Type 0 where
  writes :
      (t : Tail) (more : Bytes)
      → t.finished ≡ false
      → Step follow t (record t { unread = t.unread ++ more })
  finishes : (t : Tail) → Step follow t (record t { finished = true })
  sends :
      (t : Tail) (chunk rest : Bytes)
      → t.phase ≡ reads
      → t.unread ≡ chunk ++ rest
      → chunk ≢ []
      → Step follow t (record t { sent = t.sent ++ chunk; unread = rest })
  meets_end :
      (t : Tail) → t.phase ≡ reads → t.unread ≡ [] → Step follow t (record t { phase = at_end })
  ends : (t : Tail) → t.phase ≡ at_end → follow ≡ false → Step follow t (record t { phase = done })
  sees_exit :
      (t : Tail)
      → t.phase ≡ at_end
      → follow ≡ true
      → t.finished ≡ true
      → Step follow t (record t { phase = done })
  waits :
      (t : Tail)
      → t.phase ≡ at_end
      → follow ≡ true
      → t.finished ≡ false
      → Step follow t (record t { phase = reads })
  breaks_off :
      (t : Tail)
      → (t.phase ≡ reads) ⊎ (t.phase ≡ at_end)
      → Step follow t (record t { phase = broken })

pub data Steps (follow : Bool) (s : Tail) : Tail → Type 0 where
  here : Steps follow s s
  then : {t u : Tail} → Steps follow s t → Step follow t u → Steps follow s u

-- What is sent is the beginning of the log, and the log only grows.
abbrev pub Sends : Bytes → Tail → Type 0
Sends log t = (grown : Bytes) × (t.sent ++ t.unread ≡ log ++ grown)

Step-Sends :
    {follow : Bool} {t u : Tail} → Step follow t u → (log : Bytes) → Sends log t → Sends log u
Step-Sends (writes t more f) log (grown, e) = (
  grown ++ more,
  sym (append_assoc t.sent t.unread more) ∙ ap (λ l. l ++ more) e ∙ append_assoc log grown more,
)
Step-Sends (finishes t) log h = h
Step-Sends (sends t chunk rest p e n) log (grown, g) =
    (grown, append_assoc t.sent chunk rest ∙ ap (λ l. t.sent ++ l) (sym e) ∙ g)
Step-Sends (meets_end t p e) log h = h
Step-Sends (ends t p f) log h = h
Step-Sends (sees_exit t p f d) log h = h
Step-Sends (waits t p f d) log h = h
Step-Sends (breaks_off t p) log h = h

Steps-Sends :
    {follow : Bool} {s t : Tail} → Steps follow s t → (log : Bytes) → Sends log s → Sends log t
Steps-Sends here log h = h
Steps-Sends (then r s) log h = Step-Sends s log (Steps-Sends r log h)

-- However a job and the tailing of its log interleave, what is sent, followed by what is not yet
-- read, is the log as it was at the start with what the job has written since.
pub tail-Sends :
    {follow finished : Bool} {log : Bytes} {t : Tail}
    → Steps follow (start_tail log finished) t
    → Sends log t
tail-Sends {log = log} r = Steps-Sends r log ([], sym (append-nil log))

-- A job that writes its last bytes and ends after the loop has met the end of its log, and before the
-- loop looks for the exit code, has those bytes left out: the following ends without them.
pub tail-unsent :
    (log last : Bytes)
    → log ≢ []
    → Steps true
        (start_tail log false)
        (record { finished = true; sent = log; unread = last; phase = done })
tail-unsent log last some_log =
    then
      (then
        (then
          (then
            (then here (sends (start_tail log false) log [] refl (sym (append-nil log)) some_log))
            (meets_end (record { finished = false; sent = log; unread = []; phase = reads }) refl
              refl))
          (writes (record { finished = false; sent = log; unread = []; phase = at_end }) last refl))
        (finishes (record { finished = false; sent = log; unread = last; phase = at_end })))
      (sees_exit (record { finished = true; sent = log; unread = last; phase = at_end }) refl refl
        refl)
