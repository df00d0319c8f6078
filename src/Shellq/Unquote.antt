-- ===== src/Shellq/Unquote.antt =====
-- What a POSIX shell reads of a line made by internal/shellq/shellq.go.
use livegit.Prelude.{
  ◌≡◌, ap, sym, ◌∙◌, inl, inr, Option, none, some, List, [], ◌∷◌, ◌++◌, append_assoc, append-nil,
  Bytes, eqb, eqb_iff, if◌then◌else◌, Bool-cases,
}
use livegit.Shellq.{apostrophe, escape, quote, join_quoted}

-- Where the shell stands in a line: between words, in a word outside quotes, inside quotes, after
-- a backslash.
pub data Mode : Type 0 where
  between unquoted quoted escaped : Mode

-- The words of a line of single quotes, backslashes and spaces. `none` is a quote that does not
-- end, or a character outside quotes, which may mean something to the shell. `word` is what is
-- read of the current word, and each list is in the order of the line.
unfoldable pub words : Mode → List Bytes → Bytes → Bytes → Option (List Bytes)
words between done word [] = some done
words unquoted done word [] = some (done ++ word ∷ [])
words quoted done word [] = none
words escaped done word [] = none
words between done word (c ∷ line) =
    let start = words quoted done [] line in
    let skip = words between done [] line in
    if eqb c apostrophe then start else if eqb c 32 then skip else none
words unquoted done word (c ∷ line) =
    let inside = words quoted done word line in
    let next = words escaped done word line in
    let end = words between (done ++ word ∷ []) [] line in
    if eqb c apostrophe then inside else if eqb c 92 then next else if eqb c 32 then end else none
words quoted done word (c ∷ line) =
    let outside = words unquoted done word line in
    let rest = words quoted done (word ++ c ∷ []) line in if eqb c apostrophe then outside else rest
words escaped done word (c ∷ line) = words unquoted done (word ++ c ∷ []) line

words-escape :
    (s : Bytes) (done : List Bytes) (word line : Bytes)
    → words quoted done word (escape s ++ apostrophe ∷ line) ≡ words unquoted done (word ++ s) line
unfolding words escape
words-escape [] done word line = ap (λ w. words unquoted done w line) (sym (append-nil word))
words-escape (c ∷ s) done word line =
    let step : words quoted done (word ++ c ∷ []) (escape s ++ apostrophe ∷ line)
        ≡ words unquoted done (word ++ c ∷ s) line =
      words-escape s done (word ++ c ∷ []) line
      ∙ ap (λ w. words unquoted done w line) (append_assoc word (c ∷ []) s) in
    elim (Bool-cases (eqb c apostrophe)) [
      | inl e ↦
          let same : c ≡ apostrophe = (eqb_iff c apostrophe).0 e in
          rw e (
            ap (λ k. words quoted done (word ++ k ∷ []) (escape s ++ apostrophe ∷ line)) (sym same)
            ∙ step)
      | inr e ↦ rw (e, e) step
    ]

-- A shell reads a joined command line back as exactly its arguments, whatever bytes they hold.
pub words-join_quoted :
    (args done : List Bytes) → words between done [] (join_quoted args) ≡ some (done ++ args)
unfolding words join_quoted quote
words-join_quoted [] done = ap some (sym (append-nil done))
words-join_quoted (a ∷ []) done = words-escape a done [] []
words-join_quoted (a ∷ b ∷ args) done =
    ap (λ l. words quoted done [] l)
      (append_assoc (escape a) (apostrophe ∷ []) (32 ∷ join_quoted (b ∷ args)))
    ∙ words-escape a done [] (32 ∷ join_quoted (b ∷ args))
    ∙ words-join_quoted (b ∷ args) (done ++ a ∷ [])
    ∙ ap some (append_assoc done (a ∷ []) (b ∷ args))
