-- ===== src/Shellq.antt =====
-- Shell quoting, internal/shellq/shellq.go, over bytes.
pub mod Unquote
mod Samples
use livegit.Prelude.{ℕ, List, [], ◌∷◌, ◌++◌, map, Bytes, eqb, if◌then◌else◌}

-- The single quote.
abbrev pub apostrophe : ℕ
apostrophe = 39

-- strings.ReplaceAll(s, "'", `'\''`)
unfoldable pub escape : Bytes → Bytes
escape [] = []
escape (c ∷ s) =
    let rest = escape s in
    if eqb c apostrophe then apostrophe ∷ 92 ∷ apostrophe ∷ apostrophe ∷ rest else c ∷ rest

unfoldable pub quote : Bytes → Bytes
quote s = apostrophe ∷ escape s ++ apostrophe ∷ []

-- strings.Join(parts, " ") of the quoted words
unfoldable pub join_quoted : List Bytes → Bytes
join_quoted [] = []
join_quoted (a ∷ []) = quote a
join_quoted (a ∷ b ∷ args) = quote a ++ 32 ∷ join_quoted (b ∷ args)
