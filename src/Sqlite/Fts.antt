-- ===== src/Sqlite/Fts.antt =====
-- sanitizeFTS5Query of storage/sqlite/entry.go. `fields` is strings.Fields, which splits a text at
-- the white space of Unicode.
use known.Prelude.{
  ℕ, Bool, false, not, ◌&&◌, List, [], ◌∷◌, ◌++◌, any, leb, ◌==◌, length, if◌then◌else◌,
}
use known.Prelude.Text.{Text, codes, join}

abbrev pub quote : ℕ
quote = b'"'

abbrev pub star : ℕ
star = b'*'

abbrev pub last_is : ℕ → Text → Bool
last_is c [] = false
last_is c (x ∷ []) = x == c
last_is c (x ∷ y ∷ s) = last_is c (y ∷ s)

abbrev pub first_is : ℕ → Text → Bool
first_is c [] = false
first_is c (x ∷ s) = x == c

-- `tok[:len(tok)-1]`
abbrev pub without_last : Text → Text
without_last [] = []
without_last (x ∷ []) = []
without_last (x ∷ y ∷ s) = x ∷ without_last (y ∷ s)

abbrev pub operators : Text
operators = codes "-:+^(){}[]~"

abbrev pub is_operator : ℕ → Bool
is_operator c = any (λ o. o == c) operators

abbrev pub is_quoted : Text → Bool
is_quoted tok = leb 2 (length tok) && first_is quote tok && last_is quote tok

unfoldable pub needs_fts5_quoting : Text → Bool
needs_fts5_quoting tok = not (is_quoted tok) && any is_operator tok

-- strings.ReplaceAll(tok, `"`, `""`)
unfoldable pub double_quotes : Text → Text
double_quotes [] = []
double_quotes (c ∷ s) = if c == quote then quote ∷ quote ∷ double_quotes s else c ∷ double_quotes s

-- A token without a trailing `*`, and that `*`.
abbrev pub star_of : Text → Text
star_of tok = if last_is star tok then star ∷ [] else []

abbrev pub body_of : Text → Text
body_of tok = if last_is star tok then without_last tok else tok

unfoldable pub quote_token : Text → Text
unfolding needs_fts5_quoting double_quotes
quote_token tok =
    if needs_fts5_quoting (body_of tok)
    then (quote ∷ double_quotes (body_of tok)) ++ quote ∷ star_of tok
    else tok

unfoldable pub quote_tokens : List Text → List Text
unfolding quote_token
quote_tokens [] = []
quote_tokens (t ∷ ts) = quote_token t ∷ quote_tokens ts

-- `changed`: some token is quoted.
unfoldable pub any_quoting : List Text → Bool
unfolding needs_fts5_quoting
any_quoting tokens = any (λ t. needs_fts5_quoting (body_of t)) tokens

abbrev pub space : ℕ
space = b' '

module _ (fields : Text → List Text) where
  unfoldable pub sanitize_fts5_query : Text → Text
  unfolding quote_tokens any_quoting
  sanitize_fts5_query q = if any_quoting (fields q) then join space (quote_tokens (fields q)) else q
