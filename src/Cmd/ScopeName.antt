-- ===== src/Cmd/ScopeName.antt =====
-- QualifyScope of cmd/config.go (writes) and ResolveScope of cmd/scope_resolve.go (reads).
pub mod Qualified
pub mod Examples
use known.Prelude.{ℕ, Bool, true, false, ◌||◌, List, [], ◌∷◌, ◌++◌, if◌then◌else◌, Result, ok, err}
use known.Prelude.Text.{Text, codes, text_eq, is_empty, has_prefix, has_suffix}
use known.Model.Scope.{Scope, root_scope, dot}
use known.Storage.{ScopeRepo}

abbrev pub slash : Text
slash = codes "/"

-- `scope[1:]`, of a text that is not empty.
abbrev pub rest_of : Text → Text
rest_of [] = []
rest_of (c ∷ s) = s

unfoldable pub is_qualified : Text → Text → Bool
is_qualified scope_prefix scope =
    text_eq scope scope_prefix || has_prefix scope (scope_prefix ++ dot ∷ [])

unfoldable pub qualify_scope : Text → Text → Text
unfolding is_qualified
qualify_scope scope_prefix scope =
    if is_empty scope
    then scope
    else if has_prefix scope slash
    then rest_of scope
    else if is_empty scope_prefix
    then scope
    else if is_qualified scope_prefix scope
    then scope
    else if text_eq scope root_scope
    then scope_prefix
    else scope_prefix ++ dot ∷ scope

-- The paths that end in "." + input.
unfoldable pub suffix_matches : Text → List Scope → List Text
suffix_matches input [] = []
suffix_matches input (s ∷ rest) =
    let others = suffix_matches input rest in
    if has_suffix s.path (dot ∷ input) then s.path ∷ others else others

-- A single match wins; none and several fall back.
abbrev pub only_match : Text → List Text → Text
only_match qualified [] = qualified
only_match qualified (m ∷ []) = m
only_match qualified (m ∷ n ∷ rest) = qualified

from_list : Text → Text → Result (List Scope) → Text
from_list input qualified (ok scopes) = only_match qualified (suffix_matches input scopes)
from_list input qualified (err e) = qualified

abbrev pub is_ok : Result Scope → Bool
is_ok (ok s) = true
is_ok (err e) = false

module _ {S : Type 0} (scopes : ScopeRepo S) (db : S) where
  unfoldable pub resolve_scope : Text → Text → Text
  unfolding from_list
  resolve_scope scope_prefix input =
      if is_empty input
      then []
      else if has_prefix input slash
      then rest_of input
      else if is_empty scope_prefix
      then input
      else (let qualified = qualify_scope scope_prefix input in
          if is_ok (scopes.get db qualified)
          then qualified
          else if is_ok (scopes.get db input)
          then input
          else from_list input qualified (scopes.list db))
