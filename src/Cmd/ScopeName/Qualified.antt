-- ===== src/Cmd/ScopeName/Qualified.antt =====
-- QualifyScope and ResolveScope: where names lie with respect to the prefix of the project.
use mathlib.Core.Path.{◌≡◌}
use known.Prelude.{
  true, false, refl, ap, ◌⊎◌, All, Error, Result-cases, inl, inr, List, [], ◌∷◌, ◌++◌, arith,
  ==_self, Bool-cases, ok, err,
}
use known.Prelude.Text.{Text, text_eq, text_eq_iff, is_empty, has_prefix, has_suffix}
use known.Model.Scope.{Scope, root_scope, dot}
use known.Storage.{ScopeRepo}
use known.Cmd.ScopeName.{
  slash, is_qualified, qualify_scope, suffix_matches, only_match, from_list, resolve_scope,
}

text_eq_self : (t : Text) → text_eq t t ≡ true
text_eq_self t = (text_eq_iff t t).1 refl

has_prefix-append : (t r : Text) → has_prefix (t ++ r) t ≡ true
unfolding has_prefix
has_prefix-append [] r = refl
has_prefix-append (c ∷ t) r = rw (==_self c) (has_prefix-append t r)

has_prefix-dotted : (p s : Text) → has_prefix (p ++ dot ∷ s) (p ++ dot ∷ []) ≡ true
unfolding has_prefix
has_prefix-dotted [] s = refl
has_prefix-dotted (c ∷ p) s = rw (==_self c) (has_prefix-dotted p s)

-- A scope that is not empty and not a literal is qualified under a prefix that is not empty: the
-- result is the prefix or lies below it.
pub qualify_scope-is_qualified :
    (prefix scope : Text)
    → is_empty prefix ≡ false
    → is_empty scope ≡ false
    → has_prefix scope slash ≡ false
    → is_qualified prefix (qualify_scope prefix scope) ≡ true
unfolding qualify_scope
qualify_scope-is_qualified prefix scope p s l = elim (Bool-cases (is_qualified prefix scope)) [
  | inl q ↦ rw (s, l, p, q) q
  | inr q ↦ elim (Bool-cases (text_eq scope root_scope)) [
    | inl r ↦ rw (s, l, p, q, r) (rw (text_eq_self prefix, is_qualified))
    | inr r ↦ rw (s, l, p, q, r) (ground (arith, has_prefix-dotted prefix scope))
  ]
]

has_slash-append :
    (p r : Text)
    → is_empty p ≡ false
    → has_prefix p slash ≡ false
    → has_prefix (p ++ r) slash ≡ false
unfolding has_prefix
has_slash-append [] r e h = cc e
has_slash-append (c ∷ p) r e h = h

qualify_scope-no_slash :
    (prefix scope : Text)
    → is_empty prefix ≡ false
    → has_prefix prefix slash ≡ false
    → is_empty scope ≡ false
    → has_prefix scope slash ≡ false
    → has_prefix (qualify_scope prefix scope) slash ≡ false
unfolding qualify_scope
qualify_scope-no_slash prefix scope p n s l = elim (Bool-cases (is_qualified prefix scope)) [
  | inl q ↦ rw (s, l, p, q) l
  | inr q ↦ elim (Bool-cases (text_eq scope root_scope)) [
    | inl r ↦ rw (s, l, p, q, r) n
    | inr r ↦ rw (s, l, p, q, r) (has_slash-append prefix (dot ∷ scope) p n)
  ]
]

qualify_scope-of_qualified :
    (prefix scope : Text)
    → has_prefix scope slash ≡ false
    → is_qualified prefix scope ≡ true
    → qualify_scope prefix scope ≡ scope
unfolding qualify_scope
qualify_scope-of_qualified prefix scope l q = ground arith

-- Qualifying a scope that is not empty and not a literal twice is qualifying it once, for a prefix that
-- is not empty and does not begin with a slash.
pub qualify_scope_idem :
    (prefix scope : Text)
    → is_empty prefix ≡ false
    → has_prefix prefix slash ≡ false
    → is_empty scope ≡ false
    → has_prefix scope slash ≡ false
    → qualify_scope prefix (qualify_scope prefix scope) ≡ qualify_scope prefix scope
qualify_scope_idem prefix scope p n s l =
    qualify_scope-of_qualified prefix (qualify_scope prefix scope)
      (qualify_scope-no_slash prefix scope p n s l) (qualify_scope-is_qualified prefix scope p s l)

-- A listed scope that ends in a dot and the input.
abbrev pub EndsIn : Text → Scope → Type 0
EndsIn input s = has_suffix s.path (dot ∷ input) ≡ true

abbrev pub EndsElsewhere : Text → Scope → Type 0
EndsElsewhere input s = has_suffix s.path (dot ∷ input) ≡ false

-- Exactly one of the scopes ends in a dot and the input.
abbrev pub HasOne : Text → List Scope → Text → Type 0
HasOne input scopes out =
    (before : List Scope) × (s : Scope) × (after : List Scope) × (scopes ≡ before ++ (s ∷ after))
    × (s.path ≡ out)
    × EndsIn input s
    × All (EndsElsewhere input) before
    × All (EndsElsewhere input) after

-- At least two of them do.
abbrev pub HasTwo : Text → List Scope → Type 0
HasTwo input scopes =
    (before : List Scope) × (s : Scope) × (between : List Scope) × (t : Scope) × (after : List
      Scope)
    × (scopes ≡ before ++ (s ∷ (between ++ (t ∷ after))))
    × EndsIn input s
    × EndsIn input t

-- What the matches tell of the scopes.
abbrev MatchesTell : Text → List Scope → List Text → Type 0
MatchesTell input scopes [] = All (EndsElsewhere input) scopes
MatchesTell input scopes (m ∷ []) = HasOne input scopes m
MatchesTell input scopes (m ∷ n ∷ ms) = HasTwo input scopes

skip-MatchesTell :
    (input : Text) (s : Scope) (scopes : List Scope) (ms : List Text)
    → EndsElsewhere input s
    → MatchesTell input scopes ms
    → MatchesTell input (s ∷ scopes) ms
skip-MatchesTell input s scopes [] e h = (e, h)
skip-MatchesTell input s scopes (m ∷ []) e (before, t, after, split, p, f, b, a) =
    (s ∷ before, t, after, ap (λ r. s ∷ r) split, p, f, (e, b), a)
skip-MatchesTell input s scopes (m ∷ n ∷ ms) e (before, t, between, u, after, split, f, g) =
    (s ∷ before, t, between, u, after, ap (λ r. s ∷ r) split, f, g)

-- A first scope that matches, by what the matches after it tell.
take-MatchesTell :
    (input : Text) (s : Scope) (scopes : List Scope) (ms : List Text)
    → EndsIn input s
    → MatchesTell input scopes ms
    → MatchesTell input (s ∷ scopes) (s.path ∷ ms)
take-MatchesTell input s scopes [] e h = ([], s, scopes, refl, refl, e, tt, h)
take-MatchesTell input s scopes (m ∷ []) e (before, t, after, split, p, f, b, a) =
    ([], s, before, t, after, ap (λ r. s ∷ r) split, e, f)
take-MatchesTell input s scopes (m ∷ n ∷ ms) e (before, t, between, u, after, split, f, g) =
    ([], s, before, t, between ++ u ∷ after, ap (λ r. s ∷ r) split, e, f)

suffix_matches-MatchesTell :
    (input : Text) (scopes : List Scope) → MatchesTell input scopes (suffix_matches input scopes)
unfolding suffix_matches
suffix_matches-MatchesTell input [] = tt
suffix_matches-MatchesTell input (s ∷ scopes) =
    let rest = suffix_matches-MatchesTell input scopes in
    elim (Bool-cases (has_suffix s.path (dot ∷ input))) [
      | inl e ↦
          rw (e, suffix_matches)
            (take-MatchesTell input s scopes (suffix_matches input scopes) e rest)
      | inr e ↦
          rw (e, suffix_matches)
            (skip-MatchesTell input s scopes (suffix_matches input scopes) e rest)
    ]

-- Where a scope of a project is resolved to: the qualified name, if it is a scope of the store; else
-- the input, if that is; else the only listed scope that ends in a dot and the input; else, where none
-- or several do or the list is not to be had, the qualified name.
pub data Resolves {S : Type 0} (scopes : ScopeRepo S) (db : S) (prefix input out : Text)
    : Type 0 where
  qualified :
      (s : Scope)
      → scopes.get db (qualify_scope prefix input) ≡ ok s
      → out ≡ qualify_scope prefix input
      → Resolves scopes db prefix input out
  bare :
      (e : Error) (s : Scope)
      → scopes.get db (qualify_scope prefix input) ≡ err e
      → scopes.get db input ≡ ok s
      → out ≡ input
      → Resolves scopes db prefix input out
  suffix :
      (e f : Error) (all : List Scope)
      → scopes.get db (qualify_scope prefix input) ≡ err e
      → scopes.get db input ≡ err f
      → scopes.list db ≡ ok all
      → HasOne input all out
      → Resolves scopes db prefix input out
  fallback :
      (e f : Error)
      → scopes.get db (qualify_scope prefix input) ≡ err e
      → scopes.get db input ≡ err f
      → ((g : Error) × (scopes.list db ≡ err g))
        ⊎ ((all : List Scope) × (scopes.list db ≡ ok all)
            × (All (EndsElsewhere input) all ⊎ HasTwo input all))
      → out ≡ qualify_scope prefix input
      → Resolves scopes db prefix input out

module _ {S : Type 0} (scopes : ScopeRepo S) (db : S) (prefix input : Text) where
  only_match-Resolves :
      (e f : Error) (all : List Scope) (ms : List Text)
      → scopes.get db (qualify_scope prefix input) ≡ err e
      → scopes.get db input ≡ err f
      → scopes.list db ≡ ok all
      → MatchesTell input all ms
      → Resolves scopes db prefix input (only_match (qualify_scope prefix input) ms)
  only_match-Resolves e f all [] q b l h = Resolves.fallback e f q b (inr (all, l, inl h)) refl
  only_match-Resolves e f all (m ∷ []) q b l h = Resolves.suffix e f all q b l h
  only_match-Resolves e f all (m ∷ n ∷ ms) q b l h =
      Resolves.fallback e f q b (inr (all, l, inr h)) refl

  -- In a project, an input that is not empty and not a literal resolves to its qualified name, if it
  -- is a scope of the store; else to the input, if that is; else to the only listed scope that ends in
  -- a dot and the input; and else, where none or several do or listing fails, to the qualified name.
  pub resolve_scope-Resolves :
      is_empty prefix ≡ false
      → is_empty input ≡ false
      → has_prefix input slash ≡ false
      → Resolves scopes db prefix input (resolve_scope scopes db prefix input)
  unfolding resolve_scope from_list
  resolve_scope-Resolves p i l = elim (Result-cases (scopes.get db (qualify_scope prefix input))) [
    | inl (s, q) ↦ rw (p, i, l, q) (Resolves.qualified s q refl)
    | inr (e, q) ↦ elim (Result-cases (scopes.get db input)) [
      | inl (s, b) ↦ rw (p, i, l, q, b) (Resolves.bare e s q b refl)
      | inr (f, b) ↦ elim (Result-cases (scopes.list db)) [
        | inr (g, k) ↦ rw (p, i, l, q, b, k) (Resolves.fallback e f q b (inl (g, k)) refl)
        | inl (all, k) ↦
            rw (p, i, l, q, b, k)
              (only_match-Resolves e f all (suffix_matches input all) q b k
                (suffix_matches-MatchesTell input all))
      ]
    ]
  ]
