-- ===== src/Model/Scope.antt =====
-- model/scope.go: dotted scope paths.
pub mod Paths
pub mod Ancestors
pub mod Family
use known.Prelude.{
  ℕ, zero, suc, ◌-◌, ◌≤◌, Bool, true, false, not, ◌&&◌, ◌||◌, Option, none, some, List, [], ◌∷◌,
  ◌++◌, ltb, leb, ◌==◌, if◌then◌else◌, length, take, Result, ok, err, errorf, fail_if, ◌>>=◌, ◌>>◌,
}
use known.Prelude.Text.{Text, codes, text_eq, is_empty, has_prefix, split, join}
use known.Model.Types.{Metadata, Time}

abbrev pub dot : ℕ
dot = b'.'

is_letter : ℕ → Bool
is_letter c = leb b'a' c && leb c b'z' || leb b'A' c && leb c b'Z'

is_segment_byte : ℕ → Bool
unfolding is_letter
is_segment_byte c = is_letter c || leb b'0' c && leb c b'9' || c == b'_' || c == b'-'

all_segment_bytes : Text → Bool
unfolding is_segment_byte
all_segment_bytes [] = true
all_segment_bytes (c ∷ s) = is_segment_byte c && all_segment_bytes s

-- ^[a-zA-Z][a-zA-Z0-9_-]*$
unfoldable pub is_valid_scope_segment : Text → Bool
unfolding is_letter all_segment_bytes
is_valid_scope_segment [] = false
is_valid_scope_segment (c ∷ s) = is_letter c && all_segment_bytes s

abbrev pub root_scope : Text
root_scope = codes "root"

pub record Scope : Type 0 where
  pub path : Text
  pub meta : Metadata
  pub created_at : Time

unfoldable pub new_scope : Time → Text → Scope
new_scope now path = record { path = path; meta = none; created_at = now }

-- The loop of ParseScopePath over the segments.
unfoldable pub check_segments : List Text → Result (Unit {0})
check_segments [] = ok tt
check_segments (seg ∷ rest) = do
  fail_if (is_empty seg) (errorf "scope path has empty segment")
  fail_if (not (is_valid_scope_segment seg)) (errorf "invalid scope segment")
  check_segments rest

unfoldable pub parse_scope_path : Text → Result (List Text)
parse_scope_path path = do
  fail_if (is_empty path) (errorf "scope path cannot be empty")
  let segments = split dot path
  check_segments segments
  ok segments

unfoldable pub validate : Scope → Result (Unit {0})
unfolding parse_scope_path
validate s = do parse_scope_path s.path; ok tt

unfoldable pub segments : Scope → List Text
segments s = elim (parse_scope_path s.path) [ ok segs ↦ segs | err e ↦ [] ]

unfoldable pub depth : Scope → ℕ
depth s = length (segments s)

unfoldable pub parent : Scope → Text
parent s =
    let segs = segments s in
    if leb (length segs) 1 then [] else join dot (take (length segs - 1) segs)

unfoldable pub is_parent_of : Scope → Scope → Bool
is_parent_of s other = text_eq (parent other) s.path

unfoldable pub is_ancestor_of : Scope → Scope → Bool
is_ancestor_of s other =
    if text_eq s.path other.path
    then false
    else has_prefix (other.path ++ dot ∷ []) (s.path ++ dot ∷ [])

unfoldable pub is_descendant_of : Scope → Scope → Bool
is_descendant_of s other = is_ancestor_of other s

unfoldable pub child : Time → Scope → Text → Result Scope
child now s segment = do
  fail_if (not (is_valid_scope_segment segment)) (errorf "invalid scope segment")
  ok (record { path = s.path ++ dot ∷ segment; meta = none; created_at = now })

unfoldable pub with_meta : Scope → Metadata → Scope
with_meta s m = record s { meta = m }

-- The loop of CommonAncestor: segments while they agree.
unfoldable pub common_segments : List Text → List Text → List Text
common_segments [] bs = []
common_segments (a ∷ as') [] = []
common_segments (a ∷ as') (b ∷ bs) = if text_eq a b then a ∷ common_segments as' bs else []

unfoldable pub common_ancestor : Scope → Scope → Text
common_ancestor a b =
    let common = common_segments (segments a) (segments b) in
    if length common == 0 then [] else join dot common
