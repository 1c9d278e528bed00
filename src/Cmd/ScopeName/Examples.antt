-- ===== src/Cmd/ScopeName/Examples.antt =====
-- Names in a project with the prefix "p", whose store lists the scope "p.a.b".
use mathlib.Core.Path.{◌≡◌}
use known.Prelude.{true, false, refl, [], ◌∷◌, none, ok, err, not_found}
use known.Prelude.Text.{codes, has_prefix}
use known.Storage.{ScopeRepo}
use known.Cmd.ScopeName.{slash, is_qualified, qualify_scope, resolve_scope}
use known.Cmd.ScopeName.Qualified.{
  Resolves, qualify_scope-is_qualified, qualify_scope_idem, resolve_scope-Resolves,
}

abbrev scopes : ScopeRepo (Unit {0})
scopes = record {
  upsert = λ db s. ok db;
  ensure_hierarchy = λ db p. ok db;
  get = λ db p. err not_found;
  delete = λ db p. ok db;
  list = λ db. ok (record { path = codes "p.a.b"; meta = none; created_at = 5 } ∷ []);
  list_children = λ db p. ok [];
  list_descendants = λ db p. ok [];
  delete_empty = λ db. ok (0, db);
}

no_slash : (has_prefix (codes "p") slash ≡ false) × (has_prefix (codes "b") slash ≡ false)
unfolding has_prefix
no_slash = (refl, refl)

qualify_scope-is_qualified_example :
    is_qualified (codes "p") (qualify_scope (codes "p") (codes "b")) ≡ true
qualify_scope-is_qualified_example =
    qualify_scope-is_qualified (codes "p") (codes "b") refl refl no_slash.1

qualify_twice_run :
    qualify_scope (codes "p") (qualify_scope (codes "p") (codes "b"))
    ≡ qualify_scope (codes "p") (codes "b")
qualify_twice_run = qualify_scope_idem (codes "p") (codes "b") refl no_slash.0 refl no_slash.1

resolve_scope-Resolves_example :
    Resolves scopes tt (codes "p") (codes "b") (resolve_scope scopes tt (codes "p") (codes "b"))
resolve_scope-Resolves_example =
    resolve_scope-Resolves scopes tt (codes "p") (codes "b") refl refl no_slash.1
