-- ===== src/Cmd/ResolveEntry/Examples.antt =====
-- The argument "tex" without an embedder, where one of two listed entries holds it.
use known.Prelude.{false, ◌≡◌, refl, none, List, [], ◌∷◌, ok, err, errorf}
use known.Prelude.Text.{codes, text_eq, is_empty, contains, has_prefix}
use known.Model.Entry.{Entry}
use known.Cmd.ResolveEntry.{
  App, TextOps, resolve_entry, from_id, by_content, by_text, text_pick, search_by_text, matches,
  text_match, search_semantic_scored, with_embedder, resolve_scope,
}
use known.Cmd.ResolveEntry.Picks.{IsPick, resolve_entry-IsPick}
use known.Fixture.Floats.{thousandths}
use known.Fixture.Store.{entries, engine, entry_of}

abbrev ops : TextOps
ops = record {
  to_lower = λ t. t;
  trim_space = λ t. t;
  equal_fold = text_eq;
  parse_id = λ t. err (errorf "ulid: bad data size when unmarshaling");
}

abbrev two_listed : List Entry
two_listed = record (entry_of 2) { content = codes "other" } ∷ entry_of 1 ∷ []

abbrev without_embedder : App (Unit {0})
without_embedder = record {
  engine = record engine {
    entries = record entries { list = λ db f. ok two_listed };
    embedder = none;
  };
  default_scope = [];
  new_embedder = err (errorf "no provider");
}

resolve_entry_run : resolve_entry thousandths ops 9 without_embedder tt (codes "tex") ≡ ok 1
unfolding resolve_entry from_id by_content by_text text_pick search_by_text matches text_match
    search_semantic_scored with_embedder resolve_scope contains has_prefix
resolve_entry_run = refl

resolve_entry-IsPick_example :
    (is_empty (codes "tex") ≡ false) × IsPick thousandths ops 9 without_embedder tt (codes "tex") 1
resolve_entry-IsPick_example =
    resolve_entry-IsPick thousandths ops 9 without_embedder tt (codes "tex") 1 resolve_entry_run
