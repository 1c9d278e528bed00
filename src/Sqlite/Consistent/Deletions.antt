-- ===== src/Sqlite/Consistent/Deletions.antt =====
-- DELETE FROM entries of storage/sqlite/entry.go, with its cascades, on consistent tables.
use mathlib.Core.List.{Memᴰ}
use known.Prelude.{
  ◌≡◌, refl, Bool, true, false, not, List, map, inl, inr, keep, member, Bool-cases, ==_iff, arith,
}
use known.Prelude.Rows.{any-of_mem, mem-any, mem-keep, keep-mem, member-of_mem, IsDistinct-keep}
use known.Prelude.Text.{Text}
use known.Model.Types.{Id128}
use known.Sqlite.Tables.{EntryRow, EdgeRow, Db}
use known.Sqlite.Edge.{has_entry, is_entry}
use known.Sqlite.Entry.{delete_entries, loses_end}
use known.Sqlite.Consistent.{IsConsistent, HasUniqueContent, HasScopes, HasEnds, HasOwners}

-- An entry that is not among those that go stays.
stays :
    (p : EntryRow → Bool) (rows : List EntryRow) (id : Id128)
    → has_entry id rows ≡ true
    → member id (map (λ (r : EntryRow). r.id) (keep p rows)) ≡ false
    → has_entry id (keep (λ r. not (p r)) rows) ≡ true
unfolding has_entry
stays p rows id h k =
    let (r, m, e) = mem-any (is_entry id) rows h in
    any-of_mem (is_entry id) (keep (λ r. not (p r)) rows) r
      (keep-mem (λ r. not (p r)) rows r m (kept r m ((==_iff r.id id).0 e))) e
  where
    kept : (r : EntryRow) → Memᴰ r rows → r.id ≡ id → not (p r) ≡ true
    kept r m same = elim (Bool-cases (p r)) [
      | inr e ↦ rw e refl
      | inl e ↦ absurd (
          cc (
            rw same at
                (member-of_mem (λ (x : EntryRow). x.id) (keep p rows) r (keep-mem p rows r m e)),
            k,
          ))
    ]

pub delete_entries-IsConsistent :
    (p : EntryRow → Bool) (db : Db) → IsConsistent db → IsConsistent (delete_entries p db).1
unfolding delete_entries HasUniqueContent HasScopes HasEnds HasOwners
delete_entries-IsConsistent p db c = record {
  entry_ids = IsDistinct-keep (λ (r : EntryRow). r.id) (λ r. not (p r)) db.entries c.entry_ids;
  contents = λ x y mx my e. c.contents x y (left x mx) (left y my) e;
  scopes = λ x m. c.scopes x (left x m);
  edge_ids =
      IsDistinct-keep (λ (r : EdgeRow). r.id) (λ g. not (loses_end gone g)) db.edges c.edge_ids;
  ends = λ g m.
      let (i, e) = mem-keep (λ g. not (loses_end gone g)) db.edges g m in
      let (a, b, d) = c.ends g i in
      (
        stays p db.entries g.from_id a (ground arith),
        stays p db.entries g.to_id b (ground arith),
        d,
      );
  owners = λ l m.
      let (i, e) = mem-keep (λ (l : Id128 × Text). not (member l.0 gone)) db.labels l m in
      stays p db.entries l.0 (c.owners l i) (ground arith);
  session_ids = c.session_ids;
  events = c.events;
  reinforced = c.reinforced;
}
  where
    gone : List Id128
    gone = map (λ (r : EntryRow). r.id) (keep p db.entries)

    left : (x : EntryRow) → Memᴰ x (keep (λ r. not (p r)) db.entries) → Memᴰ x db.entries
    left x m = (mem-keep (λ r. not (p r)) db.entries x m).0
