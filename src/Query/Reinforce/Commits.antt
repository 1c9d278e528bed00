-- ===== src/Query/Reinforce/Commits.antt =====
-- Reinforce of query/reinforce.go: the sessions that a call commits.
use mathlib.Core.Path.{◌≡◌}
use known.Prelude.{
  ℕ, suc, ◌+◌, refl, ap, ◌⊎◌, inl, inr, List, [], ◌∷◌, ◌++◌, arith, length, Error, Result, ok, err,
}
use known.Prelude.Float.{FloatOps}
use known.Model.Types.{Session}
use known.Storage.{EdgeRepo, SessionRepo}
use known.Query.Reinforce.{
  ReinforceConfig, ReinforceResult, Actions, TxFunc, in_tx, reinforce_sessions, reinforce,
}

module _ (fl : FloatOps) {S : Type 0} (edges : EdgeRepo S) (sessions : SessionRepo S)
    (cfg : ReinforceConfig) (with_tx : TxFunc fl edges sessions cfg)
    -- A transaction either commits what its body did, or fails and changes nothing.
    (atomic : (db : S) (f : S → Result (ℕ × S))
      → ((n : ℕ) × (db' : S) × (f db ≡ ok (n, db')) × (with_tx db f ≡ (ok n, db')))
        ⊎ ((e : Error) × (with_tx db f ≡ (err e, db))))
    (range : Actions → Actions) where
  -- The sessions were processed in order, each by the whole body of its transaction.
  pub data Committed : S → List Session → S → Type 0 where
    none : {a b : S} → a ≡ b → Committed a [] b
    more :
        {a b c : S} {n : ℕ} (s : Session) (rest : List Session)
        → in_tx fl edges sessions cfg range s.id a ≡ ok (n, b)
        → Committed b rest c
        → Committed a (s ∷ rest) c

  -- The sessions fall into those committed and those that are left; a success leaves none and counts
  -- them.
  abbrev pub Outcome : ℕ → S → List Session → Result ReinforceResult × S → Type 0
  Outcome before db ss out =
      (processed : List Session) × (left : List Session) × (ss ≡ processed ++ left)
      × Committed db processed out.1
      × ((result : ReinforceResult)
          → out.0 ≡ ok result
          → (left ≡ []) × (result.sessions_processed ≡ before + length processed))

  reinforce_sessions-Outcome :
      (ss : List Session) (result : ReinforceResult) (db : S)
      → Outcome result.sessions_processed db ss
          (reinforce_sessions fl edges sessions cfg with_tx range ss result db)
  unfolding reinforce_sessions
  reinforce_sessions-Outcome [] result db = (
    [],
    [],
    refl,
    none refl,
    λ r e. (refl, omega (arith, ap (λ (x : Result ReinforceResult). count x) e)),
  )
    where
      count : Result ReinforceResult → ℕ
      count (ok r) = r.sessions_processed
      count (err e) = 0
  reinforce_sessions-Outcome (s ∷ ss) result db =
      elim (atomic db (in_tx fl edges sessions cfg range s.id)) [
        | inr (e, t) ↦ rw t ([], s ∷ ss, refl, none refl, λ r k. cc k)
        | inl (n, db', b, t) ↦
            let (processed, left, split, c, end) =
              reinforce_sessions-Outcome ss
                (record {
                  sessions_processed = suc result.sessions_processed;
                  edges_boosted = result.edges_boosted + n;
                })
                db' in
            rw t (
              s ∷ processed,
              left,
              ap (λ (x : List Session). s ∷ x) split,
              more s processed b c,
              λ r e. let (empty, counts) = end r e in (empty, omega arith),
            )
      ]

  -- With atomic transactions, a call of Reinforce commits the whole bodies of the first sessions of the
  -- unprocessed ones, in order, and nothing else; if it succeeds, those are all of them, and their
  -- number is the number reported.
  pub reinforce_commits :
      (db : S) (ss : List Session)
      → sessions.list_unprocessed_sessions db ≡ ok ss
      → Outcome 0 db ss (reinforce fl edges sessions cfg with_tx range db)
  unfolding reinforce
  reinforce_commits db ss h =
      rw (h, reinforce)
        (reinforce_sessions-Outcome ss (record { sessions_processed = 0; edges_boosted = 0 }) db)
