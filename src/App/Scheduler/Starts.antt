-- ===== src/App/Scheduler/Starts.antt =====
-- What one start does to the store.
use autophage.Base.{
  subst, if_both, ◌≡◌, refl, ap, ◌∙◌, ◌⊎◌, inl, inr, ℕ, ◌+◌, Bool, true, Option, none, some, [],
  ◌∷◌, All, arith, Result, ok, err, Bool-cases, Option-cases, known, count_if-append, length,
}
use autophage.Resolution.Enums.{AttemptKind}
use autophage.Resolution.Budget.{Budget}
use autophage.Resolution.Facts.{Time, is_open}
use autophage.Resolution.Repository.{Repository}
use autophage.Resolution.Case.State.{Case}
use autophage.Resolution.Case.Commands.{next_attempt_kind, start_attempt, fresh_attempt}
use autophage.Resolution.Case.Attempts.{opens}
use autophage.Resolution.Case.Trace.{Command, starts, call, left_by}
use autophage.Resolution.Case.Persist.{InTransaction}
use autophage.Store.Database.{
  find_repository, Reply, done, CaseKey, Database, Server, ticked, find_case, put_case,
}
use autophage.Store.Rows.{open_total, open_total-put_case, put_case-All, find_case-All}
use autophage.Store.Cases.{update_case}
use autophage.Store.Cases.Updates.{
  opens-row_after, IsStored, ActsAt, Ends, row_after, row_after-IsStored, update_case-Ends,
}
use autophage.Store.Queries.{get_repository}
use autophage.App.Calls.{◌>>=◌, give}
use autophage.App.Scheduler.{
  suc, String, Daemon, IssueDetail, start_next, start_briefed, start_open, start, budget_for,
  brief_input, slots_after,
}

start_briefed-ActsAt :
    (kind : AttemptKind) (budget : Budget) (at : Time) (r : Result String) (s : Case)
    → ActsAt (start_briefed kind budget at r) s
unfolding call
start_briefed-ActsAt kind budget at (err e) s = inl (e, refl)
start_briefed-ActsAt kind budget at (ok brief) s =
    inr (starts (known kind) budget brief at, tt, refl)

start_next-ActsAt :
    (d : Daemon) (repo : Repository) (detail : IssueDetail) (at : Time) (s : Case)
    → ActsAt (start_next d repo detail at) s
unfolding start_next
start_next-ActsAt d repo detail at s =
    start_briefed-ActsAt (next_attempt_kind s) (budget_for d.budgets (next_attempt_kind s)) at
      (d.build_brief (brief_input d repo detail s)) s

start_briefed-opens :
    (kind : AttemptKind) (budget : Budget) (at : Time) (r : Result String) (s : Case)
    → (start_briefed kind budget at r s).1 ≡ ok tt
    → opens (start_briefed kind budget at r s).0.attempts ≡ opens s.attempts + 1
unfolding start_attempt
start_briefed-opens kind budget at (err e) s h = absurd (ground (arith, h))
start_briefed-opens kind budget at (ok brief) s h = ground (
  arith,
  h,
  count_if-append is_open s.attempts
      (fresh_attempt (length s.attempts) (known kind) budget brief at ∷ []),
)

start_next-opens :
    (d : Daemon) (repo : Repository) (detail : IssueDetail) (at : Time) (s : Case)
    → (start_next d repo detail at s).1 ≡ ok tt
    → opens (start_next d repo detail at s).0.attempts ≡ opens s.attempts + 1
unfolding start_next
start_next-opens d repo detail at s h =
    start_briefed-opens (next_attempt_kind s) (budget_for d.budgets (next_attempt_kind s)) at
      (d.build_brief (brief_input d repo detail s)) s h

-- The rows but for one new attempt, if there is one.
pub record Grew (n : ℕ) (db db' : Database) : Type 0 where
  pub stored : All IsStored db'.cases
  pub rounds : db'.bumps ≡ db.bumps
  pub total : open_total db'.cases ≡ open_total db.cases + n

-- One attempt more and the answer `true`; or none and another answer.
abbrev pub Started : Database → Database × Reply Bool → Type 0
Started db r =
    ((r.1 ≡ done true) × Grew 1 db r.0) ⊎ (((n : ℕ) → slots_after n r.1 ≡ suc n) × Grew 0 db r.0)

same_rows : (db : Database) → All IsStored db.cases → Grew 0 db db
same_rows db h = record { stored = h; rounds = refl; total = ground arith }

ticked_rows : (db : Database) → All IsStored db.cases → Grew 0 db (ticked db)
ticked_rows db h = record { stored = h; rounds = refl; total = ground arith }

unticked_rows : (n : ℕ) (db db' : Database) → Grew n (ticked db) db' → Grew n db db'
unticked_rows n db db' g = record { stored = g.stored; rounds = g.rounds; total = g.total }

unticked : (db : Database) (r : Database × Reply Bool) → Started (ticked db) r → Started db r
unticked db r (inl (e, g)) = inl (e, unticked_rows 1 db r.0 g)
unticked db r (inr (e, g)) = inr (e, unticked_rows 0 db r.0 g)

grown :
    (server : Server) (k : CaseKey) (db db' : Database) (s : Case) (m : Command)
    → All IsStored db.cases
    → InTransaction m
    → find_case k db.cases ≡ some s
    → db'.bumps ≡ db.bumps
    → db'.cases ≡ put_case k (row_after server s m) db.cases
    → opens (left_by s m).attempts ≡ opens s.attempts + 1
    → Grew 1 db db'
grown server k db db' s m h i found same written more =
    let stored = find_case-All IsStored k db.cases h found in
    let kept = row_after-IsStored server s m stored i in
    record {
      stored = rw written (put_case-All IsStored k (row_after server s m) db.cases kept h);
      rounds = same;
      total = ground (
        arith,
        written,
        more,
        opens-row_after server s m stored i,
        open_total-put_case k (row_after server s m) s db.cases found,
      );
    }

start_open-Started :
    (d : Daemon) (k : CaseKey) (repo : Repository) (issue : Option IssueDetail) (db : Database)
    → All IsStored db.cases
    → Started db (start_open d k repo issue db)
start_open-Started d k repo none db h = inr ((λ n. refl), same_rows db h)
start_open-Started d k repo (some detail) db h =
    if_both (Started db) detail.is_open
      (started_by (
        update_case-Ends d.server k (start_next d repo detail (d.now db.tick)) db h
          (start_next-ActsAt d repo detail (d.now db.tick))))
      (inr ((λ n. refl), same_rows db h))
  where
    started_by :
        Ends d.server k
          (start_next d repo detail (d.now db.tick))
          db
          (update_case d.server k (start_next d repo detail (d.now db.tick)) db)
        → Started db (
            (update_case d.server k (start_next d repo detail (d.now db.tick)) >>= λ c. give true)
              db)
    started_by (inl (e, r)) = rw r (inr ((λ n. refl), ticked_rows db h))
    started_by (inr (s, m, found, i, acts, e, r)) =
        let more =
          start_next-opens d repo detail (d.now db.tick) s
            (ap (λ (p : Case × Result (Unit {0})). p.1) acts ∙ e) in
        rw r (
          inl (
            refl,
            grown d.server k db _ s m h i found refl refl (
                subst (λ (p : Case × Result (Unit {0})). opens p.0.attempts ≡ opens s.attempts + 1)
                  acts more),
          ))

-- One start, whatever the store and GitHub answer.
pub start-Started :
    (d : Daemon) (k : CaseKey) (db : Database) → All IsStored db.cases → Started db (start d k db)
unfolding start get_repository
start-Started d k db h = elim (Bool-cases (d.server.down db.tick)) [
  | inl down ↦ rw (start, get_repository, down) (inr ((λ n. refl), ticked_rows db h))
  | inr up ↦ elim (Option-cases (find_repository k.repository db.repositories)) [
    | inl missing ↦ rw (start, get_repository, up, missing) (inr ((λ n. refl), ticked_rows db h))
    | inr (repo, found) ↦
        rw (start, get_repository, up, found)
          (unticked db _ (start_open-Started d k repo (d.issue (ticked db).tick k) (ticked db) h))
  ]
]
