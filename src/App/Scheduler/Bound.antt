-- ===== src/App/Scheduler/Bound.antt =====
-- The bound on what runs at once.
use autophage.Base.{
  if_both, ◌≡◌, ◌∙◌, refl, ◌⊎◌, inl, inr, ℕ, zero, suc, ◌+◌, ◌-◌, ◌≤◌, List, [], ◌∷◌, All, length,
  arith, Bool-cases, ◌==◌, leb,
}
use autophage.Store.Database.{Reply, done, fails, CaseKey, Database, ticked}
use autophage.Store.Rows.{open_total}
use autophage.Store.Queries.{
  OpenRepair, OpenAttempt, order_by, all_open, all_open_rounds, open_attempts, open_repairs,
  queued_cases,
}
use autophage.Store.Queries.Counts.{length-order_by, length-all_open}
use autophage.Store.Cases.Updates.{IsStored}
use autophage.App.Scheduler.{
  outage, Failure, Daemon, start, start_all, free_slots, start_queued, run_with, run,
}
use autophage.App.Scheduler.Starts.{start-Started}

-- The attempts and the repair rounds without an outcome.
abbrev pub busy : Database → ℕ
busy db = open_total db.cases + length (all_open_rounds db.bumps)

-- What a loop over `slots` slots keeps.
record Within (slots : ℕ) (db db' : Database) : Type 0 where
  stored : All IsStored db'.cases
  rounds : db'.bumps ≡ db.bumps
  total : open_total db'.cases ≤ open_total db.cases + slots

start_all-Within :
    (d : Daemon) (slots : ℕ) (ks : List CaseKey) (db : Database)
    → All IsStored db.cases
    → Within slots db (start_all d slots ks db)
unfolding start_all
start_all-Within d slots [] db h = record { stored = h; rounds = refl; total = omega arith }
start_all-Within d zero (k ∷ ks) db h = record { stored = h; rounds = refl; total = omega arith }
start_all-Within d (suc n) (k ∷ ks) db h =
    let r = start d k db in
    elim (start-Started d k db h) [
      | inl (e, g) ↦
          rw (start_all, e)
            (let i = start_all-Within d n ks r.0 g.stored in
              record {
                stored = i.stored;
                rounds = i.rounds ∙ g.rounds;
                total = omega (arith, i.total, g.total);
              })
      | inr (e, g) ↦
          rw (start_all, e n)
            (let i = start_all-Within d (suc n) ks r.0 g.stored in
              record {
                stored = i.stored;
                rounds = i.rounds ∙ g.rounds;
                total = omega (arith, i.total, g.total);
              })
    ]

-- The work in progress is no more than it was, or no more than the daemon may have.
abbrev pub IsBounded : Daemon → Database → Database → Type 0
IsBounded d db db' = (busy db' ≤ busy db) ⊎ (busy db' ≤ d.concurrency)

Within-slots :
    (d : Daemon) (db db' db'' : Database)
    → db'.cases ≡ db.cases
    → db'.bumps ≡ db.bumps
    → Within (d.concurrency - busy db) db' db''
    → IsBounded d db db''
Within-slots d db db' db'' same_cases same_bumps w =
    elim (Bool-cases (leb d.concurrency (busy db))) [
      | inl full ↦ inl (ground (arith, full, same_cases, same_bumps, w.total, w.rounds))
      | inr free ↦ inr (ground (arith, free, same_cases, same_bumps, w.total, w.rounds))
    ]

counted :
    (d : Daemon) (db : Database)
    → length (order_by (λ (a : OpenAttempt). a.started_at) (all_open db.cases))
        + length (order_by (λ (r : OpenRepair). r.started_at) (all_open_rounds db.bumps))
      ≡ busy db
counted d db = ground (
  arith,
  length-order_by (λ (a : OpenAttempt). a.started_at) (all_open db.cases),
  length-order_by (λ (r : OpenRepair). r.started_at) (all_open_rounds db.bumps),
  length-all_open db.cases,
)

free_slots-cases :
    (d : Daemon) (db : Database)
    → ((e : Failure) × (free_slots d db ≡ (ticked db, fails e)))
      ⊎ ((e : Failure) × (free_slots d db ≡ (ticked (ticked db), fails e)))
      ⊎ (free_slots d db ≡ (ticked (ticked db), done (d.concurrency - busy db)))
unfolding free_slots open_attempts open_repairs
free_slots-cases d db = elim (Bool-cases (d.server.down db.tick)) [
  | inl down ↦ inl (outage, rw (free_slots, open_attempts, down) refl)
  | inr up ↦ elim (Bool-cases (d.server.down (db.tick + 1))) [
    | inl down ↦ inr (inl (outage, rw (free_slots, open_attempts, up, open_repairs, down) refl))
    | inr still ↦
        inr (inr (rw (free_slots, open_attempts, up, open_repairs, still, counted d db) refl))
  ]
]

unchanged : (d : Daemon) (db db' : Database) → busy db' ≡ busy db → IsBounded d db db'
unchanged d db db' e = inl (omega (arith, e))

run_with-IsBounded :
    (d : Daemon) (db db' : Database)
    → All IsStored db'.cases
    → db'.cases ≡ db.cases
    → db'.bumps ≡ db.bumps
    → IsBounded d db (run_with d (d.concurrency - busy db) db').0
unfolding queued_cases
run_with-IsBounded d db db' h same_cases same_bumps =
    if_both (λ (r : Database × Reply (Unit {0})). IsBounded d db r.0)
      ((d.concurrency - busy db) == 0) (unchanged d db db' (ground (arith, same_cases, same_bumps)))
      (if_both
        (λ (r : Reply (List CaseKey)).
          IsBounded d db (start_queued d (d.concurrency - busy db) r (ticked db')).0)
        (d.server.down db'.tick)
        (unchanged d db (ticked db') (ground (arith, same_cases, same_bumps)))
        (Within-slots d db (ticked db') _ same_cases same_bumps
          (start_all-Within d (d.concurrency - busy db) _ (ticked db') h)))

-- In any database whose stored cases are valid, and whatever the store and GitHub answer: after a
-- run of the scheduler, the open attempts and the open repair rounds together are no more than
-- before, or no more than the concurrency that is configured.
pub run-IsBounded :
    (d : Daemon) (db : Database) → All IsStored db.cases → IsBounded d db (run d db).0
unfolding run
run-IsBounded d db h = elim (free_slots-cases d db) [
  | inl (e, r) ↦ rw (run, r) (unchanged d db (ticked db) refl)
  | inr (inl (e, r)) ↦ rw (run, r) (unchanged d db (ticked (ticked db)) refl)
  | inr (inr r) ↦ rw (run, r) (run_with-IsBounded d db (ticked (ticked db)) h refl refl)
]
