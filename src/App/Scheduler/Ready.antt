-- ===== src/App/Scheduler/Ready.antt =====
-- A queued case that can be started is started.
use autophage.Store.Cases.Refines.{view}
use autophage.Store.Cases.Names.{nameless, unnamed}
use autophage.Base.{
  map, ◌++◌, ap, ◌∙◌, [], ◌∷◌, length, ◌≡◌, refl, inl, inr, ℕ, ◌+◌, pos, eqb_ℤ, String, true, false,
  none, some, All, arith, ok, is_blank, known, Option-cases,
}
use autophage.Resolution.Enums.{attempting, queued}
use autophage.Resolution.Facts.{Time, Attempt}
use autophage.Resolution.Repository.{Repository}
use autophage.Resolution.Case.State.{clear_changes, Case}
use autophage.Resolution.Case.Commands.{
  fresh_attempt, move, next_attempt_kind, start_attempt, open_attempt,
}
use autophage.Resolution.Case.Attempts.{open_attempt-some}
use autophage.Resolution.Case.Trace.{left_by, Command, starts, call, answer}
use autophage.Store.Database.{put_case, done, CaseKey, Database, ticked, find_case, find_repository}
use autophage.Store.Rows.{find_case-key, find_case-put_same, find_case-All}
use autophage.Store.Queries.{get_repository}
use autophage.Store.Cases.Updates.{
  row_after-key, row_after-nameless, row_after, IsStored, update_case-accepted,
}
use autophage.App.Scheduler.{Daemon, IssueDetail, budget_for, brief_input, start_next, start}

-- Nothing stands in the way of an attempt on a queued case.
queued_unopened : (s : Case) → IsStored s → s.state ≡ queued → open_attempt s.attempts ≡ none
queued_unopened s h is_queued = elim (Option-cases (open_attempt s.attempts)) [
  | inl missing ↦ missing
  | inr (a, found) ↦ elim (h.valid.open_live (open_attempt-some s.attempts a found).0) [
    | inl e ↦ absurd (ground (arith, e, is_queued))
    | inr e ↦ absurd (ground (arith, e, is_queued))
  ]
]

-- What the daemon finds when it looks at a queued case.
pub record IsReady (d : Daemon) (k : CaseKey) (db : Database) (s : Case) (repo : Repository)
    (detail : IssueDetail) (brief : String) : Type 0 where
  pub up : (n : ℕ) → d.server.down n ≡ false
  pub recorded : find_repository k.repository db.repositories ≡ some repo
  pub read : d.issue (db.tick + 1) k ≡ some detail
  pub live : detail.is_open ≡ true
  pub found : find_case k db.cases ≡ some s
  pub waiting : s.state ≡ queued
  pub built : d.build_brief (brief_input d repo detail s) ≡ ok brief
  pub briefed : is_blank brief ≡ false
  pub budgeted : eqb_ℤ (budget_for d.budgets (next_attempt_kind s)).max_turns (pos 0) ≡ false

module _ (d : Daemon) (k : CaseKey) (db : Database) (s : Case) (repo : Repository)
    (detail : IssueDetail) (brief : String) where
  start_accepted :
      (at : Time)
      → IsStored s
      → IsReady d k db s repo detail brief
      → answer s (
          starts
            (known (next_attempt_kind s))
            (budget_for d.budgets (next_attempt_kind s))
            brief
            at)
        ≡ ok tt
  unfolding call start_attempt
  start_accepted at h r =
      ground (arith, r.waiting, r.briefed, r.budgeted, queued_unopened s h r.waiting)

  start_next-call :
      (at : Time)
      → IsReady d k db s repo detail brief
      → start_next d repo detail at s
        ≡ call
            (starts
              (known (next_attempt_kind s))
              (budget_for d.budgets (next_attempt_kind s))
              brief
              at)
            s
  unfolding start_next call
  start_next-call at r = rw (start_next, r.built) refl

  -- The command that the daemon calls.
  abbrev next_start : Time → Command
  next_start at =
      starts (known (next_attempt_kind s)) (budget_for d.budgets (next_attempt_kind s)) brief at

  start-call :
      All IsStored db.cases
      → IsReady d k db s repo detail brief
      → let row = row_after d.server s (next_start (d.now (db.tick + 1))) in
        start d k db ≡ (record (ticked (ticked db)) { cases = put_case k row db.cases }, done true)
  unfolding start
  start-call h r =
      let at = d.now (db.tick + 1) in
      let stored = find_case-All IsStored k db.cases h r.found in
      rw
        (
          start,
          get_repository,
          r.up db.tick,
          r.recorded,
          r.read,
          r.live,
          update_case-accepted d.server k (start_next d repo detail at) (ticked db) s
              (next_start at) (r.up (db.tick + 1)) r.found stored tt (start_next-call at r)
              (start_accepted at stored r),
        )
        refl

  -- The attempt that is to be started.
  abbrev pub next_attempt : Attempt
  next_attempt =
      fresh_attempt (length s.attempts) (known (next_attempt_kind s))
        (budget_for d.budgets (next_attempt_kind s)) brief (d.now (db.tick + 1))

  -- In this database the case is attempting, and its attempts, up to their ids, are those that it had
  -- and then the new one, which has no outcome.
  abbrev pub HasStarted : Database → Type 0
  HasStarted db' =
      (c : Case) × (view db' k ≡ some c)
      × (c.state ≡ attempting)
      × (c.attempts ≡ map unnamed (s.attempts ++ next_attempt ∷ []))

  started-state :
      (at : Time)
      → IsStored s
      → IsReady d k db s repo detail brief
      → (left_by s (next_start at)).state ≡ attempting
  unfolding call start_attempt move
  started-state at h r =
      ground (arith, r.waiting, r.briefed, r.budgeted, queued_unopened s h r.waiting)

  started-attempts :
      IsStored s
      → IsReady d k db s repo detail brief
      → (left_by s (next_start (d.now (db.tick + 1)))).attempts ≡ s.attempts ++ next_attempt ∷ []
  unfolding call start_attempt move
  started-attempts h r =
      ground (arith, r.waiting, r.briefed, r.budgeted, queued_unopened s h r.waiting)

  -- Where no transaction of the store fails and the rows of the cases are stored ones: for a case
  -- that is queued, in a repository that the store has, with its issue read and open on GitHub, a
  -- brief that is built and is not blank, and a budget of some turns, `start` answers `true`, and the
  -- store then has the case in the state `attempting`, with the attempts that it had and a new one of
  -- the next kind, with the budget of that kind and the brief, and without an outcome.
  pub start_ready :
      All IsStored db.cases
      → IsReady d k db s repo detail brief
      → ((start d k db).1 ≡ done true) × HasStarted (start d k db).0
  unfolding clear_changes
  start_ready h r =
      let stored = find_case-All IsStored k db.cases h r.found in
      let m = next_start (d.now (db.tick + 1)) in
      let row = row_after d.server s m in
      let same = row_after-nameless d.server s m stored tt in
      (
        rw (start-call h r) refl,
        (
          nameless row,
          rw
              (
                start-call h r,
                find_case-put_same k row s db.cases r.found
                    (row_after-key d.server s m ∙ find_case-key k db.cases s r.found),
              )
              refl,
          ap (λ (c : Case). c.state) same ∙ started-state (d.now (db.tick + 1)) stored r,
          ap (λ (c : Case). c.attempts) same ∙ ap (map unnamed) (started-attempts stored r),
        ),
      )
