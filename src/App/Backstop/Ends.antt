-- ===== src/App/Backstop/Ends.antt =====
-- An attempt that its runner left open does not stay open.
use autophage.Base.{
  some_same, ◌≡◌, refl, sym, subst, ◌∙◌, inl, inr, ℕ, ◌-◌, String, false, Option, none, some, All,
  arith, ok, is_blank, str_eq, str_eq_iff, known, not_blank_left, Option-cases, Result-cases,
}
use autophage.Resolution.Enums.{failure_infra}
use autophage.Resolution.Facts.{Time, Attempt, Outcome, outcome_failed}
use autophage.Resolution.Case.State.{Case}
use autophage.Resolution.Case.Commands.{open_attempt, record_outcome}
use autophage.Resolution.Case.Attempts.{opens, open_attempt-some, opens-set_outcome}
use autophage.Resolution.Case.Trace.{Command, ends, call, left_by}
use autophage.Resolution.Case.Persist.{InTransaction}
use autophage.Store.Database.{Database, Server, ticked, key_of, find_case}
use autophage.Store.Rows.{find_case-put_same, find_case-All}
use autophage.Store.Cases.Updates.{
  IsStored, loads, row_after, row_after-key, opens-row_after, update_case-accepted,
}
use autophage.App.Recovery.{no_usage}
use autophage.App.Backstop.{update_case, find_by_attempt, get_case_by_attempt, message_of, backstop}

message_not_blank : (panicked : Option String) → is_blank (message_of panicked) ≡ false
unfolding is_blank str_eq
message_not_blank none = refl
message_not_blank (some v) = not_blank_left "runner panicked: " v refl

failure_total :
    (panicked : Option String) (at : Time)
    → (o : Outcome) × (outcome_failed (known failure_infra) (message_of panicked) no_usage at
        ≡ ok o)
unfolding outcome_failed
failure_total panicked at =
    elim (Result-cases (outcome_failed (known failure_infra) (message_of panicked) no_usage at)) [
      | inl found ↦ found
      | inr (e, refusal) ↦ absurd (ground (arith, message_not_blank panicked, refusal))
    ]

-- RecordOutcome takes the failure of the open attempt in every state.
takes_failure :
    (s : Case) (a : Attempt) (o : Outcome) (message : String) (at : Time)
    → open_attempt s.attempts ≡ some a
    → outcome_failed (known failure_infra) message no_usage at ≡ ok o
    → ((record_outcome a.id o s).1 ≡ ok tt)
      × (opens (record_outcome a.id o s).0.attempts ≡ opens s.attempts - 1)
unfolding record_outcome outcome_failed
takes_failure s a o message at found built =
    ground (arith, found, built, (str_eq_iff a.id a.id).1 refl, opens-set_outcome o s.attempts)

no_attempt_left :
    (server : Server) (s : Case) (m : Command)
    → IsStored s
    → InTransaction m
    → opens (left_by s m).attempts ≡ opens s.attempts - 1
    → (s' : Case) → s' ≡ row_after server s m
    → open_attempt s'.attempts ≡ none
no_attempt_left server s m h i ended s' e = elim (Option-cases (open_attempt s'.attempts)) [
  | inl missing ↦ missing
  | inr (a, live) ↦
      let some_open =
        open_attempt-some (row_after server s m).attempts a
          (subst (λ (c : Case). open_attempt c.attempts ≡ some a) e live) in
      absurd (omega (arith, ended, some_open.0, opens-row_after server s m h i, h.valid.one_open))
]

module _ (server : Server) (now : ℕ → Time) (panicked : Option String) (db : Database) (s : Case)
    (a : Attempt) where
  -- Where no transaction of the store fails and the daemon is not going down: if the runner of an
  -- open attempt returned without an outcome, or panicked with any value, no attempt of its case is
  -- open after the backstop.
  pub backstop-closes :
      ((n : ℕ) → server.down n ≡ false)
      → All IsStored db.cases
      → find_by_attempt a.id db.cases ≡ some s
      → find_case (key_of s) db.cases ≡ some s
      → open_attempt s.attempts ≡ some a
      → (s' : Case)
      → find_case (key_of s) (backstop server now false panicked a.id db).cases ≡ some s'
      → open_attempt s'.attempts ≡ none
  unfolding backstop get_case_by_attempt call
  backstop-closes up h named found live s' after =
      let stored = find_case-All IsStored (key_of s) db.cases h found in
      let (o, built) = failure_total panicked (now (ticked db).tick) in
      let (accepted, ended) =
        takes_failure s a o (message_of panicked) (now (ticked db).tick) live built in
      let row = row_after server s (ends a.id o) in
      let written : backstop server now false panicked a.id db
          ≡ (update_case server (key_of s) (call (ends a.id o)) (ticked db)).0 =
        rw
          (
            backstop,
            get_case_by_attempt,
            up db.tick,
            named,
            loads s stored,
            live,
            (str_eq_iff a.id a.id).1 refl,
            built,
          )
          refl in
      let updated =
        update_case-accepted server (key_of s) (call (ends a.id o)) (ticked db) s (ends a.id o)
          (up (ticked db).tick) found stored tt refl accepted in
      let there : find_case (key_of s) (backstop server now false panicked a.id db).cases
          ≡ some row =
        rw (written, updated)
          (find_case-put_same (key_of s) row s db.cases found
            (row_after-key server s (ends a.id o))) in
      no_attempt_left server s (ends a.id o) stored tt ended s'
        (some_same s' row (sym after ∙ there))
