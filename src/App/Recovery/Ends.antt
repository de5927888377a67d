-- ===== src/App/Recovery/Ends.antt =====
-- What the end of one attempt does to the store.
use autophage.Base.{
  ◌≡◌, refl, subst, inl, inr, ◌-◌, String, some, arith, Result, ok, err, Bool-cases, known,
  is_blank, str_eq, str_eq_iff,
}
use autophage.Resolution.Facts.{Time, Outcome, Attempt, outcome_aborted}
use autophage.Resolution.Case.State.{Case, is_closed}
use autophage.Resolution.Case.Commands.{open_attempt, record_outcome}
use autophage.Resolution.Case.Attempts.{opens, opens-set_outcome}
use autophage.Resolution.Case.Trace.{ends, call}
use autophage.Store.Cases.Updates.{ActsAt}
use autophage.App.Recovery.{reason_for, summary_for, no_usage, record_built, end_attempt}

-- The outcome is always built.
outcome_total :
    (c : Case) (at : Time)
    → (o : Outcome) × (outcome_aborted (known (reason_for c)) (summary_for c) no_usage at ≡ ok o)
unfolding outcome_aborted is_blank str_eq
outcome_total c at = elim (Bool-cases (is_closed c.state)) [
  | inl shut ↦ rw shut (_, refl)
  | inr live ↦ rw live (_, refl)
]

record_built-ActsAt : (id : String) (r : Result Outcome) (s : Case) → ActsAt (record_built id r) s
unfolding call
record_built-ActsAt id (err e) s = inl (e, refl)
record_built-ActsAt id (ok o) s = inr (ends id o, tt, refl)

pub end_attempt-ActsAt : (id : String) (at : Time) (s : Case) → ActsAt (end_attempt id at) s
unfolding end_attempt
end_attempt-ActsAt id at s =
    record_built-ActsAt id (outcome_aborted (known (reason_for s)) (summary_for s) no_usage at) s

-- The attempt that is named is ended, in whichever state the case is.
ends_open :
    (s : Case) (a : Attempt) (o : Outcome) (at : Time)
    → open_attempt s.attempts ≡ some a
    → outcome_aborted (known (reason_for s)) (summary_for s) no_usage at ≡ ok o
    → ((record_outcome a.id o s).1 ≡ ok tt)
      × (opens (record_outcome a.id o s).0.attempts ≡ opens s.attempts - 1)
unfolding record_outcome outcome_aborted
ends_open s a o at found built =
    ground (arith, found, built, (str_eq_iff a.id a.id).1 refl, opens-set_outcome o s.attempts)

pub end_attempt-ends :
    (s : Case) (a : Attempt) (at : Time)
    → open_attempt s.attempts ≡ some a
    → ((end_attempt a.id at s).1 ≡ ok tt)
      × (opens (end_attempt a.id at s).0.attempts ≡ opens s.attempts - 1)
unfolding end_attempt
end_attempt-ends s a at found =
    let (o, built) = outcome_total s at in rw (end_attempt, built) (ends_open s a o at found built)

record_outcome-opens :
    (id : String) (o : Outcome) (s : Case)
    → (record_outcome id o s).1 ≡ ok tt
    → opens (record_outcome id o s).0.attempts ≡ opens s.attempts - 1
unfolding record_outcome
record_outcome-opens id o s h = ground (arith, h, opens-set_outcome o s.attempts)

-- What it accepts, it ends.
pub end_attempt-opens :
    (id : String) (at : Time) (s : Case)
    → (end_attempt id at s).1 ≡ ok tt
    → opens (end_attempt id at s).0.attempts ≡ opens s.attempts - 1
unfolding end_attempt
end_attempt-opens id at s h =
    let (o, built) = outcome_total s at in
    rw (end_attempt, built)
      (record_outcome-opens id o s
        (subst (λ (r : Result Outcome). (record_built id r s).1 ≡ ok tt) built h))
