-- ===== src/Resolution/Case/Errors.antt =====
-- A call that fails changes nothing.
use autophage.Base.{err_of-forget, ◌≡◌, Error, err, arith, String, Spelling}
use autophage.Resolution.Enums.{AttemptKind}
use autophage.Resolution.Budget.{Budget}
use autophage.Resolution.Facts.{Outcome, Triage, Approval, Closure, Run, Time}
use autophage.Resolution.Case.State.{Case, assign_id, clear_changes}
use autophage.Resolution.Case.Trace.{
  Command, triages, approves, starts, runs, ends, closes, assigns, persists, call, left_by, answer,
}
use autophage.Resolution.Case.Commands.{
  record_triage, record_approval, start_attempt, record_run, record_outcome, close,
}

record_triage_error_unchanged :
    (c : Case) (t : Triage) {e : Error} → (record_triage t c).1 ≡ err e → (record_triage t c).0 ≡ c
unfolding record_triage
record_triage_error_unchanged c t h = ground arith

record_approval_error_unchanged :
    (c : Case) (t : Approval) {e : Error}
    → (record_approval t c).1 ≡ err e
    → (record_approval t c).0 ≡ c
unfolding record_approval
record_approval_error_unchanged c t h = ground arith

start_attempt_error_unchanged :
    (c : Case) (k : Spelling AttemptKind) (b : Budget) (s : String) (a : Time) {e : Error}
    → (start_attempt k b s a c).1 ≡ err e
    → (start_attempt k b s a c).0 ≡ c
unfolding start_attempt
start_attempt_error_unchanged c k b s a h = ground arith

record_run_error_unchanged :
    (c : Case) (i : String) (t : Run) {e : Error}
    → (record_run i t c).1 ≡ err e
    → (record_run i t c).0 ≡ c
unfolding record_run
record_run_error_unchanged c i t h = ground arith

record_outcome_error_unchanged :
    (c : Case) (i : String) (t : Outcome) {e : Error}
    → (record_outcome i t c).1 ≡ err e
    → (record_outcome i t c).0 ≡ c
unfolding record_outcome
record_outcome_error_unchanged c i t h = ground arith

close_error_unchanged :
    (c : Case) (t : Closure) {e : Error} → (close t c).1 ≡ err e → (close t c).0 ≡ c
unfolding close
close_error_unchanged c t h = ground arith

-- Whatever the call, its arguments and the state of the case: a call that returns an error leaves
-- every field of the case as it was, the record of changes included.
pub case_error_unchanged :
    (c : Case) (m : Command) {e : Error} → answer c m ≡ err e → left_by c m ≡ c
unfolding call assign_id clear_changes
case_error_unchanged c (triages t) h = record_triage_error_unchanged c t h
case_error_unchanged c (approves a) h = record_approval_error_unchanged c a h
case_error_unchanged c (starts kind budget brief at) h =
    start_attempt_error_unchanged c kind budget brief at (err_of-forget _ h)
case_error_unchanged c (runs id r) h = record_run_error_unchanged c id r h
case_error_unchanged c (ends id o) h = record_outcome_error_unchanged c id o h
case_error_unchanged c (closes cl) h = close_error_unchanged c cl h
case_error_unchanged c (assigns id) h = ground arith
case_error_unchanged c persists h = cc
