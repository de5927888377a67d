-- ===== src/Upkeep/Bump/Errors.antt =====
-- A call that fails changes nothing.
use autophage.Base.{err_of-forget, ◌≡◌, Error, err, arith, ℤ, String}
use autophage.Resolution.Budget.{Budget}
use autophage.Resolution.Facts.{Time, Run}
use autophage.Upkeep.Facts.{CheckVerdict, RepairOutcome, BumpAbandonment, BumpClosure}
use autophage.Upkeep.Bump.State.{Bump, assign_id, clear_changes}
use autophage.Upkeep.Bump.Commands.{
  record_verdict, advance_head, start_repair, record_run, record_outcome, abandon, retry, close,
}
use autophage.Upkeep.Bump.Trace.{
  Command, judges, advances, repairs, runs, ends, abandons, retries, closes, assigns, persists,
  call, left_by, answer,
}

record_verdict_error_unchanged :
    (n : ℤ) (b : Bump) (v : CheckVerdict) {e : Error}
    → (record_verdict v n b).1 ≡ err e
    → (record_verdict v n b).0 ≡ b
unfolding record_verdict
record_verdict_error_unchanged n b v h = ground arith

start_repair_error_unchanged :
    (n : ℤ) (b : Bump) (budget : Budget) (brief : String) (at : Time) {e : Error}
    → (start_repair budget brief at n b).1 ≡ err e
    → (start_repair budget brief at n b).0 ≡ b
unfolding start_repair
start_repair_error_unchanged n b budget brief at h = ground arith

record_run_error_unchanged :
    (b : Bump) (id : String) (r : Run) {e : Error}
    → (record_run id r b).1 ≡ err e
    → (record_run id r b).0 ≡ b
unfolding record_run
record_run_error_unchanged b id r h = ground arith

retry_error_unchanged :
    (b : Bump) (at : Time) {e : Error} → (retry at b).1 ≡ err e → (retry at b).0 ≡ b
unfolding retry
retry_error_unchanged b at h = ground arith

advance_head_error_unchanged :
    (b : Bump) (sha : String) (at : Time) {e : Error}
    → (advance_head sha at b).1 ≡ err e
    → (advance_head sha at b).0 ≡ b
unfolding advance_head
advance_head_error_unchanged b sha at h = ground arith

abandon_error_unchanged :
    (b : Bump) (a : BumpAbandonment) {e : Error} → (abandon a b).1 ≡ err e → (abandon a b).0 ≡ b
unfolding abandon
abandon_error_unchanged b a h = ground arith

close_error_unchanged :
    (b : Bump) (cl : BumpClosure) {e : Error} → (close cl b).1 ≡ err e → (close cl b).0 ≡ b
unfolding close
close_error_unchanged b cl h = ground arith

record_outcome_error_unchanged :
    (n : ℤ) (b : Bump) (id : String) (o : RepairOutcome) {e : Error}
    → (record_outcome id o n b).1 ≡ err e
    → (record_outcome id o n b).0 ≡ b
unfolding record_outcome
record_outcome_error_unchanged n b id o h = ground arith

-- Whatever the call, its arguments and the state of the bump: a call that returns an error leaves
-- every field of the bump as it was, the record of changes included.
pub bump_error_unchanged :
    (n : ℤ) (b : Bump) (m : Command) {e : Error} → answer n b m ≡ err e → left_by n b m ≡ b
unfolding call assign_id clear_changes
bump_error_unchanged n b (judges v) h = record_verdict_error_unchanged n b v h
bump_error_unchanged n b (advances sha at) h = advance_head_error_unchanged b sha at h
bump_error_unchanged n b (repairs budget brief at) h =
    start_repair_error_unchanged n b budget brief at (err_of-forget _ h)
bump_error_unchanged n b (runs id r) h = record_run_error_unchanged b id r h
bump_error_unchanged n b (ends id o) h = record_outcome_error_unchanged n b id o h
bump_error_unchanged n b (abandons a) h = abandon_error_unchanged b a h
bump_error_unchanged n b (retries at) h = retry_error_unchanged b at h
bump_error_unchanged n b (closes cl) h = close_error_unchanged b cl h
bump_error_unchanged n b (assigns id) h = ground arith
bump_error_unchanged n b persists h = cc
