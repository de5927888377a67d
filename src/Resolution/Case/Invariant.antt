-- ===== src/Resolution/Case/Invariant.antt =====
-- What holds of a case between two calls.
use autophage.Base.{
  ◌≤◌, ◌<◌, ◌≡◌, ◌⊎◌, String, ℤ, none, some, List, [], ◌∷◌, length, arith, is_some, inl, inr, Bool,
  false, count_if-append, Spelling, ok, is_blank, ltb_ℤ, pos, ◌||◌,
}
use autophage.Resolution.Enums.{
  CaseState, received, gated, queued, attempting, awaiting_approval, failed, done, closed,
  OutcomeKind, TransitionCause, trusted, untrusted, AttemptKind,
}
use autophage.Resolution.Budget.{Budget}
use autophage.Resolution.Requester.{Requester}
use autophage.Resolution.Facts.{Time, Triage, Approval, Closure, Run, Outcome, Attempt, is_open}
use autophage.Resolution.Case.State.{Case, is_closed, new_case, assign_id, clear_changes}
use autophage.Resolution.Case.Commands.{
  record_triage, record_approval, start_attempt, fresh_attempt, record_run, record_outcome, close,
  open_attempt, move, outcome_move, restarted_before,
}
use autophage.Resolution.Case.Attempts.{
  opens, Numbered, open_attempt-none, open_attempt-some, opens-set_run, opens-set_outcome,
  Numbered-append, Numbered-set_run, Numbered-set_outcome,
}
use autophage.Resolution.Case.Effects.{record_outcome-effect}
use autophage.Resolution.Case.Trace.{
  Command, triages, approves, starts, runs, ends, closes, assigns, persists, call, left_by,
  run_calls,
}

pub record IsValid (c : Case) : Type 0 where
  pub open_live : 0 < opens c.attempts → (c.state ≡ attempting) ⊎ (c.state ≡ closed)
  pub one_open : opens c.attempts ≤ 1
  pub attempting_open : c.state ≡ attempting → opens c.attempts ≡ 1
  pub closed_iff : is_some c.closure ≡ is_closed c.state
  pub received_fresh : c.state ≡ received → c.triage ≡ none
  pub received_unstarted : c.state ≡ received → c.attempts ≡ []
  pub received_trusted : c.state ≡ received → c.requester.trust ≡ trusted
  pub gated_untrusted : c.state ≡ gated → c.requester.trust ≡ untrusted
  pub numbered : Numbered 1 c.attempts
  pub named : is_blank c.repository || is_blank c.requester.login ≡ false
  pub positive : ltb_ℤ c.number (pos 1) ≡ false

-- While a case is not closed, an attempt without an outcome is one that it is attempting.
pub open-attempting :
    (c : Case) (a : Attempt)
    → IsValid c
    → open_attempt c.attempts ≡ some a
    → is_closed c.state ≡ false
    → c.state ≡ attempting
open-attempting c a v found live = ground (arith, open_attempt-some c.attempts a found, v.open_live)

record_triage-IsValid : (c : Case) (t : Triage) → IsValid c → IsValid (record_triage t c).0
unfolding record_triage
record_triage-IsValid c t v = ground arith

record_approval-IsValid : (c : Case) (a : Approval) → IsValid c → IsValid (record_approval a c).0
unfolding record_approval
record_approval-IsValid c a v = ground arith

start_attempt-IsValid :
    (c : Case) (kind : Spelling AttemptKind) (budget : Budget) (brief : String) (at : Time)
    → IsValid c
    → IsValid (start_attempt kind budget brief at c).0
unfolding start_attempt
start_attempt-IsValid c kind budget brief at v =
    let a = fresh_attempt (length c.attempts) kind budget brief at in
    ground (
      arith,
      count_if-append is_open c.attempts (a ∷ []),
      Numbered-append 1 c.attempts a,
      open_attempt-none c.attempts,
    )

record_run-IsValid : (c : Case) (id : String) (r : Run) → IsValid c → IsValid (record_run id r c).0
unfolding record_run
record_run-IsValid c id r v =
    ground (arith, opens-set_run r c.attempts, Numbered-set_run 1 r c.attempts)

-- An outcome never takes a case to `received`, `gated`, `attempting` or `closed`.
outcome_move_live :
    (kind : OutcomeKind) (again : Bool) (o : Outcome) (to : CaseState) (cause : TransitionCause)
    → outcome_move kind again o ≡ ok (to, cause)
    → (to ≡ done) ⊎ (to ≡ awaiting_approval) ⊎ (to ≡ failed) ⊎ (to ≡ queued)
outcome_move_live kind again o to cause decide = ground arith

record_outcome-IsValid :
    (c : Case) (id : String) (o : Outcome) → IsValid c → IsValid (record_outcome id o c).0
unfolding move
record_outcome-IsValid c id o v = elim (record_outcome-effect id o c) [
  | inl same ↦ rw same v
  | inr (inl (a, found, shut, e)) ↦
      rw e (ground (arith, opens-set_outcome o c.attempts, Numbered-set_outcome 1 o c.attempts))
  | inr (inr (a, kind, to, cause, found, live, is_kind, decide, e)) ↦ rw e (
      ground (
        arith,
        v.one_open,
        outcome_move_live kind (restarted_before a.ordinal c.attempts) o to cause decide,
        opens-set_outcome o c.attempts,
        Numbered-set_outcome 1 o c.attempts,
        open-attempting c a v found live,
      ))
]

close-IsValid : (c : Case) (cl : Closure) → IsValid c → IsValid (close cl c).0
unfolding close
close-IsValid c cl v = ground arith

-- A new case satisfies the invariant.
pub new_case-IsValid :
    (repository : String) (number : ℤ) (requester : Requester) (at : Time) {c : Case}
    → new_case repository number requester at ≡ ok c
    → IsValid c
unfolding new_case
new_case-IsValid repository number requester at h = ground arith

-- Every call keeps the invariant.
pub call-IsValid : (c : Case) (m : Command) → IsValid c → IsValid (left_by c m)
unfolding call assign_id clear_changes
call-IsValid c (triages t) v = record_triage-IsValid c t v
call-IsValid c (approves a) v = record_approval-IsValid c a v
call-IsValid c (starts kind budget brief at) v = start_attempt-IsValid c kind budget brief at v
call-IsValid c (runs id r) v = record_run-IsValid c id r v
call-IsValid c (ends id o) v = record_outcome-IsValid c id o v
call-IsValid c (closes cl) v = close-IsValid c cl v
call-IsValid c (assigns id) v = ground arith
call-IsValid c persists v = ground arith

pub run_calls-IsValid : (c : Case) (ms : List Command) → IsValid c → IsValid (run_calls c ms)
unfolding run_calls
run_calls-IsValid c [] v = v
run_calls-IsValid c (m ∷ ms) v = run_calls-IsValid (left_by c m) ms (call-IsValid c m v)

-- Whatever is called on a new case, it satisfies the invariant: at most one attempt is open, exactly
-- one while it is attempting, and none unless it is attempting or closed; a closure is recorded
-- exactly in `closed`; a `received` case is trusted, not triaged and has no attempt, a `gated` one
-- is untrusted; attempts are numbered from 1; and the key it was created with stays valid.
pub reachable_case-IsValid :
    (repository : String) (number : ℤ) (requester : Requester) (at : Time) {c : Case}
    (ms : List Command)
    → new_case repository number requester at ≡ ok c
    → IsValid (run_calls c ms)
reachable_case-IsValid repository number requester at {c} ms h =
    run_calls-IsValid c ms (new_case-IsValid repository number requester at h)
