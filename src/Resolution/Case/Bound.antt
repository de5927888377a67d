-- ===== src/Resolution/Case/Bound.antt =====
-- How many attempts a case may spend.
use autophage.Base.{
  ◌+◌, ◌≤◌, ◌≡◌, refl, inl, inr, ℕ, ℤ, Bool, true, false, not, some, List, [], ◌∷◌, length,
  length-append, arith, if◌then◌else◌, known, Spelling, String, ok,
}
use autophage.Resolution.Enums.{CaseState, AttemptKind, OutcomeKind, TransitionCause}
use autophage.Resolution.Budget.{Budget}
use autophage.Resolution.Requester.{Requester}
use autophage.Resolution.Facts.{Time, Triage, Approval, Closure, Run, Outcome}
use autophage.Resolution.Case.State.{
  Case, is_queued, is_received, new_case, assign_id, clear_changes,
}
use autophage.Resolution.Case.Commands.{
  move, record_triage, record_approval, start_attempt, fresh_attempt, record_run, record_outcome,
  close, outcome_move, ended_by_restart, restarted_before,
}
use autophage.Resolution.Case.Attempts.{
  OpenLast, restarts, open_attempt-none, open_attempt-some, length-set_run, length-set_outcome,
  OpenLast-append, OpenLast-set_run, OpenLast-set_outcome, restarts-set_run, restarts-set_outcome,
  restarts-append, restarted_before-open,
}
use autophage.Resolution.Case.Effects.{
  record_triage-effect, record_approval-effect, start_attempt-effect, record_run-effect,
  close-effect, record_outcome-effect,
}
use autophage.Resolution.Case.Invariant.{IsValid, call-IsValid, new_case-IsValid}
use autophage.Resolution.Case.Gate.{needs_approval}
use autophage.Resolution.Case.Trace.{
  Command, triages, approves, starts, runs, ends, closes, assigns, persists, call, left_by,
  run_calls,
}

abbrev pub one_if : Bool → ℕ
one_if b = if b then 1 else 0

-- What a case may spend: one attempt of its own if it needs no approval, one for each approval, and
-- one more once a daemon restart cut an attempt short.
abbrev pub allowance : Case → ℕ
allowance c = one_if (not (needs_approval c)) + length c.approvals + one_if (restarts c.attempts)

-- The attempts made, the one that a queued case is waiting for, and the one that triage may grant,
-- lie within the allowance.
record IsBounded (c : Case) : Type 0 where
  spent :
      length c.attempts + one_if (is_queued c.state) + one_if (is_received c.state) ≤ allowance c
  open_last : OpenLast c.attempts

record_triage-IsBounded :
    (c : Case) (t : Triage) → IsValid c → IsBounded c → IsBounded (record_triage t c).0
unfolding move
record_triage-IsBounded c t v h = elim (record_triage-effect t c) [
  | inl same ↦ rw same h
  | inr (inl (fresh, is_size, e)) ↦ rw e (ground (arith, v.received_trusted fresh))
  | inr (inr (fresh, is_size, e)) ↦
      rw e (ground (arith, v.received_trusted fresh, v.received_fresh fresh))
]

record_approval-IsBounded :
    (c : Case) (a : Approval) → IsBounded c → IsBounded (record_approval a c).0
unfolding move
record_approval-IsBounded c a h = elim (record_approval-effect a c) [
  | inl same ↦ rw same h
  | inr (inl (_, _, e)) ↦ rw e (ground (arith, length-append c.approvals (a ∷ [])))
  | inr (inr (awaits, e)) ↦ rw e (ground (arith, length-append c.approvals (a ∷ [])))
]

start_attempt-IsBounded :
    (c : Case) (kind : Spelling AttemptKind) (budget : Budget) (brief : String) (at : Time)
    → IsBounded c
    → IsBounded (start_attempt kind budget brief at c).0
unfolding move
start_attempt-IsBounded c kind budget brief at h =
    let a = fresh_attempt (length c.attempts) kind budget brief at in
    elim (start_attempt-effect kind budget brief at c) [
      | inl same ↦ rw same h
      | inr (in_queue, none_open, e) ↦ rw e (
          ground (
            arith,
            length-append c.attempts (a ∷ []),
            restarts-append c.attempts a refl,
            OpenLast-append c.attempts a (open_attempt-none c.attempts none_open),
          ))
    ]

record_run-IsBounded :
    (c : Case) (id : String) (r : Run) → IsBounded c → IsBounded (record_run id r c).0
record_run-IsBounded c id r h = elim (record_run-effect id r c) [
  | inl same ↦ rw same h
  | inr (a, found, _, e) ↦ rw e (
      ground (
        arith,
        length-set_run r c.attempts,
        restarts-set_run r c.attempts,
        OpenLast-set_run r c.attempts,
      ))
]

-- An outcome queues the case again only after the first daemon restart.
requeue_first_restart :
    (o : Outcome) (kind : OutcomeKind) (again : Bool) (to : CaseState) (cause : TransitionCause)
    → o.kind ≡ known kind
    → outcome_move kind again o ≡ ok (to, cause)
    → is_queued to ≡ true
    → (again ≡ false) × (ended_by_restart (some o) ≡ true)
requeue_first_restart o kind again to cause is_kind decide in_queue = ground arith

-- Nor does it take the case back to `received`.
not_received :
    (o : Outcome) (kind : OutcomeKind) (again : Bool) (to : CaseState) (cause : TransitionCause)
    → outcome_move kind again o ≡ ok (to, cause)
    → is_received to ≡ false
not_received o kind again to cause decide = ground arith

record_outcome-IsBounded :
    (c : Case) (id : String) (o : Outcome)
    → IsValid c
    → IsBounded c
    → IsBounded (record_outcome id o c).0
unfolding move
record_outcome-IsBounded c id o v h = elim (record_outcome-effect id o c) [
  | inl same ↦ rw same h
  | inr (inl (a, found, shut, e)) ↦ rw e (
      ground (
        arith,
        length-set_outcome o c.attempts,
        restarts-set_outcome o c.attempts (open_attempt-some c.attempts a found).0,
        OpenLast-set_outcome o c.attempts,
      ))
  | inr (inr (a, kind, to, cause, found, live, is_kind, decide, e)) ↦ rw e (
      ground (
        arith,
        length-set_outcome o c.attempts,
        restarts-set_outcome o c.attempts (open_attempt-some c.attempts a found).0,
        OpenLast-set_outcome o c.attempts,
        restarted_before-open 1 c.attempts a v.numbered h.open_last found,
        requeue_first_restart o kind (restarted_before a.ordinal c.attempts) to cause is_kind
            decide,
        not_received o kind (restarted_before a.ordinal c.attempts) to cause decide,
      ))
]

close-IsBounded : (c : Case) (cl : Closure) → IsBounded c → IsBounded (close cl c).0
unfolding move
close-IsBounded c cl h = elim (close-effect cl c) [
  | inl same ↦ rw same h
  | inr (_, e) ↦ rw e (ground arith)
]

call-IsBounded : (c : Case) (m : Command) → IsValid c → IsBounded c → IsBounded (left_by c m)
unfolding call assign_id clear_changes
call-IsBounded c (triages t) v h = record_triage-IsBounded c t v h
call-IsBounded c (approves a) v h = record_approval-IsBounded c a h
call-IsBounded c (starts kind budget brief at) v h =
    start_attempt-IsBounded c kind budget brief at h
call-IsBounded c (runs id r) v h = record_run-IsBounded c id r h
call-IsBounded c (ends id o) v h = record_outcome-IsBounded c id o v h
call-IsBounded c (closes cl) v h = close-IsBounded c cl h
call-IsBounded c (assigns id) v h = ground arith
call-IsBounded c persists v h = ground arith

run_calls-IsBounded :
    (c : Case) (ms : List Command) → IsValid c → IsBounded c → IsBounded (run_calls c ms)
unfolding run_calls
run_calls-IsBounded c [] v h = h
run_calls-IsBounded c (m ∷ ms) v h =
    run_calls-IsBounded (left_by c m) ms (call-IsValid c m v) (call-IsBounded c m v h)

new_case-IsBounded :
    (repository : String) (number : ℤ) (requester : Requester) (at : Time) {c : Case}
    → new_case repository number requester at ≡ ok c
    → IsBounded c
unfolding new_case
new_case-IsBounded repository number requester at h = ground arith

-- Whatever is called on a new case: the attempts it made, with the one that it is queued for, lie
-- within its allowance; so they are at most two more than its approvals, and at most one more if
-- the case needs approval.
pub attempts_bounded :
    (repository : String) (number : ℤ) (requester : Requester) (at : Time) {c : Case}
    (ms : List Command)
    → new_case repository number requester at ≡ ok c
    → let d = run_calls c ms in
      let made = length d.attempts + one_if (is_queued d.state) in
      (made ≤ allowance d)
      × (made ≤ length d.approvals + 2)
      × (needs_approval d ≡ true → made ≤ length d.approvals + 1)
attempts_bounded repository number requester at {c} ms h =
    let b =
      run_calls-IsBounded c ms (new_case-IsValid repository number requester at h)
        (new_case-IsBounded repository number requester at h) in
    (ground (arith, b.spent), ground (arith, b.spent), ground (arith, b.spent))
