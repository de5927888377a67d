-- ===== src/Resolution/Case/Gate.antt =====
-- The gate: what has to be approved before an agent runs.
use autophage.Base.{
  ◌≡◌, inl, inr, ℤ, Bool, true, false, ◌||◌, not, Option, none, some, List, [], ◌∷◌, ◌++◌, arith,
  is, Spelling, String, ok,
}
use autophage.Resolution.Enums.{Size, small, large, AttemptKind}
use autophage.Resolution.Budget.{Budget}
use autophage.Resolution.Requester.{Requester}
use autophage.Resolution.Facts.{Time, Triage, Approval, Closure, Run, Outcome}
use autophage.Resolution.Case.State.{
  Case, is_trusted, is_queued, new_case, assign_id, clear_changes,
}
use autophage.Resolution.Case.Commands.{
  move, record_triage, record_approval, start_attempt, record_run, record_outcome, close,
  open_attempt,
}
use autophage.Resolution.Case.Effects.{
  record_triage-effect, record_approval-effect, start_attempt-effect, record_run-effect,
  close-effect, record_outcome-effect,
}
use autophage.Resolution.Case.Invariant.{IsValid, call-IsValid, new_case-IsValid}
use autophage.Resolution.Case.Trace.{
  Command, triages, approves, starts, runs, ends, closes, assigns, persists, call, left_by,
  run_calls,
}

abbrev is_large : Size → Bool
is_large large = true
is_large small = false

abbrev sized_large : Option Triage → Bool
sized_large none = false
sized_large (some t) = is is_large t.size

-- The cases that autophage may not start on its own: the requester is not trusted, or triage sized
-- the issue large.
abbrev pub needs_approval : Case → Bool
needs_approval c = not (is_trusted c.requester.trust) || sized_large c.triage

-- Such a case has no attempt, and is not queued for one, before its first approval.
abbrev IsHeld : Case → Type 0
IsHeld c =
    needs_approval c ≡ true → c.approvals ≡ [] → (c.attempts ≡ []) × (is_queued c.state ≡ false)

record_triage-IsHeld : (c : Case) (t : Triage) → IsValid c → IsHeld c → IsHeld (record_triage t c).0
unfolding move
record_triage-IsHeld c t v h = elim (record_triage-effect t c) [
  | inl same ↦ rw same h
  | inr (inl (is_received, is_size, e)) ↦ rw e (ground arith)
  | inr (inr (is_received, is_size, e)) ↦ rw e (ground arith)
]

append-ne-nil : (l : List Approval) (a : Approval) → ¬ (l ++ a ∷ [] ≡ [])
append-ne-nil [] a e = cc
append-ne-nil (x ∷ l) a e = cc

record_approval-IsHeld : (c : Case) (a : Approval) → IsHeld c → IsHeld (record_approval a c).0
unfolding move
record_approval-IsHeld c a h = elim (record_approval-effect a c) [
  | inl same ↦ rw same h
  | inr (inl (_, _, e)) ↦ rw e (λ _ z. absurd (append-ne-nil c.approvals a z))
  | inr (inr (_, e)) ↦ rw e (λ _ z. absurd (append-ne-nil c.approvals a z))
]

start_attempt-IsHeld :
    (c : Case) (kind : Spelling AttemptKind) (budget : Budget) (brief : String) (at : Time)
    → IsHeld c
    → IsHeld (start_attempt kind budget brief at c).0
unfolding move
start_attempt-IsHeld c kind budget brief at h = elim (start_attempt-effect kind budget brief at c) [
  | inl same ↦ rw same h
  | inr (in_queue, _, e) ↦ rw e (ground arith)
]

record_run-IsHeld : (c : Case) (id : String) (r : Run) → IsHeld c → IsHeld (record_run id r c).0
unfolding open_attempt
record_run-IsHeld c id r h = elim (record_run-effect id r c) [
  | inl same ↦ rw same h
  | inr (a, found, _, e) ↦ rw e (ground arith)
]

record_outcome-IsHeld :
    (c : Case) (id : String) (o : Outcome) → IsHeld c → IsHeld (record_outcome id o c).0
unfolding open_attempt move
record_outcome-IsHeld c id o h = elim (record_outcome-effect id o c) [
  | inl same ↦ rw same h
  | inr (inl (a, found, _, e)) ↦ rw e (ground arith)
  | inr (inr (a, kind, to, cause, found, _, _, _, e)) ↦ rw e (ground arith)
]

close-IsHeld : (c : Case) (cl : Closure) → IsHeld c → IsHeld (close cl c).0
unfolding move
close-IsHeld c cl h = elim (close-effect cl c) [
  | inl same ↦ rw same h
  | inr (_, e) ↦ rw e (ground arith)
]

call-IsHeld : (c : Case) (m : Command) → IsValid c → IsHeld c → IsHeld (left_by c m)
unfolding call assign_id clear_changes
call-IsHeld c (triages t) v h = record_triage-IsHeld c t v h
call-IsHeld c (approves a) v h = record_approval-IsHeld c a h
call-IsHeld c (starts kind budget brief at) v h = start_attempt-IsHeld c kind budget brief at h
call-IsHeld c (runs id r) v h = record_run-IsHeld c id r h
call-IsHeld c (ends id o) v h = record_outcome-IsHeld c id o h
call-IsHeld c (closes cl) v h = close-IsHeld c cl h
call-IsHeld c (assigns id) v h = ground arith
call-IsHeld c persists v h = h

run_calls-IsHeld : (c : Case) (ms : List Command) → IsValid c → IsHeld c → IsHeld (run_calls c ms)
unfolding run_calls
run_calls-IsHeld c [] v h = h
run_calls-IsHeld c (m ∷ ms) v h =
    run_calls-IsHeld (left_by c m) ms (call-IsValid c m v) (call-IsHeld c m v h)

-- Whatever is called on a new case: if its requester is not trusted, or triage sized it large, then
-- as long as no approval is recorded it has no attempt, and it is not queued for one.
pub no_attempt_before_approval :
    (repository : String) (number : ℤ) (requester : Requester) (at : Time) {c : Case}
    (ms : List Command)
    → new_case repository number requester at ≡ ok c
    → needs_approval (run_calls c ms) ≡ true
    → (run_calls c ms).approvals ≡ []
    → ((run_calls c ms).attempts ≡ []) × (is_queued (run_calls c ms).state ≡ false)
unfolding new_case
no_attempt_before_approval repository number requester at {c} ms h =
    run_calls-IsHeld c ms (new_case-IsValid repository number requester at h) (ground arith)
