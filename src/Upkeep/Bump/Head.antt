-- ===== src/Upkeep/Bump/Head.antt =====
-- The head of a bump against the verdicts on it.
use autophage.Base.{
  ◌≡◌, refl, inl, inr, ℤ, String, Bool, true, false, ◌&&◌, ◌||◌, not, Option, none, some, List, [],
  ◌∷◌, ◌++◌, any_if, arith, is, str_eq, str_eq_iff, ok,
}
use autophage.Resolution.Budget.{Budget}
use autophage.Resolution.Facts.{Time, Run}
use autophage.Upkeep.Enums.{BumpState, queued, repairing, green, RepairOutcomeKind}
use autophage.Upkeep.Facts.{
  CheckVerdict, RepairAttempt, RepairOutcome, BumpAbandonment, BumpClosure,
}
use autophage.Upkeep.Bump.State.{
  Bump, is_green, is_queued, is_repairing, verdict_on, current_verdict, new_bump, assign_id,
  clear_changes,
}
use autophage.Upkeep.Bump.Commands.{
  move, set_abandonment, record_verdict, advance_head, start_repair, record_run, record_outcome,
  abandon, retry, close, is_success, is_pushed,
}
use autophage.Upkeep.Bump.Effects.{
  record_verdict-effect, advance_head-effect, start_repair-effect, record_run-effect,
  record_outcome-effect, abandon-effect, retry-effect, close-effect, plan_of, moved, abandoned_if,
  with_push, with_outcome,
}
use autophage.Upkeep.Bump.Trace.{
  Command, judges, advances, repairs, runs, ends, abandons, retries, closes, assigns, persists,
  call, left_by, run_calls,
}

abbrev is_passed : Option CheckVerdict → Bool
is_passed none = false
is_passed (some v) = is is_success v.conclusion

abbrev is_failed : Option CheckVerdict → Bool
is_failed none = false
is_failed (some v) = not (is is_success v.conclusion)

-- What a state says of the verdict on the current head: green is a success; queued for a round, or
-- in one, is a failure.
abbrev pub fits : BumpState → Option CheckVerdict → Bool
fits green v = is_passed v
fits queued v = is_failed v
fits repairing v = is_failed v
fits _ v = true

-- A round reports a push while its bump is green or queued: the head moved under the round, and was
-- judged before the round ended.
abbrev pub is_late_push : Bump → Command → Bool
is_late_push b (ends id o) = is is_pushed o.kind && (is_green b.state || is_queued b.state)
is_late_push b _ = false

abbrev pub NoLatePush : ℤ → Bump → List Command → Type 0
NoLatePush n b [] = Unit {0}
NoLatePush n b (m ∷ ms) = (is_late_push b m ≡ false) × NoLatePush n (left_by n b m) ms

abbrev IsJudged : Bump → Type 0
IsJudged b = fits b.state (current_verdict b) ≡ true

verdict_on-append :
    (l : List CheckVerdict) (v : CheckVerdict)
    → any_if (λ (x : CheckVerdict). str_eq x.head_sha v.head_sha) l ≡ false
    → verdict_on v.head_sha (l ++ v ∷ []) ≡ some v
unfolding verdict_on
verdict_on-append [] v h = rw ((str_eq_iff v.head_sha v.head_sha).1 refl)
verdict_on-append (x ∷ rest) v h = ground (arith, verdict_on-append rest v)

current-append :
    (b : Bump) (v : CheckVerdict)
    → str_eq v.head_sha b.head_sha ≡ true
    → any_if (λ (x : CheckVerdict). str_eq x.head_sha v.head_sha) b.verdicts ≡ false
    → verdict_on b.head_sha (b.verdicts ++ v ∷ []) ≡ some v
current-append b v same new =
    rw (← (str_eq_iff v.head_sha b.head_sha).0 same) (verdict_on-append b.verdicts v new)

record_verdict-IsJudged :
    (n : ℤ) (b : Bump) (v : CheckVerdict) → IsJudged b → IsJudged (record_verdict v n b).0
unfolding move set_abandonment
record_verdict-IsJudged n b v j = elim (record_verdict-effect v n b) [
  | inl same ↦ rw same j
  | inr (inl (taken, passed, e)) ↦ rw e (ground (arith, current-append b v taken.1 taken.2))
  | inr (inr (inl (taken, failed, _, e))) ↦
      rw e (ground (arith, current-append b v taken.1 taken.2))
  | inr (inr (inr (taken, _, _, e))) ↦ rw e refl
]

advance_head-IsJudged :
    (b : Bump) (sha : String) (at : Time) → IsJudged b → IsJudged (advance_head sha at b).0
unfolding move
advance_head-IsJudged b sha at j = elim (advance_head-effect sha at b) [
  | inl same ↦ rw same j
  | inr (inl (_, waits, e)) ↦ rw e (ground arith)
  | inr (inr (_, _, e)) ↦ rw e refl
]

start_repair-IsJudged :
    (n : ℤ) (b : Bump) (budget : Budget) (brief : String) (at : Time)
    → IsJudged b
    → IsJudged (start_repair budget brief at n b).0
unfolding move
start_repair-IsJudged n b budget brief at j = elim (start_repair-effect budget brief at n b) [
  | inl same ↦ rw same j
  | inr (in_queue, _, _, e) ↦ rw e (ground arith)
]

record_run-IsJudged :
    (b : Bump) (id : String) (r : Run) → IsJudged b → IsJudged (record_run id r b).0
record_run-IsJudged b id r j = elim (record_run-effect id r b) [
  | inl same ↦ rw same j
  | inr (a, _, _, e) ↦ rw e j
]

abandon-IsJudged : (b : Bump) (a : BumpAbandonment) → IsJudged b → IsJudged (abandon a b).0
unfolding move set_abandonment
abandon-IsJudged b a j = elim (abandon-effect a b) [ inl same ↦ rw same j | inr (_, e) ↦ rw e refl ]

retry-IsJudged : (b : Bump) (at : Time) → IsJudged b → IsJudged (retry at b).0
unfolding move
retry-IsJudged b at j = elim (retry-effect at b) [
  | inl same ↦ rw same j
  | inr (inl (_, _, e)) ↦ rw e refl
  | inr (inr (_, (v, judged, failed), e)) ↦ rw e (ground arith)
]

close-IsJudged : (b : Bump) (cl : BumpClosure) → IsJudged b → IsJudged (close cl b).0
unfolding move
close-IsJudged b cl j = elim (close-effect cl b) [ inl same ↦ rw same j | inr (_, e) ↦ rw e refl ]

pushed-IsJudged :
    (kind : RepairOutcomeKind) (a : RepairAttempt) (o : RepairOutcome) (b : Bump)
    → is_pushed kind && (is_green b.state || is_queued b.state) ≡ false
    → is_pushed kind && is_repairing b.state ≡ false
    → IsJudged b
    → IsJudged (with_push kind o (with_outcome a o b))
pushed-IsJudged kind a o b late busy j = ground arith

planned-IsJudged :
    (kind : RepairOutcomeKind) (a : RepairAttempt) (o : RepairOutcome) (n : ℤ) (b : Bump)
    → b.state ≡ repairing
    → IsJudged b
    → IsJudged (
        moved (plan_of kind a o n b).to (plan_of kind a o n b).cause o.ended_at (
          abandoned_if
            (plan_of kind a o n b).reason
            o.summary
            o.ended_at
            (with_push kind o (with_outcome a o b))))
unfolding move set_abandonment
planned-IsJudged kind a o n b busy j = ground arith

record_outcome-IsJudged :
    (n : ℤ) (b : Bump) (id : String) (o : RepairOutcome)
    → is is_pushed o.kind && (is_green b.state || is_queued b.state) ≡ false
    → IsJudged b
    → IsJudged (record_outcome id o n b).0
record_outcome-IsJudged n b id o late j = elim (record_outcome-effect id o n b) [
  | inl same ↦ rw same j
  | inr (inl (a, kind, _, admits, idle, e)) ↦
      rw e (pushed-IsJudged kind a o b (ground arith) (ground arith) j)
  | inr (inr (a, kind, _, _, busy, e)) ↦ rw e (planned-IsJudged kind a o n b busy j)
]

call-IsJudged :
    (n : ℤ) (b : Bump) (m : Command)
    → is_late_push b m ≡ false
    → IsJudged b
    → IsJudged (left_by n b m)
unfolding call assign_id clear_changes
call-IsJudged n b (judges v) _ j = record_verdict-IsJudged n b v j
call-IsJudged n b (advances sha at) _ j = advance_head-IsJudged b sha at j
call-IsJudged n b (repairs budget brief at) _ j = start_repair-IsJudged n b budget brief at j
call-IsJudged n b (runs id r) _ j = record_run-IsJudged b id r j
call-IsJudged n b (ends id o) late j = record_outcome-IsJudged n b id o late j
call-IsJudged n b (abandons a) _ j = abandon-IsJudged b a j
call-IsJudged n b (retries at) _ j = retry-IsJudged b at j
call-IsJudged n b (closes cl) _ j = close-IsJudged b cl j
call-IsJudged n b (assigns id) _ j = ground arith
call-IsJudged n b persists _ j = j

run_calls-IsJudged :
    (n : ℤ) (b : Bump) (ms : List Command)
    → NoLatePush n b ms
    → IsJudged b
    → IsJudged (run_calls n b ms)
unfolding run_calls
run_calls-IsJudged n b [] h j = j
run_calls-IsJudged n b (m ∷ ms) h j =
    run_calls-IsJudged n (left_by n b m) ms h.1 (call-IsJudged n b m h.0 j)

-- Whatever is called on a new bump, unless a round reports a push while the bump is green or
-- queued: a green bump's current head has a verdict, and it is a success; a queued or repairing
-- bump's current head has one, and it is a failure.
pub state_fits_verdict :
    (repository : String) (number : ℤ) (branch base_branch head_sha : String) (at : Time) {b : Bump}
    (n : ℤ) (ms : List Command)
    → new_bump repository number branch base_branch head_sha at ≡ ok b
    → NoLatePush n b ms
    → fits (run_calls n b ms).state (current_verdict (run_calls n b ms)) ≡ true
unfolding new_bump
state_fits_verdict repository number branch base_branch head_sha at {b} n ms h late =
    run_calls-IsJudged n b ms late (ground arith)
