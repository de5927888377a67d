-- ===== src/Upkeep/Bump/Cap.antt =====
-- The cap on repair rounds.
use autophage.Base.{
  ℕ, ◌+◌, ◌≤◌, ◌<◌, ◌≡◌, inl, inr, ℤ, pos, ltb_ℤ, String, true, Option, List, [], ◌∷◌,
  length-append, count_if-append, arith, ok, if◌then◌else◌, ap, ◌∙◌,
}
use native.Mathlib.Nat.{add-zero}
use autophage.Resolution.Budget.{Budget}
use autophage.Resolution.Facts.{Time, Run}
use autophage.Upkeep.Enums.{BumpState, BumpTransitionCause, RepairOutcomeKind, AbandonReason}
use autophage.Upkeep.Facts.{
  CheckVerdict, RepairAttempt, RepairOutcome, BumpAbandonment, BumpClosure, BumpTransition,
}
use autophage.Upkeep.Bump.State.{
  Bump, is_queued, rounds, retry_grants, is_retry, cap_of, new_bump, assign_id, clear_changes,
}
use autophage.Upkeep.Bump.Commands.{
  move, set_abandonment, record_verdict, advance_head, start_repair, fresh_repair, record_run,
  record_outcome, abandon, retry, close,
}
use autophage.Upkeep.Bump.Rounds.{length-set_run, length-set_outcome}
use autophage.Upkeep.Bump.Effects.{
  record_verdict-effect, advance_head-effect, start_repair-effect, record_run-effect,
  record_outcome-effect, abandon-effect, retry-effect, close-effect, plan_of, moved, abandoned_if,
  with_push, with_outcome,
}
use autophage.Upkeep.Bump.Trace.{
  Command, judges, advances, repairs, runs, ends, abandons, retries, closes, assigns, persists,
  call, left_by, run_calls,
}

-- With a cap of `m` rounds: the rounds spent lie within the cap and the operators' grants, and a
-- queued bump has a round left to run.
pub record IsCapped (m : ℕ) (b : Bump) : Type 0 where
  pub within : rounds b ≤ m + retry_grants b
  pub startable : is_queued b.state ≡ true → rounds b < m + retry_grants b

-- The grant that a transition with this cause is.
abbrev grant : BumpTransitionCause → ℕ
grant cause = if is_retry cause then 1 else 0

grants-moved :
    (to : BumpState) (cause : BumpTransitionCause) (at : Time) (b : Bump)
    → retry_grants (moved to cause at b) ≡ retry_grants b + grant cause
unfolding move
grants-moved to cause at b =
    let tr : BumpTransition = record { from = b.state; to = to; cause = cause; occurred_at = at } in
    count_if-append (λ (x : BumpTransition). is_retry x.cause) b.transitions (tr ∷ [])
    ∙ ap (λ n. retry_grants b + n) (add-zero (grant cause))

moved-IsCapped :
    (m : ℕ) (to : BumpState) (cause : BumpTransitionCause) (at : Time) (b : Bump)
    → rounds b ≤ m + retry_grants b
    → (is_queued to ≡ true → rounds b < m + retry_grants b + grant cause)
    → IsCapped m (moved to cause at b)
unfolding move
moved-IsCapped m to cause at b le lt = record {
  within = omega (arith, grants-moved to cause at b);
  startable = λ q. omega (arith, lt q, grants-moved to cause at b);
}

record_verdict-IsCapped :
    (m : ℕ) (b : Bump) (v : CheckVerdict) → IsCapped m b → IsCapped m (record_verdict v (pos m) b).0
unfolding set_abandonment
record_verdict-IsCapped m b v i = elim (record_verdict-effect v (pos m) b) [
  | inl same ↦ rw same i
  | inr (inl (_, _, e)) ↦ rw e (moved-IsCapped m _ _ _ _ i.within (λ q. cc))
  | inr (inr (inl (_, _, room, e))) ↦
      rw e (moved-IsCapped m _ _ _ _ i.within (λ q. ground (arith, room)))
  | inr (inr (inr (_, _, _, e))) ↦ rw e (moved-IsCapped m _ _ _ _ i.within (λ q. cc))
]

advance_head-IsCapped :
    (m : ℕ) (b : Bump) (sha : String) (at : Time)
    → IsCapped m b
    → IsCapped m (advance_head sha at b).0
advance_head-IsCapped m b sha at i = elim (advance_head-effect sha at b) [
  | inl same ↦ rw same i
  | inr (inl (_, _, e)) ↦ rw e (ground arith)
  | inr (inr (_, _, e)) ↦ rw e (moved-IsCapped m _ _ _ _ i.within (λ q. cc))
]

start_repair-IsCapped :
    (m : ℕ) (b : Bump) (budget : Budget) (brief : String) (at : Time)
    → IsCapped m b
    → IsCapped m (start_repair budget brief at (pos m) b).0
start_repair-IsCapped m b budget brief at i =
    let a = fresh_repair (rounds b) b.head_sha budget brief at in
    elim (start_repair-effect budget brief at (pos m) b) [
      | inl same ↦ rw same i
      | inr (_, _, room, e) ↦ rw e (
          moved-IsCapped m _ _ _ _ (ground (arith, length-append b.attempts (a ∷ []), room))
            (λ q. cc))
    ]

record_run-IsCapped :
    (m : ℕ) (b : Bump) (id : String) (r : Run) → IsCapped m b → IsCapped m (record_run id r b).0
record_run-IsCapped m b id r i = elim (record_run-effect id r b) [
  | inl same ↦ rw same i
  | inr (a, found, _, e) ↦ rw e (ground (arith, length-set_run r b.attempts))
]

abandon-IsCapped :
    (m : ℕ) (b : Bump) (a : BumpAbandonment) → IsCapped m b → IsCapped m (abandon a b).0
unfolding set_abandonment
abandon-IsCapped m b a i = elim (abandon-effect a b) [
  | inl same ↦ rw same i
  | inr (_, e) ↦ rw e (moved-IsCapped m _ _ _ _ i.within (λ q. cc))
]

retry-IsCapped : (m : ℕ) (b : Bump) (at : Time) → IsCapped m b → IsCapped m (retry at b).0
retry-IsCapped m b at i = elim (retry-effect at b) [
  | inl same ↦ rw same i
  | inr (inl (_, _, e)) ↦ rw e (moved-IsCapped m _ _ _ _ (ground arith) (λ q. cc))
  | inr (inr (_, _, e)) ↦ rw e (moved-IsCapped m _ _ _ _ (ground arith) (λ q. ground arith))
]

close-IsCapped : (m : ℕ) (b : Bump) (cl : BumpClosure) → IsCapped m b → IsCapped m (close cl b).0
close-IsCapped m b cl i = elim (close-effect cl b) [
  | inl same ↦ rw same i
  | inr (_, e) ↦ rw e (moved-IsCapped m _ _ _ _ i.within (λ q. cc))
]

-- A round's end queues the bump only where a further round lies within the cap.
plan_room :
    (kind : RepairOutcomeKind) (a : RepairAttempt) (o : RepairOutcome) (n : ℤ) (b : Bump)
    → is_queued (plan_of kind a o n b).to ≡ true
    → ltb_ℤ (pos (rounds b)) (cap_of b n) ≡ true
plan_room kind a o n b h = ground arith

plan_lt :
    (kind : RepairOutcomeKind) (a : RepairAttempt) (o : RepairOutcome) (m : ℕ) (b : Bump)
    → is_queued (plan_of kind a o (pos m) b).to ≡ true
    → rounds b < m + retry_grants b
plan_lt kind a o m b h = ground (arith, plan_room kind a o (pos m) b h)

-- The end of a round spends no round and grants none.
ended_counts :
    (kind : RepairOutcomeKind) (reason : Option AbandonReason) (a : RepairAttempt)
    (o : RepairOutcome) (b : Bump)
    → let c = abandoned_if reason o.summary o.ended_at (with_push kind o (with_outcome a o b)) in
      (rounds c ≡ rounds b) × (retry_grants c ≡ retry_grants b)
unfolding set_abandonment
ended_counts kind reason a o b = ground (arith, length-set_outcome o b.attempts)

record_outcome-IsCapped :
    (m : ℕ) (b : Bump) (id : String) (o : RepairOutcome)
    → IsCapped m b
    → IsCapped m (record_outcome id o (pos m) b).0
unfolding set_abandonment
record_outcome-IsCapped m b id o i = elim (record_outcome-effect id o (pos m) b) [
  | inl same ↦ rw same i
  | inr (inl (a, kind, found, admits, idle, e)) ↦
      rw e (ground (arith, length-set_outcome o b.attempts))
  | inr (inr (a, kind, found, admits, busy, e)) ↦
      let same = ended_counts kind (plan_of kind a o (pos m) b).reason a o b in
      rw e (
        moved-IsCapped m _ _ _ _ (omega (arith, same, i.within))
          (λ q. omega (arith, same, plan_lt kind a o m b q)))
]

call-IsCapped : (m : ℕ) (b : Bump) (c : Command) → IsCapped m b → IsCapped m (left_by (pos m) b c)
unfolding call assign_id clear_changes
call-IsCapped m b (judges v) i = record_verdict-IsCapped m b v i
call-IsCapped m b (advances sha at) i = advance_head-IsCapped m b sha at i
call-IsCapped m b (repairs budget brief at) i = start_repair-IsCapped m b budget brief at i
call-IsCapped m b (runs id r) i = record_run-IsCapped m b id r i
call-IsCapped m b (ends id o) i = record_outcome-IsCapped m b id o i
call-IsCapped m b (abandons a) i = abandon-IsCapped m b a i
call-IsCapped m b (retries at) i = retry-IsCapped m b at i
call-IsCapped m b (closes cl) i = close-IsCapped m b cl i
call-IsCapped m b (assigns id) i = ground arith
call-IsCapped m b persists i = ground arith

run_calls-IsCapped :
    (m : ℕ) (b : Bump) (cs : List Command) → IsCapped m b → IsCapped m (run_calls (pos m) b cs)
unfolding run_calls
run_calls-IsCapped m b [] i = i
run_calls-IsCapped m b (c ∷ cs) i =
    run_calls-IsCapped m (left_by (pos m) b c) cs (call-IsCapped m b c i)

-- With a cap of `m` rounds, whatever is called on a new bump: it has spent at most `m` rounds and
-- one for each operator's retry; and while it is queued, a round is left, so that no cap keeps it
-- queued for ever.
pub rounds-IsCapped :
    (repository : String) (number : ℤ) (branch base_branch head_sha : String) (at : Time) {b : Bump}
    (m : ℕ) (cs : List Command)
    → new_bump repository number branch base_branch head_sha at ≡ ok b
    → IsCapped m (run_calls (pos m) b cs)
unfolding new_bump
rounds-IsCapped repository number branch base_branch head_sha at {b} m cs h =
    run_calls-IsCapped m b cs (ground arith)
