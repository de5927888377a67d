-- ===== src/Upkeep/Bump/Graph.antt =====
-- The log of a bump, as a path through the arrows of its transitions.
pub mod Arrows
use autophage.Base.{
  ◌≡◌, refl, ap, ◌⊎◌, inl, inr, ℤ, String, true, false, ◌||◌, Option, List, [], ◌∷◌, ◌++◌, arith,
}
use autophage.Resolution.Budget.{Budget}
use autophage.Resolution.Facts.{Time, Run}
use autophage.Upkeep.Enums.{
  BumpState, awaiting_checks, queued, repairing, green, abandoned, closed, terminal,
  RepairOutcomeKind, AbandonReason, BumpTransitionCause, cause_verdict_success,
  cause_verdict_failure, cause_verdict_failure_cap_reached, cause_checks_never_concluded,
  cause_repair_started, cause_repair_pushed, cause_repair_no_change, cause_repair_budget_exhausted,
  cause_repair_failed_infra_requeued, cause_repair_requeue_capped, cause_repair_failed_abandoned,
  cause_repair_aborted_operator_stop, cause_repair_aborted_restart_requeue,
  cause_repair_aborted_restart_abandon, cause_head_advanced, cause_operator_retry,
  cause_bump_closed,
}
use autophage.Upkeep.Facts.{
  CheckVerdict, RepairAttempt, RepairOutcome, BumpAbandonment, BumpClosure, BumpTransition,
}
use autophage.Upkeep.Bump.State.{
  Bump, is_awaiting, is_abandoned, is_closed, is_green, assign_id, clear_changes,
}
use autophage.Upkeep.Bump.Commands.{
  move, set_abandonment, record_verdict, advance_head, start_repair, record_run, record_outcome,
  abandon, retry, close,
}
use autophage.Upkeep.Bump.Effects.{
  record_verdict-effect, advance_head-effect, start_repair-effect, record_run-effect,
  record_outcome-effect, abandon-effect, retry-effect, close-effect, plan_of, Admits, moved,
  abandoned_if, with_push, with_outcome, without_abandonment,
}
use autophage.Upkeep.Bump.Trace.{
  Command, judges, advances, repairs, runs, ends, abandons, retries, closes, assigns, persists,
  call, left_by,
}
use autophage.Upkeep.Bump.Graph.Arrows.{
  Edge, gives_up, advanced, retried_waiting, retried_queued, shut, passed, broke, broke_capped,
  gave_up, started, pushed, unchanged, exhausted, failed, failed_infra, stopped, restarted,
  restarted_twice, advanced_repairing, advanced_green, advanced_queued, retried_green,
  retried_abandoned, shut_awaiting, shut_queued, shut_repairing, shut_green, shut_abandoned,
  gave_up_queued, gave_up_repairing, gave_up_green, waits_green, waits_abandoned, capped,
}

-- A call logs nothing and leaves the state, or logs one arrow from the old state to the new one.
abbrev pub Logs : Bump → Bump → Type 0
Logs b b' =
    ((b'.transitions ≡ b.transitions) × (b'.state ≡ b.state))
    ⊎ ((tr : BumpTransition) × (b'.transitions ≡ b.transitions ++ tr ∷ [])
        × (tr.from ≡ b.state)
        × (tr.to ≡ b'.state)
        × Edge tr.from tr.to tr.cause)

abbrev SameLog : Bump → Bump → Type 0
SameLog b c = (c.transitions ≡ b.transitions) × (c.state ≡ b.state)

move-Logs :
    (b c : Bump) (to : BumpState) (cause : BumpTransitionCause) (at : Time)
    → SameLog b c
    → Edge b.state to cause
    → Logs b (moved to cause at c)
unfolding move
move-Logs b c to cause at (log, state) edge =
    let tr : BumpTransition = record { from = c.state; to = to; cause = cause; occurred_at = at } in
    inr (tr, ap (λ (l : List BumpTransition). l ++ tr ∷ []) log, state, refl, rw state edge)

same-Logs : (b b' : Bump) → b' ≡ b → Logs b b'
same-Logs b b' e = inl (ap (λ x. x.transitions) e, ap (λ x. x.state) e)

record_verdict-Logs : (n : ℤ) (b : Bump) (v : CheckVerdict) → Logs b (record_verdict v n b).0
unfolding set_abandonment
record_verdict-Logs n b v = elim (record_verdict-effect v n b) [
  | inl same ↦ same-Logs b _ same
  | inr (inl (taken, _, e)) ↦ rw e (move-Logs b _ _ _ _ (refl, refl) (rw (taken.0) (inl passed)))
  | inr (inr (inl (taken, _, _, e))) ↦
      rw e (move-Logs b _ _ _ _ (refl, refl) (rw (taken.0) (inl broke)))
  | inr (inr (inr (taken, _, _, e))) ↦
      rw e (move-Logs b _ _ _ _ (refl, refl) (rw (taken.0) (inl broke_capped)))
]

advance_head-Logs : (b : Bump) (sha : String) (at : Time) → Logs b (advance_head sha at b).0
advance_head-Logs b sha at = elim (advance_head-effect sha at b) [
  | inl same ↦ same-Logs b _ same
  | inr (inl (_, _, e)) ↦ rw e (inl (refl, refl))
  | inr (inr (_, live, e)) ↦ rw e (move-Logs b _ _ _ _ (refl, refl) (advanced b.state live))
]

start_repair-Logs :
    (n : ℤ) (b : Bump) (budget : Budget) (brief : String) (at : Time)
    → Logs b (start_repair budget brief at n b).0
start_repair-Logs n b budget brief at = elim (start_repair-effect budget brief at n b) [
  | inl same ↦ same-Logs b _ same
  | inr (in_queue, _, _, e) ↦ rw e (move-Logs b _ _ _ _ (refl, refl) (rw in_queue (inl started)))
]

record_run-Logs : (b : Bump) (id : String) (r : Run) → Logs b (record_run id r b).0
record_run-Logs b id r = elim (record_run-effect id r b) [
  | inl same ↦ same-Logs b _ same
  | inr (a, _, _, e) ↦ rw e (inl (refl, refl))
]

abandon-Logs : (b : Bump) (a : BumpAbandonment) → Logs b (abandon a b).0
unfolding set_abandonment
abandon-Logs b a = elim (abandon-effect a b) [
  | inl same ↦ same-Logs b _ same
  | inr (live, e) ↦ rw e (move-Logs b _ _ _ _ (refl, refl) (gives_up b.state live))
]

same_without : (b : Bump) → SameLog b (without_abandonment b)
same_without b = ground arith

retry-Logs : (b : Bump) (at : Time) → Logs b (retry at b).0
retry-Logs b at = elim (retry-effect at b) [
  | inl same ↦ same-Logs b _ same
  | inr (inl (state, _, e)) ↦
      rw e (move-Logs b _ _ _ _ (same_without b) (retried_waiting b.state state))
  | inr (inr (state, _, e)) ↦
      rw e (move-Logs b _ _ _ _ (same_without b) (retried_queued b.state state))
]

close-Logs : (b : Bump) (cl : BumpClosure) → Logs b (close cl b).0
close-Logs b cl = elim (close-effect cl b) [
  | inl same ↦ same-Logs b _ same
  | inr (live, e) ↦ rw e (move-Logs b _ _ _ _ (refl, refl) (shut b.state live))
]

-- The nine ways in which the end of a round moves a repairing bump.
plan_cases :
    (kind : RepairOutcomeKind) (a : RepairAttempt) (o : RepairOutcome) (n : ℤ) (b : Bump)
    (to : BumpState) (cause : BumpTransitionCause)
    → Admits kind a o b
    → b.state ≡ repairing
    → to ≡ (plan_of kind a o n b).to
    → cause ≡ (plan_of kind a o n b).cause
    → ((to ≡ awaiting_checks) × (cause ≡ cause_repair_pushed))
      ⊎ ((to ≡ abandoned) × (cause ≡ cause_repair_no_change))
      ⊎ ((to ≡ abandoned) × (cause ≡ cause_repair_budget_exhausted))
      ⊎ ((to ≡ abandoned) × (cause ≡ cause_repair_failed_abandoned))
      ⊎ ((to ≡ queued) × (cause ≡ cause_repair_failed_infra_requeued))
      ⊎ ((to ≡ abandoned) × (cause ≡ cause_repair_requeue_capped))
      ⊎ ((to ≡ abandoned) × (cause ≡ cause_repair_aborted_operator_stop))
      ⊎ ((to ≡ queued) × (cause ≡ cause_repair_aborted_restart_requeue))
      ⊎ ((to ≡ abandoned) × (cause ≡ cause_repair_aborted_restart_abandon))
plan_cases kind a o n b to cause admits busy p q = ground arith

plan-Edge :
    (kind : RepairOutcomeKind) (a : RepairAttempt) (o : RepairOutcome) (n : ℤ) (b : Bump)
    → Admits kind a o b
    → b.state ≡ repairing
    → Edge repairing (plan_of kind a o n b).to (plan_of kind a o n b).cause
plan-Edge kind a o n b admits busy = elim (plan_cases kind a o n b _ _ admits busy refl refl) [
  | inl (p, q) ↦ rw (p, q) (inl pushed)
  | inr (inl (p, q)) ↦ rw (p, q) (inl unchanged)
  | inr (inr (inl (p, q))) ↦ rw (p, q) (inl exhausted)
  | inr (inr (inr (inl (p, q)))) ↦ rw (p, q) (inl failed)
  | inr (inr (inr (inr (inl (p, q))))) ↦ rw (p, q) (inl failed_infra)
  | inr (inr (inr (inr (inr (inl (p, q)))))) ↦ rw (p, q) (inr capped)
  | inr (inr (inr (inr (inr (inr (inl (p, q))))))) ↦ rw (p, q) (inl stopped)
  | inr (inr (inr (inr (inr (inr (inr (inl (p, q)))))))) ↦ rw (p, q) (inl restarted)
  | inr (inr (inr (inr (inr (inr (inr (inr (p, q)))))))) ↦ rw (p, q) (inl restarted_twice)
]

ended_log :
    (kind : RepairOutcomeKind) (reason : Option AbandonReason) (a : RepairAttempt)
    (o : RepairOutcome) (b : Bump)
    → SameLog b (abandoned_if reason o.summary o.ended_at (with_push kind o (with_outcome a o b)))
unfolding set_abandonment
ended_log kind reason a o b = ground arith

push_log :
    (kind : RepairOutcomeKind) (a : RepairAttempt) (o : RepairOutcome) (b : Bump)
    → SameLog b (with_push kind o (with_outcome a o b))
push_log kind a o b = ground arith

record_outcome-Logs :
    (n : ℤ) (b : Bump) (id : String) (o : RepairOutcome) → Logs b (record_outcome id o n b).0
record_outcome-Logs n b id o = elim (record_outcome-effect id o n b) [
  | inl same ↦ same-Logs b _ same
  | inr (inl (a, kind, _, _, _, e)) ↦ rw e (inl (push_log kind a o b))
  | inr (inr (a, kind, _, admits, busy, e)) ↦ rw e (
      move-Logs b _ _ _ _ (ended_log kind (plan_of kind a o n b).reason a o b)
        (rw busy (plan-Edge kind a o n b admits busy)))
]

-- In any bump, every call either logs nothing and leaves the state, or logs exactly one transition,
-- from the old state to the new one, along an arrow.
pub call-Logs : (n : ℤ) (b : Bump) (m : Command) → Logs b (left_by n b m)
unfolding call assign_id clear_changes
call-Logs n b (judges v) = record_verdict-Logs n b v
call-Logs n b (advances sha at) = advance_head-Logs b sha at
call-Logs n b (repairs budget brief at) = start_repair-Logs n b budget brief at
call-Logs n b (runs id r) = record_run-Logs b id r
call-Logs n b (ends id o) = record_outcome-Logs n b id o
call-Logs n b (abandons a) = abandon-Logs b a
call-Logs n b (retries at) = retry-Logs b at
call-Logs n b (closes cl) = close-Logs b cl
call-Logs n b (assigns id) = inl (ground arith, ground arith)
call-Logs n b persists = inl (refl, refl)

-- A log that leads from one state to another: each entry starts where the one before it ended, and
-- follows an arrow.
abbrev pub Leads : BumpState → List BumpTransition → BumpState → Type 0
Leads s [] t = s ≡ t
Leads s (tr ∷ rest) t = (tr.from ≡ s) × Edge tr.from tr.to tr.cause × Leads tr.to rest t
