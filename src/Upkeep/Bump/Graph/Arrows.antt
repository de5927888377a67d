-- ===== src/Upkeep/Bump/Graph/Arrows.antt =====
-- The transitions that a bump can log: those of the domain model's diagram, and those beyond it.
use autophage.Base.{◌≡◌, ◌⊎◌, inl, inr, true, false, ◌||◌, arith}
use autophage.Upkeep.Enums.{
  BumpState, awaiting_checks, queued, repairing, green, abandoned, closed, terminal,
  BumpTransitionCause, cause_verdict_success, cause_verdict_failure,
  cause_verdict_failure_cap_reached, cause_checks_never_concluded, cause_repair_started,
  cause_repair_pushed, cause_repair_no_change, cause_repair_budget_exhausted,
  cause_repair_failed_infra_requeued, cause_repair_requeue_capped, cause_repair_failed_abandoned,
  cause_repair_aborted_operator_stop, cause_repair_aborted_restart_requeue,
  cause_repair_aborted_restart_abandon, cause_head_advanced, cause_operator_retry,
  cause_bump_closed,
}
use autophage.Upkeep.Bump.State.{is_awaiting, is_abandoned, is_closed, is_green}

-- The arrows of the state diagram in docs/specs/2026-09-17-autophage-upkeep-domain-model.md, each with
-- the cause that the log gives it.
pub data Drawn : BumpState → BumpState → BumpTransitionCause → Type 0 where
  passed : Drawn awaiting_checks green cause_verdict_success
  broke : Drawn awaiting_checks queued cause_verdict_failure
  broke_capped : Drawn awaiting_checks abandoned cause_verdict_failure_cap_reached
  gave_up : Drawn awaiting_checks abandoned cause_checks_never_concluded
  started : Drawn queued repairing cause_repair_started
  pushed : Drawn repairing awaiting_checks cause_repair_pushed
  unchanged : Drawn repairing abandoned cause_repair_no_change
  exhausted : Drawn repairing abandoned cause_repair_budget_exhausted
  failed : Drawn repairing abandoned cause_repair_failed_abandoned
  failed_infra : Drawn repairing queued cause_repair_failed_infra_requeued
  stopped : Drawn repairing abandoned cause_repair_aborted_operator_stop
  restarted : Drawn repairing queued cause_repair_aborted_restart_requeue
  restarted_twice : Drawn repairing abandoned cause_repair_aborted_restart_abandon
  advanced_repairing : Drawn repairing awaiting_checks cause_head_advanced
  advanced_green : Drawn green awaiting_checks cause_head_advanced
  advanced_queued : Drawn queued awaiting_checks cause_head_advanced
  retried_green : Drawn green queued cause_operator_retry
  retried_abandoned : Drawn abandoned queued cause_operator_retry
  shut_awaiting : Drawn awaiting_checks closed cause_bump_closed
  shut_queued : Drawn queued closed cause_bump_closed
  shut_repairing : Drawn repairing closed cause_bump_closed
  shut_green : Drawn green closed cause_bump_closed
  shut_abandoned : Drawn abandoned closed cause_bump_closed

-- The arrows that the code has beyond the diagram: the elapsed wait window in three more states, a
-- retry back to waiting, and the end of an infrastructure requeue at the cap.
pub data Undrawn : BumpState → BumpState → BumpTransitionCause → Type 0 where
  gave_up_queued : Undrawn queued abandoned cause_checks_never_concluded
  gave_up_repairing : Undrawn repairing abandoned cause_checks_never_concluded
  gave_up_green : Undrawn green abandoned cause_checks_never_concluded
  waits_green : Undrawn green awaiting_checks cause_operator_retry
  waits_abandoned : Undrawn abandoned awaiting_checks cause_operator_retry
  capped : Undrawn repairing abandoned cause_repair_requeue_capped

abbrev pub Edge : BumpState → BumpState → BumpTransitionCause → Type 0
Edge s t cause = Drawn s t cause ⊎ Undrawn s t cause

pub gives_up :
    (s : BumpState)
    → is_closed s || is_abandoned s ≡ false
    → Edge s abandoned cause_checks_never_concluded
gives_up awaiting_checks h = inl gave_up
gives_up queued h = inr gave_up_queued
gives_up repairing h = inr gave_up_repairing
gives_up green h = inr gave_up_green
gives_up abandoned h = absurd (ground (arith, h))
gives_up closed h = absurd (ground (arith, h))

pub advanced :
    (s : BumpState)
    → is_awaiting s || is_closed s || is_abandoned s ≡ false
    → Edge s awaiting_checks cause_head_advanced
advanced awaiting_checks h = absurd (ground (arith, h))
advanced queued h = inl advanced_queued
advanced repairing h = inl advanced_repairing
advanced green h = inl advanced_green
advanced abandoned h = absurd (ground (arith, h))
advanced closed h = absurd (ground (arith, h))

pub retried_waiting :
    (s : BumpState)
    → is_abandoned s || is_green s ≡ true
    → Edge s awaiting_checks cause_operator_retry
retried_waiting awaiting_checks h = absurd (ground (arith, h))
retried_waiting queued h = absurd (ground (arith, h))
retried_waiting repairing h = absurd (ground (arith, h))
retried_waiting green h = inr waits_green
retried_waiting abandoned h = inr waits_abandoned
retried_waiting closed h = absurd (ground (arith, h))

pub retried_queued :
    (s : BumpState) → is_abandoned s || is_green s ≡ true → Edge s queued cause_operator_retry
retried_queued awaiting_checks h = absurd (ground (arith, h))
retried_queued queued h = absurd (ground (arith, h))
retried_queued repairing h = absurd (ground (arith, h))
retried_queued green h = inl retried_green
retried_queued abandoned h = inl retried_abandoned
retried_queued closed h = absurd (ground (arith, h))

pub shut : (s : BumpState) → terminal s ≡ false → Edge s closed cause_bump_closed
shut awaiting_checks h = inl shut_awaiting
shut queued h = inl shut_queued
shut repairing h = inl shut_repairing
shut green h = inl shut_green
shut abandoned h = inl shut_abandoned
shut closed h = absurd (ground (arith, h))
