-- ===== src/Upkeep/Bump/Effects.antt =====
-- What each command leaves behind: the bump as it was, or one of a few named bumps. The proofs about
-- sequences of calls go by these lemmas, with the commands themselves shut.
use autophage.Base.{
  ◌≡◌, ◌⊎◌, inl, inr, ℤ, pos, ltb_ℤ, leb_ℤ, String, true, false, ◌&&◌, ◌||◌, not, Option, none,
  some, [], ◌∷◌, ◌++◌, any_if, arith, known, other, is, is_other, put, Option-cases, Spelling-cases,
  if◌then◌else◌, str_eq, is_sha, is_some,
}
use autophage.Resolution.Budget.{Budget}
use autophage.Resolution.Facts.{Time, Run}
use autophage.Upkeep.Enums.{
  BumpState, awaiting_checks, queued, repairing, green, abandoned, closed, terminal,
  RepairOutcomeKind, AbandonReason, abandon_rounds_exhausted, abandon_checks_never_concluded,
  BumpTransitionCause, cause_verdict_success, cause_verdict_failure,
  cause_verdict_failure_cap_reached, cause_checks_never_concluded, cause_repair_started,
  cause_head_advanced, cause_operator_retry, cause_bump_closed,
}
use autophage.Upkeep.Facts.{
  CheckVerdict, RepairAttempt, RepairOutcome, BumpAbandonment, BumpClosure,
}
use autophage.Upkeep.Bump.State.{
  Bump, is_awaiting, is_repairing, is_green, is_abandoned, is_closed, rounds, cap_of,
  current_verdict,
}
use autophage.Upkeep.Bump.Commands.{
  move, set_abandonment, is_success, record_verdict, advance_head, start_repair, fresh_repair,
  record_run, record_outcome, outcome_move, Plan, restarted_before, is_pushed, is_aborted,
  is_closed_reason, abandon, retry, close, open_repair,
}
use autophage.Upkeep.Bump.Rounds.{set_run, set_outcome}

abbrev pub moved : BumpState → BumpTransitionCause → Time → Bump → Bump
moved to cause at b = (move to cause at b).0

abbrev pub abandoned_for : AbandonReason → String → Time → Bump → Bump
abandoned_for reason detail at b = (set_abandonment reason detail at b).0

abbrev pub abandoned_if : Option AbandonReason → String → Time → Bump → Bump
abandoned_if none detail at b = b
abandoned_if (some reason) detail at b = abandoned_for reason detail at b

abbrev pub with_verdict : CheckVerdict → Bump → Bump
with_verdict v b = record b {
  verdicts = b.verdicts ++ v ∷ [];
  changes = record (b.changes) { verdicts = b.changes.verdicts ++ v ∷ [] };
}

abbrev pub with_head : String → Bump → Bump
with_head sha b = record b { head_sha = sha; changes = record (b.changes) { head_sha = sha } }

abbrev pub with_round : RepairAttempt → Bump → Bump
with_round a b = record b {
  attempts = b.attempts ++ a ∷ [];
  changes = record (b.changes) { attempts = b.changes.attempts ++ a ∷ [] };
}

abbrev pub with_run : RepairAttempt → Run → Bump → Bump
with_run a r b = record b {
  attempts = set_run r b.attempts;
  changes = record (b.changes) { runs = put a.round r b.changes.runs };
}

-- The outcome written to the open round, and the head moved if the round pushed.
abbrev pub with_outcome : RepairAttempt → RepairOutcome → Bump → Bump
with_outcome a o b = record b {
  attempts = set_outcome o b.attempts;
  changes = record (b.changes) { outcomes = put a.round o b.changes.outcomes };
}

abbrev pub with_push : RepairOutcomeKind → RepairOutcome → Bump → Bump
with_push kind o b = if is_pushed kind then with_head o.head_sha b else b

abbrev pub without_abandonment : Bump → Bump
without_abandonment b =
    if is_some b.abandonment
    then record b {
      abandonment = none;
      changes = record (b.changes) { abandonment = none; drop_abandon = true };
    }
    else b

abbrev pub with_closure : BumpClosure → Bump → Bump
with_closure cl b = record b {
  closure = some cl;
  changes = record (b.changes) { closure = some cl };
}

-- What a verdict has to be, for a bump to take it.
abbrev pub IsTaken : CheckVerdict → Bump → Type 0
IsTaken v b =
    (b.state ≡ awaiting_checks)
    × (str_eq v.head_sha b.head_sha ≡ true)
    × (any_if (λ seen. str_eq seen.head_sha v.head_sha) b.verdicts ≡ false)

pub record_verdict-effect :
    (v : CheckVerdict) (n : ℤ) (b : Bump)
    → let b' = (record_verdict v n b).0 in
      let c = with_verdict v b in
      let room = ltb_ℤ (pos (rounds b)) (cap_of b n) in
      (b' ≡ b)
      ⊎ (IsTaken v b
          × (is is_success v.conclusion ≡ true)
          × (b' ≡ moved green cause_verdict_success v.concluded_at c))
      ⊎ (IsTaken v b
          × (is is_success v.conclusion ≡ false)
          × (room ≡ true)
          × (b' ≡ moved queued cause_verdict_failure v.concluded_at c))
      ⊎ (IsTaken v b
          × (is is_success v.conclusion ≡ false)
          × (room ≡ false)
          × (b'
              ≡ moved abandoned cause_verdict_failure_cap_reached v.concluded_at
                  (abandoned_for abandon_rounds_exhausted v.failing_contexts v.concluded_at c)))
unfolding record_verdict
record_verdict-effect v n b = ground arith

pub advance_head-effect :
    (sha : String) (at : Time) (b : Bump)
    → let b' = (advance_head sha at b).0 in
      (b' ≡ b)
      ⊎ ((is_sha sha ≡ true) × (b.state ≡ awaiting_checks) × (b' ≡ with_head sha b))
      ⊎ ((is_sha sha ≡ true)
          × (is_awaiting b.state || is_closed b.state || is_abandoned b.state ≡ false)
          × (b' ≡ moved awaiting_checks cause_head_advanced at (with_head sha b)))
unfolding advance_head
advance_head-effect sha at b = ground arith

pub start_repair-effect :
    (budget : Budget) (brief : String) (at : Time) (n : ℤ) (b : Bump)
    → let b' = (start_repair budget brief at n b).0 in
      (b' ≡ b)
      ⊎ ((b.state ≡ queued)
          × (open_repair b.attempts ≡ none)
          × (leb_ℤ (cap_of b n) (pos (rounds b)) ≡ false)
          × (b'
              ≡ moved repairing cause_repair_started at
                  (with_round (fresh_repair (rounds b) b.head_sha budget brief at) b)))
unfolding start_repair
start_repair-effect budget brief at n b = ground arith

record_run_open :
    (id : String) (r : Run) (b : Bump) (a : RepairAttempt)
    → open_repair b.attempts ≡ some a
    → ((record_run id r b).0 ≡ b) ⊎ ((a.run ≡ none) × ((record_run id r b).0 ≡ with_run a r b))
unfolding record_run
record_run_open id r b a found = ground arith

record_run-none :
    (id : String) (r : Run) (b : Bump) → open_repair b.attempts ≡ none → (record_run id r b).0 ≡ b
unfolding record_run
record_run-none id r b missing = ground arith

pub record_run-effect :
    (id : String) (r : Run) (b : Bump)
    → let b' = (record_run id r b).0 in
      (b' ≡ b)
      ⊎ ((a : RepairAttempt) × (open_repair b.attempts ≡ some a)
          × (a.run ≡ none)
          × (b' ≡ with_run a r b))
record_run-effect id r b = elim (Option-cases (open_repair b.attempts)) [
  | inl missing ↦ inl (record_run-none id r b missing)
  | inr (a, found) ↦ elim (record_run_open id r b a found) [
    | inl same ↦ inl same
    | inr (first, wrote) ↦ inr (a, found, first, wrote)
  ]
]

pub abandon-effect :
    (a : BumpAbandonment) (b : Bump)
    → let b' = (abandon a b).0 in
      (b' ≡ b)
      ⊎ ((is_closed b.state || is_abandoned b.state ≡ false)
          × (b'
              ≡ moved abandoned cause_checks_never_concluded a.abandoned_at
                  (abandoned_for abandon_checks_never_concluded a.detail a.abandoned_at b)))
unfolding abandon
abandon-effect a b = ground arith

retry_unjudged :
    (at : Time) (b : Bump)
    → current_verdict b ≡ none
    → let b' = (retry at b).0 in
      (b' ≡ b)
      ⊎ ((is_abandoned b.state || is_green b.state ≡ true)
          × (b' ≡ moved awaiting_checks cause_operator_retry at (without_abandonment b)))
unfolding retry
retry_unjudged at b unjudged = ground arith

retry_judged :
    (at : Time) (b : Bump) (v : CheckVerdict)
    → current_verdict b ≡ some v
    → let b' = (retry at b).0 in
      (b' ≡ b)
      ⊎ ((is_abandoned b.state || is_green b.state ≡ true)
          × (is is_success v.conclusion ≡ false)
          × (b' ≡ moved queued cause_operator_retry at (without_abandonment b)))
unfolding retry
retry_judged at b v judged = ground arith

pub retry-effect :
    (at : Time) (b : Bump)
    → let b' = (retry at b).0 in
      (b' ≡ b)
      ⊎ ((is_abandoned b.state || is_green b.state ≡ true)
          × (current_verdict b ≡ none)
          × (b' ≡ moved awaiting_checks cause_operator_retry at (without_abandonment b)))
      ⊎ ((is_abandoned b.state || is_green b.state ≡ true)
          × ((v : CheckVerdict) × (current_verdict b ≡ some v)
              × (is is_success v.conclusion ≡ false))
          × (b' ≡ moved queued cause_operator_retry at (without_abandonment b)))
retry-effect at b = elim (Option-cases (current_verdict b)) [
  | inl unjudged ↦ elim (retry_unjudged at b unjudged) [
    | inl same ↦ inl same
    | inr (state, wrote) ↦ inr (inl (state, unjudged, wrote))
  ]
  | inr (v, judged) ↦ elim (retry_judged at b v judged) [
    | inl same ↦ inl same
    | inr (state, failed, wrote) ↦ inr (inr (state, (v, judged, failed), wrote))
  ]
]

pub close-effect :
    (cl : BumpClosure) (b : Bump)
    → let b' = (close cl b).0 in
      (b' ≡ b)
      ⊎ ((terminal b.state ≡ false)
          × (b' ≡ moved closed cause_bump_closed cl.closed_at (with_closure cl b)))
unfolding close
close-effect cl b = ground arith

-- Where a round's end takes a repairing bump.
abbrev pub plan_of : RepairOutcomeKind → RepairAttempt → RepairOutcome → ℤ → Bump → Plan
plan_of kind a o n b =
    outcome_move kind o (restarted_before a.round b.attempts) (ltb_ℤ (pos (rounds b)) (cap_of b n))

-- What an outcome has to be, for a bump to take it: a pushed head is a sha and not the round's base,
-- an abort has a reason of the vocabulary, and a round ends because the pull request closed only once it is closed.
abbrev pub Admits : RepairOutcomeKind → RepairAttempt → RepairOutcome → Bump → Type 0
Admits kind a o b =
    (o.kind ≡ known kind)
    × (is_pushed kind && not (is_sha o.head_sha) ≡ false)
    × (is_pushed kind && str_eq o.head_sha a.base_sha ≡ false)
    × (is_aborted kind && is_other o.reason ≡ false)
    × (is_aborted kind && is is_closed_reason o.reason && not (is_closed b.state) ≡ false)

record_outcome-none :
    (id : String) (o : RepairOutcome) (n : ℤ) (b : Bump)
    → open_repair b.attempts ≡ none
    → (record_outcome id o n b).0 ≡ b
unfolding record_outcome
record_outcome-none id o n b missing = ground arith

record_outcome_other :
    (id : String) (o : RepairOutcome) (n : ℤ) (b : Bump) (v : String)
    → o.kind ≡ other v
    → (record_outcome id o n b).0 ≡ b
unfolding record_outcome
record_outcome_other id o n b v unknown = ground arith

record_outcome_found :
    (id : String) (o : RepairOutcome) (n : ℤ) (b : Bump) (a : RepairAttempt)
    (kind : RepairOutcomeKind)
    → open_repair b.attempts ≡ some a
    → o.kind ≡ known kind
    → let b' = (record_outcome id o n b).0 in
      let c = with_push kind o (with_outcome a o b) in
      let plan = plan_of kind a o n b in
      (b' ≡ b)
      ⊎ (Admits kind a o b × (is_repairing b.state ≡ false) × (b' ≡ c))
      ⊎ (Admits kind a o b
          × (b.state ≡ repairing)
          × (b'
              ≡ moved plan.to plan.cause o.ended_at
                  (abandoned_if plan.reason o.summary o.ended_at c)))
unfolding record_outcome
record_outcome_found id o n b a kind found is_kind = ground arith

-- The bump as it was; or the outcome written, and the head if it pushed; or these and the plan.
abbrev pub OutcomeEffect : RepairOutcome → ℤ → Bump → Bump → Type 0
OutcomeEffect o n b b' =
    (b' ≡ b)
    ⊎ ((a : RepairAttempt) × (kind : RepairOutcomeKind) × (open_repair b.attempts ≡ some a)
        × Admits kind a o b
        × (is_repairing b.state ≡ false)
        × (b' ≡ with_push kind o (with_outcome a o b)))
    ⊎ ((a : RepairAttempt) × (kind : RepairOutcomeKind) × (open_repair b.attempts ≡ some a)
        × Admits kind a o b
        × (b.state ≡ repairing)
        × (b'
            ≡ moved (plan_of kind a o n b).to (plan_of kind a o n b).cause o.ended_at (
                abandoned_if (plan_of kind a o n b).reason o.summary o.ended_at
                  (with_push kind o (with_outcome a o b)))))

pub record_outcome-effect :
    (id : String) (o : RepairOutcome) (n : ℤ) (b : Bump)
    → OutcomeEffect o n b (record_outcome id o n b).0
record_outcome-effect id o n b = elim (Option-cases (open_repair b.attempts)) [
  | inl missing ↦ inl (record_outcome-none id o n b missing)
  | inr (a, found) ↦ elim (Spelling-cases o.kind) [
    | inr (v, unknown) ↦ inl (record_outcome_other id o n b v unknown)
    | inl (kind, is_kind) ↦ elim (record_outcome_found id o n b a kind found is_kind) [
      | inl same ↦ inl same
      | inr (inl (admits, idle, wrote)) ↦ inr (inl (a, kind, found, admits, idle, wrote))
      | inr (inr (admits, busy, wrote)) ↦ inr (inr (a, kind, found, admits, busy, wrote))
    ]
  ]
]
