-- ===== src/Resolution/Case/Commands.antt =====
-- internal/resolution/case.go: the commands of a case, each with its guards in the order of the code.
use autophage.Base.{
  ℕ, ◌+◌, pos, String, Bool, true, false, ◌&&◌, ◌||◌, not, Option, none, some, List, [], ◌∷◌, ◌++◌,
  length, any_if, ltb, eqb_ℤ, Result, ok, err, invalid, refused, Method, ◌>>=◌, ◌>>◌, give, get,
  modify, reject_if, try, if◌then◌else◌, is_blank, str_eq, is_some, is_sha, Spelling, known, is,
  parse, check, put,
}
use autophage.Resolution.Enums.{
  CaseState, gated, queued, attempting, awaiting_approval, failed, done, closed, terminal, Size,
  small, large, AttemptKind, auto, approved, ApprovalSource, source_label, source_operator,
  OutcomeKind, pull_request_opened, budget_exhausted, failed_outcome, aborted, AbortReason,
  abort_operator_stop, abort_daemon_restart, TransitionCause, cause_triage_small,
  cause_triage_large, cause_approval, cause_attempt_started, cause_closed,
}
use autophage.Resolution.Budget.{Budget}
use autophage.Resolution.Facts.{
  Time, Triage, Approval, Closure, Transition, Run, Outcome, Attempt, is_open, outcome_cause,
}
use autophage.Resolution.Case.State.{Case, is_received, is_queued, is_closed}

-- The first attempt without an outcome; Go hands out a pointer to it, and `update_open` is a write
-- through that pointer.
unfoldable pub open_attempt : List Attempt → Option Attempt
open_attempt [] = none
open_attempt (a ∷ rest) = if is_open a then some a else open_attempt rest

unfoldable pub update_open : (Attempt → Attempt) → List Attempt → List Attempt
update_open f [] = []
update_open f (a ∷ rest) = if is_open a then f a ∷ rest else a ∷ update_open f rest

-- The last attempt's start, or `none` when there is no attempt.
unfoldable pub last_start : List Attempt → Option Time
last_start [] = none
last_start (a ∷ []) = some a.started_at
last_start (a ∷ b ∷ rest) = last_start (b ∷ rest)

-- NextAttemptKind: `approved` when an approval does not precede the latest attempt's start, or
-- when there is an approval and no attempt.
unfoldable pub next_attempt_kind : Case → AttemptKind
unfolding last_start
next_attempt_kind c = elim c.approvals [
  | [] ↦ auto
  | a ∷ rest ↦ elim (last_start c.attempts) [
    | none ↦ approved
    | some last ↦ if any_if (λ x. not (ltb x.approved_at last)) c.approvals then approved else auto
  ]
]

-- Every state change goes through here, and is recorded.
unfoldable pub move : CaseState → TransitionCause → Time → Method Case (Unit {0})
move to cause at = modify λ c.
    let tr : Transition = record { from = c.state; to = to; cause = cause; occurred_at = at } in
    record c {
      state = to;
      transitions = c.transitions ++ tr ∷ [];
      changes = record (c.changes) { transitions = c.changes.transitions ++ tr ∷ []; state = to };
    }

abbrev is_small : Size → Bool
is_small small = true
is_small large = false

-- RecordTriage sizes a received case: small queues it, large parks it.
unfoldable pub record_triage : Triage → Method Case (Unit {0})
unfolding move
record_triage t = do
  try (check t.size)
  reject_if (is_blank t.rationale || is_blank t.model) invalid
  c ← get
  reject_if (not (is_received c.state)) refused
  reject_if (is_some c.triage) refused
  modify (λ c. record c { triage = some t; changes = record (c.changes) { triage = some t } })
  if is is_small t.size
      then move queued cause_triage_small t.triaged_at
      else move awaiting_approval cause_triage_large t.triaged_at

abbrev is_label : ApprovalSource → Bool
is_label source_label = true
is_label source_operator = false

abbrev differ : Bool → Bool → Bool
differ true b = not b
differ false b = b

-- The states that an approval takes to `queued`.
abbrev pub awaits_approval : CaseState → Bool
awaits_approval gated = true
awaits_approval awaiting_approval = true
awaits_approval failed = true
awaits_approval _ = false

-- RecordApproval records the approval and queues the case where it was waiting for one.
unfoldable pub record_approval : Approval → Method Case (Unit {0})
unfolding move
record_approval a = do
  reject_if (is_blank a.approver.login) invalid
  try (check a.source)
  reject_if (differ (is is_label a.source) (not (is_blank a.delivery_id))) invalid
  c ← get
  reject_if (terminal c.state) refused
  modify (λ c. record c {
    approvals = c.approvals ++ a ∷ [];
    changes = record (c.changes) { approvals = c.changes.approvals ++ a ∷ [] };
  })
  if awaits_approval c.state then move queued cause_approval a.approved_at else give tt

-- The attempt that StartAttempt appends to `n` others.
abbrev pub fresh_attempt : ℕ → Spelling AttemptKind → Budget → String → Time → Attempt
fresh_attempt n kind budget brief at = record {
  id = "";
  ordinal = n + 1;
  kind = kind;
  budget = budget;
  brief = brief;
  started_at = at;
  run = none;
  outcome = none;
}

-- StartAttempt opens the next attempt on a queued case.
unfoldable pub start_attempt : Spelling AttemptKind → Budget → String → Time → Method Case Attempt
unfolding move open_attempt
start_attempt kind budget brief at = do
  try (check kind)
  reject_if (eqb_ℤ budget.max_turns (pos 0)) invalid
  reject_if (is_blank brief) invalid
  c ← get
  reject_if (not (is_queued c.state)) refused
  reject_if (is_some (open_attempt c.attempts)) refused
  let a = fresh_attempt (length c.attempts) kind budget brief at
  modify (λ c. record c {
    attempts = c.attempts ++ a ∷ [];
    changes = record (c.changes) { attempts = c.changes.attempts ++ a ∷ [] };
  })
  move attempting cause_attempt_started at
  give a

-- target is the open attempt, checked against `attempt_id` when both are known.
unfoldable pub target : String → Method Case Attempt
unfolding open_attempt
target attempt_id c = elim (open_attempt c.attempts) [
  | none ↦ (c, err refused)
  | some a ↦
      if not (is_blank attempt_id) && not (is_blank a.id) && not (str_eq a.id attempt_id)
      then (c, err refused)
      else (c, ok a)
]

-- RecordRun marks the open attempt as having reached the agent, once.
unfoldable pub record_run : String → Run → Method Case (Unit {0})
unfolding target update_open
record_run attempt_id r = do
  reject_if (is_blank r.run_id || is_blank r.model || not (is_sha r.base_sha)) invalid
  a ← target attempt_id
  reject_if (is_some a.run) refused
  modify (λ c. record c {
    attempts = update_open (λ x. record x { run = some r }) c.attempts;
    changes = record (c.changes) { runs = put a.ordinal r c.changes.runs };
  })

abbrev pub is_restart_reason : AbortReason → Bool
is_restart_reason abort_daemon_restart = true
is_restart_reason _ = false

abbrev pub is_aborted : OutcomeKind → Bool
is_aborted aborted = true
is_aborted _ = false

-- The attempt ended with a daemon-restart abort.
abbrev pub ended_by_restart : Option Outcome → Bool
ended_by_restart none = false
ended_by_restart (some o) = is is_aborted o.kind && is is_restart_reason o.reason

-- restartedBefore: did an attempt before `ordinal` end with a daemon-restart abort.
unfoldable pub restarted_before : ℕ → List Attempt → Bool
restarted_before ordinal = any_if (λ a. ltb a.ordinal ordinal && ended_by_restart a.outcome)

-- The switch on the abort reason: an operator stop parks the case, a daemon restart queues it
-- again the first time and fails it the second, and any other reason is refused.
abbrev abort_move : Spelling AbortReason → Bool → Outcome → Result (CaseState × TransitionCause)
abort_move (known abort_operator_stop) restarted o = ok (awaiting_approval, outcome_cause o false)
abort_move (known abort_daemon_restart) restarted o =
    if restarted then ok (failed, outcome_cause o false) else ok (queued, outcome_cause o true)
abort_move _ restarted o = err refused

-- Where an outcome takes a case that is not closed, and the cause that is logged.
abbrev pub outcome_move : OutcomeKind → Bool → Outcome → Result (CaseState × TransitionCause)
outcome_move pull_request_opened restarted o = ok (done, outcome_cause o false)
outcome_move budget_exhausted restarted o = ok (awaiting_approval, outcome_cause o false)
outcome_move failed_outcome restarted o = ok (failed, outcome_cause o false)
outcome_move aborted restarted o = abort_move o.reason restarted o

-- In `closed` an outcome moves nothing.
abbrev outcome_plan :
    CaseState → OutcomeKind → Bool → Outcome → Result (Option (CaseState × TransitionCause))
outcome_plan s kind restarted o =
    if is_closed s
    then ok none
    else elim (outcome_move kind restarted o) [ ok m ↦ ok (some m) | err e ↦ err e ]

abbrev carry_out : Option (CaseState × TransitionCause) → Time → Method Case (Unit {0})
carry_out none at = give tt
carry_out (some (to, cause)) at = move to cause at

-- RecordOutcome ends the open attempt and moves the case by the outcome's kind. The transition is
-- decided before anything is written.
unfoldable pub record_outcome : String → Outcome → Method Case (Unit {0})
unfolding move target update_open restarted_before outcome_cause
record_outcome attempt_id o = do
  kind ← try (parse o.kind)
  reject_if (is_blank o.summary) invalid
  a ← target attempt_id
  c ← get
  plan ← try (outcome_plan c.state kind (restarted_before a.ordinal c.attempts) o)
  modify (λ c. record c {
    attempts = update_open (λ x. record x { outcome = some o }) c.attempts;
    changes = record (c.changes) { outcomes = put a.ordinal o c.changes.outcomes };
  })
  carry_out plan o.ended_at

-- Close records the issue closing, from any state that is not terminal.
unfoldable pub close : Closure → Method Case (Unit {0})
unfolding move
close cl = do
  reject_if (is_blank cl.delivery_id) invalid
  c ← get
  reject_if (terminal c.state) refused
  modify (λ c. record c { closure = some cl; changes = record (c.changes) { closure = some cl } })
  move closed cause_closed cl.closed_at
