-- ===== src/Resolution/Case/State.antt =====
-- internal/resolution/case.go: the state of a case, its constructors, and the store's two calls on
-- it. A method that changes a case is a `Method Case`: it returns the case that it leaves behind,
-- also where it returns an error.
use autophage.Base.{
  ℕ, ℤ, pos, ltb_ℤ, String, Bool, true, false, ◌&&◌, ◌||◌, not, Option, none, List, [], count_if,
  ltb, Result, ok, err, invalid, refused, Method, ◌>>=◌, ◌>>◌, get, modify, reject_if,
  if◌then◌else◌, is_blank,
}
use autophage.Resolution.Enums.{
  CaseState, received, gated, queued, closed, Trust, trusted, untrusted,
}
use autophage.Resolution.Requester.{Requester}
use autophage.Resolution.Facts.{
  Time, Triage, Approval, Closure, Transition, Run, Outcome, Attempt, is_open,
}

-- What happened to a Case since it was loaded. Runs and outcomes are keyed by attempt ordinal.
pub record Changes : Type 0 where
  pub triage : Option Triage
  pub approvals : List Approval
  pub attempts : List Attempt
  pub runs : List (ℕ × Run)
  pub outcomes : List (ℕ × Outcome)
  pub closure : Option Closure
  pub transitions : List Transition
  pub state : CaseState

pub record Case : Type 0 where
  pub id : String
  pub repository : String
  pub number : ℤ
  pub requester : Requester
  pub state : CaseState
  pub received_at : Time
  pub triage : Option Triage
  pub approvals : List Approval
  pub attempts : List Attempt
  pub transitions : List Transition
  pub closure : Option Closure
  pub changes : Changes

-- The store's view of a persisted case, for `load_case`.
pub record Snapshot : Type 0 where
  pub id : String
  pub repository : String
  pub number : ℤ
  pub requester : Requester
  pub state : CaseState
  pub received_at : Time
  pub triage : Option Triage
  pub approvals : List Approval
  pub attempts : List Attempt
  pub transitions : List Transition
  pub closure : Option Closure

-- `Changes{State: s}`.
abbrev pub no_changes : CaseState → Changes
no_changes s = record {
  triage = none;
  approvals = [];
  attempts = [];
  runs = [];
  outcomes = [];
  closure = none;
  transitions = [];
  state = s;
}

abbrev pub is_trusted : Trust → Bool
is_trusted trusted = true
is_trusted untrusted = false

abbrev pub is_received : CaseState → Bool
is_received received = true
is_received _ = false

abbrev pub is_gated : CaseState → Bool
is_gated gated = true
is_gated _ = false

abbrev pub is_queued : CaseState → Bool
is_queued queued = true
is_queued _ = false

abbrev pub is_closed : CaseState → Bool
is_closed closed = true
is_closed _ = false

-- NewCase receives an issue: a trusted requester starts in `received`, an untrusted one in `gated`.
unfoldable pub new_case : String → ℤ → Requester → Time → Result Case
new_case repository number requester received_at =
    if is_blank repository
    then err invalid
    else if ltb_ℤ number (pos 1)
    then err invalid
    else if is_blank requester.login
    then err invalid
    else let state = if is_trusted requester.trust then received else gated in
      ok (record {
        id = "";
        repository = repository;
        number = number;
        requester = requester;
        state = state;
        received_at = received_at;
        triage = none;
        approvals = [];
        attempts = [];
        transitions = [];
        closure = none;
        changes = no_changes state;
      })

-- LoadCase rebuilds a case and checks again what a row could have lost.
unfoldable pub load_case : Snapshot → Result Case
load_case s =
    if is_blank s.repository || ltb_ℤ s.number (pos 1) || is_blank s.requester.login
    then err invalid
    else if is_gated s.state && is_trusted s.requester.trust
        || is_received s.state && not (is_trusted s.requester.trust)
    then err invalid
    else if ltb 1 (count_if is_open s.attempts)
    then err invalid
    else ok (record {
      id = s.id;
      repository = s.repository;
      number = s.number;
      requester = s.requester;
      state = s.state;
      received_at = s.received_at;
      triage = s.triage;
      approvals = s.approvals;
      attempts = s.attempts;
      transitions = s.transitions;
      closure = s.closure;
      changes = no_changes s.state;
    })

-- AssignID sets the store's id once.
unfoldable pub assign_id : String → Method Case (Unit {0})
assign_id id = do
  reject_if (is_blank id) invalid
  c ← get
  reject_if (not (is_blank c.id)) refused
  modify (λ c. record c { id = id })

-- ClearChanges resets the record of changes, after they were persisted.
unfoldable pub clear_changes : Method Case (Unit {0})
clear_changes = modify (λ c. record c { changes = no_changes c.state })
