-- ===== src/Upkeep/Bump/State.antt =====
-- internal/upkeep/bump.go: the state of a bump, its constructors, and what is read off its facts.
use autophage.Base.{
  ℕ, ℤ, pos, add_ℕ, ltb_ℤ, ltb, String, Bool, true, false, ◌&&◌, ◌||◌, not, Option, none, some,
  List, [], ◌∷◌, length, count_if, any_if, Result, ok, err, invalid, refused, Method, ◌>>=◌, ◌>>◌,
  get, modify, reject_if, if◌then◌else◌, is_blank, str_eq, is_none, is_sha, Spelling, parse,
}
use autophage.Resolution.Facts.{Time, Run}
use autophage.Upkeep.Enums.{
  BumpState, awaiting_checks, queued, repairing, green, abandoned, closed, BumpTransitionCause,
  cause_operator_retry,
}
use autophage.Upkeep.Facts.{
  CheckVerdict, RepairAttempt, RepairOutcome, BumpAbandonment, BumpClosure, BumpTransition, is_open,
}

-- What happened to a Bump since it was loaded. Runs and outcomes are keyed by round.
pub record Changes : Type 0 where
  pub verdicts : List CheckVerdict
  pub attempts : List RepairAttempt
  pub runs : List (ℕ × Run)
  pub outcomes : List (ℕ × RepairOutcome)
  pub abandonment : Option BumpAbandonment
  pub drop_abandon : Bool
  pub closure : Option BumpClosure
  pub transitions : List BumpTransition
  pub head_sha : String
  pub state : BumpState

pub record Bump : Type 0 where
  pub id : String
  pub repository : String
  pub number : ℤ
  pub branch : String
  pub base_branch : String
  pub head_sha : String
  pub state : BumpState
  pub opened_at : Time
  pub verdicts : List CheckVerdict
  pub attempts : List RepairAttempt
  pub transitions : List BumpTransition
  pub abandonment : Option BumpAbandonment
  pub closure : Option BumpClosure
  pub changes : Changes

-- The store's view of a persisted bump, for `load_bump`. Its state is a text until it is parsed.
pub record Snapshot : Type 0 where
  pub id : String
  pub repository : String
  pub number : ℤ
  pub branch : String
  pub base_branch : String
  pub head_sha : String
  pub state : Spelling BumpState
  pub opened_at : Time
  pub verdicts : List CheckVerdict
  pub attempts : List RepairAttempt
  pub transitions : List BumpTransition
  pub abandonment : Option BumpAbandonment
  pub closure : Option BumpClosure

-- `Changes{State: s, HeadSha: head}`.
abbrev pub no_changes : BumpState → String → Changes
no_changes s head = record {
  verdicts = [];
  attempts = [];
  runs = [];
  outcomes = [];
  abandonment = none;
  drop_abandon = false;
  closure = none;
  transitions = [];
  head_sha = head;
  state = s;
}

abbrev pub is_awaiting : BumpState → Bool
is_awaiting awaiting_checks = true
is_awaiting _ = false

abbrev pub is_queued : BumpState → Bool
is_queued queued = true
is_queued _ = false

abbrev pub is_repairing : BumpState → Bool
is_repairing repairing = true
is_repairing _ = false

abbrev pub is_green : BumpState → Bool
is_green green = true
is_green _ = false

abbrev pub is_abandoned : BumpState → Bool
is_abandoned abandoned = true
is_abandoned _ = false

abbrev pub is_closed : BumpState → Bool
is_closed closed = true
is_closed _ = false

-- NewBump receives a dependabot pull request.
unfoldable pub new_bump : String → ℤ → String → String → String → Time → Result Bump
new_bump repository number branch base_branch head_sha opened_at =
    if is_blank repository
    then err invalid
    else if ltb_ℤ number (pos 1)
    then err invalid
    else if is_blank branch
    then err invalid
    else if is_blank base_branch
    then err invalid
    else if not (is_sha head_sha)
    then err invalid
    else ok (record {
      id = "";
      repository = repository;
      number = number;
      branch = branch;
      base_branch = base_branch;
      head_sha = head_sha;
      state = awaiting_checks;
      opened_at = opened_at;
      verdicts = [];
      attempts = [];
      transitions = [];
      abandonment = none;
      closure = none;
      changes = no_changes awaiting_checks head_sha;
    })

-- AssignID sets the store's id once.
unfoldable pub assign_id : String → Method Bump (Unit {0})
assign_id id = do
  reject_if (is_blank id) invalid
  b ← get
  reject_if (not (is_blank b.id)) refused
  modify (λ b. record b { id = id })

-- ClearChanges resets the record of changes, after they were persisted.
unfoldable pub clear_changes : Method Bump (Unit {0})
clear_changes = modify (λ b. record b { changes = no_changes b.state b.head_sha })

-- How many repair rounds the bump has spent.
abbrev pub rounds : Bump → ℕ
rounds b = length b.attempts

abbrev pub is_retry : BumpTransitionCause → Bool
is_retry cause_operator_retry = true
is_retry _ = false

-- How many further rounds operators have granted: the log's entries with that cause.
abbrev pub retry_grants : Bump → ℕ
retry_grants b = count_if (λ (tr : BumpTransition). is_retry tr.cause) b.transitions

-- How many rounds the bump may spend.
abbrev pub cap_of : Bump → ℤ → ℤ
cap_of b max_rounds = add_ℕ max_rounds (retry_grants b)

-- The verdict on a head: the first one recorded for it.
unfoldable pub verdict_on : String → List CheckVerdict → Option CheckVerdict
verdict_on head [] = none
verdict_on head (v ∷ rest) = if str_eq v.head_sha head then some v else verdict_on head rest

-- CurrentVerdict is the verdict on the head that the bump is on now.
abbrev pub current_verdict : Bump → Option CheckVerdict
current_verdict b = verdict_on b.head_sha b.verdicts

-- The loop of LoadBump over the verdicts, with the heads that it has seen.
unfoldable pub repeats_head : List String → List CheckVerdict → Bool
repeats_head seen [] = false
repeats_head seen (v ∷ rest) =
    any_if (λ s. str_eq s v.head_sha) seen || repeats_head (v.head_sha ∷ seen) rest

-- LoadBump rebuilds a bump and checks again what a row could have lost.
unfoldable pub load_bump : Snapshot → Result Bump
unfolding clear_changes
load_bump s =
    if is_blank s.repository
      || ltb_ℤ s.number (pos 1)
      || is_blank s.branch
      || is_blank s.base_branch
    then err invalid
    else if not (is_sha s.head_sha)
    then err invalid
    else elim (parse s.state) [
      | err e ↦ err e
      | ok state ↦
          if ltb 1 (count_if is_open s.attempts)
          then err invalid
          else if repeats_head [] s.verdicts
          then err invalid
          else if is_abandoned state && is_none s.abandonment
          then err invalid
          else if is_closed state && is_none s.closure
          then err invalid
          else ok
              (clear_changes (record {
                id = s.id;
                repository = s.repository;
                number = s.number;
                branch = s.branch;
                base_branch = s.base_branch;
                head_sha = s.head_sha;
                state = state;
                opened_at = s.opened_at;
                verdicts = s.verdicts;
                attempts = s.attempts;
                transitions = s.transitions;
                abandonment = s.abandonment;
                closure = s.closure;
                changes = no_changes state s.head_sha;
              })).0
    ]
