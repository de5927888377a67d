-- ===== src/App/Scheduler.antt =====
-- internal/app/scheduler.go: the attempts that are started for the queued cases. The runner of a
-- started attempt runs beside this loop and is not part of it.
pub mod Starts
pub mod Bound
pub mod Ready
use autophage.Base.{
  ℕ, zero, suc, ◌+◌, ◌-◌, String, Bool, true, false, not, Option, none, some, List, [], ◌∷◌, length,
  Result, ok, err, Method, if◌then◌else◌, leb, Spelling, known, discard, ◌==◌,
}
use autophage.Resolution.Enums.{AttemptKind, auto, approved}
use autophage.Resolution.Budget.{Budget}
use autophage.Resolution.Facts.{Time, Outcome, Attempt}
use autophage.Resolution.Repository.{Repository}
use autophage.Resolution.Case.State.{Case}
use autophage.Resolution.Case.Commands.{next_attempt_kind, start_attempt}
use autophage.Store.Database.{
  Failure, Reply, done, fails, outage, CaseKey, Database, Server, Access,
}
use autophage.Store.Cases.{update_case}
use autophage.Store.Queries.{open_attempts, open_repairs, queued_cases, get_repository}
use autophage.App.Calls.{◌>>=◌, give, fail}

pub record BudgetPolicy : Type 0 where
  pub auto : Budget
  pub approved : Budget
  pub repair : Budget

-- For.
abbrev pub budget_for : BudgetPolicy → AttemptKind → Budget
budget_for p approved = p.approved
budget_for p auto = p.auto

pub record IssueDetail : Type 0 where
  pub title : String
  pub body : String
  pub is_open : Bool

-- What the brief of an attempt is built from.
pub record BriefInput : Type 0 where
  pub repository : Repository
  pub subject : Case
  pub kind : AttemptKind
  pub budget : Budget
  pub issue_title : String
  pub issue_body : String
  pub prior : Option Outcome

-- The scheduler's configuration, and what GitHub, the clock and the text of the brief are to it at
-- each count of transactions.
pub record Daemon : Type 0 where
  pub server : Server
  pub concurrency : ℕ
  pub budgets : BudgetPolicy
  pub issue : ℕ → CaseKey → Option IssueDetail
  pub now : ℕ → Time
  pub build_brief : BriefInput → Result String

-- The outcome of the last attempt.
abbrev pub prior_outcome : List Attempt → Option Outcome
prior_outcome [] = none
prior_outcome (a ∷ []) = a.outcome
prior_outcome (a ∷ b ∷ rest) = prior_outcome (b ∷ rest)

abbrev pub brief_input : Daemon → Repository → IssueDetail → Case → BriefInput
brief_input d repo detail c =
    let kind = next_attempt_kind c in
    record {
      repository = repo;
      subject = c;
      kind = kind;
      budget = budget_for d.budgets kind;
      issue_title = detail.title;
      issue_body = detail.body;
      prior = prior_outcome c.attempts;
    }

abbrev pub start_briefed : AttemptKind → Budget → Time → Result String → Method Case (Unit {0})
start_briefed kind budget at (err e) c = (c, err e)
start_briefed kind budget at (ok brief) c = discard (start_attempt (known kind) budget brief at) c

-- The method that UpdateCase calls.
unfoldable pub start_next : Daemon → Repository → IssueDetail → Time → Method Case (Unit {0})
unfolding start_attempt next_attempt_kind
start_next d repo detail at c =
    let kind = next_attempt_kind c in
    start_briefed kind (budget_for d.budgets kind) at (d.build_brief (brief_input d repo detail c))
      c

-- `if !detail.Open { return false, nil }`, and the transaction after it.
abbrev pub start_open : Daemon → CaseKey → Repository → Option IssueDetail → Access Bool
start_open d k repo none db = (db, fails outage)
start_open d k repo (some detail) db =
    if detail.is_open
    then (update_case d.server k (start_next d repo detail (d.now db.tick)) >>= λ c. give true) db
    else (db, done false)

-- start: the repository, the issue on GitHub, and the attempt.
unfoldable pub start : Daemon → CaseKey → Access Bool
unfolding update_case get_repository start_next
start d k =
    get_repository d.server k.repository >>= λ repo db. start_open d k repo (d.issue db.tick k) db

-- What is left of n + 1 slots after a start: an error takes none.
abbrev pub slots_after : ℕ → Reply Bool → ℕ
slots_after n (done true) = n
slots_after n _ = suc n

-- The loop over the queued cases.
unfoldable pub start_all : Daemon → ℕ → List CaseKey → Database → Database
unfolding start
start_all d slots [] db = db
start_all d zero (k ∷ ks) db = db
start_all d (suc n) (k ∷ ks) db = let r = start d k db in start_all d (slots_after n r.1) ks r.0

-- freeSlots. Below 0 there are none, as there are at 0.
unfoldable pub free_slots : Daemon → Access ℕ
unfolding open_attempts open_repairs
free_slots d = open_attempts d.server >>= λ attempts.
    open_repairs d.server >>= λ rounds. give (d.concurrency - (length attempts + length rounds))

abbrev pub start_queued : Daemon → ℕ → Reply (List CaseKey) → Access (Unit {0})
start_queued d slots (fails e) db = (db, fails e)
start_queued d slots (done queued) db = (start_all d slots queued db, done tt)

abbrev pub run_with : Daemon → ℕ → Access (Unit {0})
run_with d slots db =
    if slots == 0
    then (db, done tt)
    else let r = queued_cases d.server db in start_queued d slots r.1 r.0

-- Run.
unfoldable pub run : Daemon → Access (Unit {0})
unfolding free_slots queued_cases start_all
run d = free_slots d >>= run_with d
