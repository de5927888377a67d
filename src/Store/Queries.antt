-- ===== src/Store/Queries.antt =====
-- internal/store/queries.go and bumps.go: what the daemon asks of the store between transactions.
pub mod Counts
use autophage.Base.{
  ℕ, ◌+◌, ℤ, String, Bool, true, false, ◌&&◌, not, Option, none, some, List, [], ◌∷◌, ◌++◌, map,
  if◌then◌else◌, ltb, is_none, is_some, str_eq,
}
use autophage.Resolution.Enums.{CaseState, queued}
use autophage.Resolution.Facts.{Time, Attempt, Transition, is_open}
use autophage.Resolution.Repository.{Repository}
use autophage.Resolution.Case.State.{Case, is_queued}
use autophage.Upkeep.Facts.{RepairAttempt, is_open as is_open_round}
use autophage.Upkeep.Bump.State.{Bump}
use autophage.Store.Database.{
  Failure, not_found, outage, Reply, done, fails, CaseKey, key_of, Database, Server, Access, ticked,
  find_repository,
}

-- A query fails, or reads the committed rows.
abbrev pub query : {A : Type 0} → Server → (Database → A) → Access A
query server read db = (ticked db, if server.down db.tick then fails outage else done (read db))

-- `order by`: a stable order by a time, rows of one time as they stand.
unfoldable pub insert_by : {A : Type 0} → (A → Time) → A → List A → List A
insert_by at x [] = x ∷ []
insert_by at x (y ∷ ys) = if ltb (at y) (at x) then y ∷ insert_by at x ys else x ∷ y ∷ ys

unfoldable pub order_by : {A : Type 0} → (A → Time) → List A → List A
unfolding insert_by
order_by at [] = []
order_by at (x ∷ xs) = insert_by at x (order_by at xs)

pub record OpenAttempt : Type 0 where
  pub attempt_id : String
  pub key : CaseKey
  pub ordinal : ℕ
  pub started_at : Time

abbrev pub entry_of : Case → Attempt → OpenAttempt
entry_of c a = record {
  attempt_id = a.id;
  key = key_of c;
  ordinal = a.ordinal;
  started_at = a.started_at;
}

-- The attempts without an outcome, joined with their case.
unfoldable pub open_entries : Case → List Attempt → List OpenAttempt
open_entries c [] = []
open_entries c (a ∷ rest) =
    if is_open a then entry_of c a ∷ open_entries c rest else open_entries c rest

unfoldable pub all_open : List Case → List OpenAttempt
unfolding open_entries
all_open [] = []
all_open (c ∷ cs) = open_entries c c.attempts ++ all_open cs

-- OpenAttempts.
unfoldable pub open_attempts : Server → Access (List OpenAttempt)
unfolding all_open order_by
open_attempts server = query server (λ db. order_by (λ a. a.started_at) (all_open db.cases))

pub record OpenRepair : Type 0 where
  pub id : String
  pub repository : String
  pub number : ℤ
  pub round : ℕ
  pub started_at : Time

unfoldable pub open_rounds_of : Bump → List RepairAttempt → List OpenRepair
open_rounds_of b [] = []
open_rounds_of b (a ∷ rest) =
    let others = open_rounds_of b rest in
    if is_open_round a
    then record {
      id = a.id;
      repository = b.repository;
      number = b.number;
      round = a.round;
      started_at = a.started_at;
    }
      ∷ others
    else others

unfoldable pub all_open_rounds : List Bump → List OpenRepair
unfolding open_rounds_of
all_open_rounds [] = []
all_open_rounds (b ∷ bs) = open_rounds_of b b.attempts ++ all_open_rounds bs

-- OpenRepairs.
unfoldable pub open_repairs : Server → Access (List OpenRepair)
unfolding all_open_rounds order_by
open_repairs server = query server (λ db. order_by (λ r. r.started_at) (all_open_rounds db.bumps))

-- When the case was last queued.
unfoldable pub queued_at : List Transition → Option Time
queued_at [] = none
queued_at (t ∷ rest) = elim (queued_at rest) [
  | some at ↦ some at
  | none ↦ if is_queued t.to then some t.occurred_at else none
]

abbrev is_removed : List Repository → String → Bool
is_removed rs name = elim (find_repository name rs) [ some r ↦ is_some r.removed | none ↦ false ]

pub record Waiting : Type 0 where
  pub key : CaseKey
  pub since : Time

abbrev waits : Case → Option Time → List Waiting
waits c none = []
waits c (some at) = record { key = key_of c; since = at } ∷ []

unfoldable pub all_queued : List Repository → List Case → List Waiting
unfolding queued_at find_repository
all_queued rs [] = []
all_queued rs (c ∷ cs) =
    let others = all_queued rs cs in
    if is_queued c.state && not (is_removed rs c.repository)
    then waits c (queued_at c.transitions) ++ others
    else others

-- QueuedCases: oldest queueing first.
unfoldable pub queued_cases : Server → Access (List CaseKey)
unfolding all_queued order_by
queued_cases server = query server (λ db.
    map (λ (w : Waiting). w.key) (order_by (λ w. w.since) (all_queued db.repositories db.cases)))

abbrev row_or_missing : Option Repository → Reply Repository
row_or_missing (some r) = done r
row_or_missing none = fails not_found

-- GetRepository.
unfoldable pub get_repository : Server → String → Access Repository
unfolding find_repository
get_repository server name db = (
  ticked db,
  if server.down db.tick
      then fails outage
      else row_or_missing (find_repository name db.repositories),
)
