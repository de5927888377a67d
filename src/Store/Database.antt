-- ===== src/Store/Database.antt =====
-- internal/store/store.go: the database, as the rows that a reader would assemble, and transactions.
use autophage.Base.{
  ℕ, ◌+◌, ℤ, eqb_ℤ, String, Bool, ◌&&◌, Option, none, some, List, [], ◌∷◌, Error, if◌then◌else◌,
  str_eq,
}
use autophage.Resolution.Repository.{Repository}
use autophage.Resolution.Case.State.{Case}
use autophage.Upkeep.Bump.State.{Bump}

-- ErrNotFound, ErrConflict, any other failure of the database, and an error of the domain.
pub data Failure : Type 0 where
  not_found conflict outage : Failure
  domain : Error → Failure

pub data Reply (A : Type 0) : Type 0 where
  done : A → Reply A
  fails : Failure → Reply A

pub record CaseKey : Type 0 where
  pub repository : String
  pub number : ℤ

-- The committed rows, and the number of transactions so far.
pub record Database : Type 0 where
  pub cases : List Case
  pub bumps : List Bump
  pub repositories : List Repository
  pub tick : ℕ

-- What PostgreSQL does: does the n-th transaction fail, at whichever statement and for whichever
-- reason, a constraint of the schema included; the id of a case that the n-th transaction inserts;
-- the id of a case's attempt by its ordinal, and of
-- its approval by how many it had before.
pub record Server : Type 0 where
  pub down : ℕ → Bool
  pub case_id : ℕ → String
  pub attempt_id : String → ℕ → String
  pub approval_id : String → ℕ → String

-- A call of the store: the database that it leaves behind, and what it returns.
abbrev pub Access : Type 0 → Type 0
Access A = Database → Database × Reply A

abbrev pub ticked : Database → Database
ticked db = record db { tick = db.tick + 1 }

-- tx: the body's writes are kept if it returns no error, which is up to the body here.
abbrev pub tx : {A : Type 0} → Server → Access A → Access A
tx server body db = if server.down db.tick then (ticked db, fails outage) else body (ticked db)

abbrev pub key_of : Case → CaseKey
key_of c = record { repository = c.repository; number = c.number }

abbrev pub has_key : CaseKey → Case → Bool
has_key k c = str_eq c.repository k.repository && eqb_ℤ c.number k.number

-- `where repository = $1 and number = $2`.
unfoldable pub find_case : CaseKey → List Case → Option Case
find_case k [] = none
find_case k (c ∷ cs) = if has_key k c then some c else find_case k cs

-- The row of the key is replaced.
unfoldable pub put_case : CaseKey → Case → List Case → List Case
put_case k c [] = []
put_case k c (d ∷ cs) = if has_key k d then c ∷ cs else d ∷ put_case k c cs

unfoldable pub find_repository : String → List Repository → Option Repository
find_repository name [] = none
find_repository name (r ∷ rs) = if str_eq r.full_name name then some r else find_repository name rs
