-- ===== src/Github/Events.antt =====
-- internal/github/translate.go: the translator's configuration, what it reads of a delivery, and what
-- a handler answers. go-github's parser is a parameter, so that a delivery carries the event that it
-- parses to.
use autophage.Base.{ℕ, ℤ, String, List}
use autophage.Resolution.Facts.{Time}
use autophage.Store.Database.{Failure, Reply, done, fails, Database, Server}

-- What is read of a payload of an issue.
pub record IssuesEvent : Type 0 where
  pub action : String
  pub repository : String
  pub number : ℤ
  pub author_login : String
  pub author_association : String
  pub label : String
  pub sender_login : String

pub record RepositoryEntry : Type 0 where
  pub full_name : String
  pub default_branch : String

pub data Event : Type 0 where
  issues : IssuesEvent → Event
  installation : String → ℤ → List RepositoryEntry → Event
  installation_repositories : ℤ → List RepositoryEntry → List RepositoryEntry → Event
  upkeep_event unsubscribed unparseable : Event

pub record Delivery : Type 0 where
  pub id : String
  pub sender_login : String
  pub event : Event

pub record Translator : Type 0 where
  pub server : Server
  pub now : ℕ → Time
  pub approved_label : String
  pub bot_login : String
  pub lower : String → String

-- errUnsubscribed, or an error of the store or the domain.
pub data Trouble : Type 0 where
  not_subscribed : Trouble
  failure : Failure → Trouble

pub data Answer : Type 0 where
  translates : Answer
  troubles : Trouble → Answer

-- A handler: the database that it leaves behind, and its error, if any.
abbrev pub Handler : Type 0
Handler = Database → Database × Answer

abbrev pub answered : {A : Type 0} → Database × Reply A → Database × Answer
answered (db, done a) = (db, translates)
answered (db, fails e) = (db, troubles (failure e))
