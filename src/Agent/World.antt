-- ===== src/Agent/World.antt =====
-- internal/agent/runner.go: what the pipeline of an attempt meets and what it does: the answers of
-- the store, GitHub, the sandbox and the model, the calls with an effect outside of the process,
-- and the parts of `execute` as steps that go on or return.
use autophage.Base.{ℤ, String, Bool, Option, List, [], ◌∷◌, ◌++◌, Error, Spelling}
use autophage.Resolution.Enums.{AbortReason}
use autophage.Resolution.Budget.{Usage}
use autophage.Resolution.Repository.{Repository}
use autophage.Resolution.Facts.{Time, Outcome}
use autophage.Agent.Stop.{Stop}

-- A value, or the text of an error.
pub data Answer (A : Type 0) : Type 0 where
  got : A → Answer A
  lost : String → Answer A

-- The points at which the pipeline looks at its contexts and at the slot.
pub data Moment : Type 0 where
  at_repository at_mint at_prepare at_start at_tools at_model before_run after_run after_push
        at_abort :
      Moment

-- The attempt's context is done, the daemon's context is done, and the reason that Cancel recorded.
pub record Sight : Type 0 where
  pub done : Bool
  pub caller_done : Bool
  pub reason : Spelling AbortReason

pub record Report : Type 0 where
  pub stop : Stop
  pub summary : String
  pub usage : Usage

pub record Push : Type 0 where
  pub head : String
  pub pushed : Bool
  pub failure : Option String

pub record World : Type 0 where
  pub sees : Moment → Sight
  pub repository : Answer Repository
  pub token : Answer String
  pub default_branch : Answer String
  pub prepare : Answer String
  pub start : Answer (Unit {0})
  pub tools : Answer (Unit {0})
  pub model : Answer String
  pub report : Report
  pub fresh_token : Answer String
  pub push : Push
  pub markers : Answer Bool
  pub opening : Answer ℤ
  pub search : Answer (Option ℤ)
  pub attempt_id : String
  pub now : Time
  pub error_text : Error → String

-- The calls with an effect outside of the process, in their order. `pushes` is CommitAndPush, which
-- removes the container before it runs git.
pub data Call : Type 0 where
  enrolls : String → Call
  prepares : String → String → Call
  starts tears_down dials_tools closes_tools runs_agent : Call
  pushes : String → Call
  reads_markers : Call
  opens_pull_request : String → Bool → Call

-- An outcome, or the error `errShutdown`.
pub data End : Type 0 where
  ends : Outcome → Stop → End
  shuts_down : Stop → End

-- A part of the pipeline goes on with a value or returns from `execute`, after some calls.
pub data Step (A : Type 0) : Type 0 where
  goes_on : List Call → A → Step A
  returns : List Call → End → Step A

abbrev pub prepend : {A : Type 0} → List Call → Step A → Step A
prepend cs (goes_on ds a) = goes_on (cs ++ ds) a
prepend cs (returns ds e) = returns (cs ++ ds) e

infixl 5 ◌>>=◌ ◌>>◌
abbrev pub ◌>>=◌ : {A B : Type 0} → Step A → (A → Step B) → Step B
goes_on cs a >>= f = prepend cs (f a)
returns cs e >>= f = returns cs e

abbrev pub ◌>>◌ : {B : Type 0} → Step (Unit {0}) → Step B → Step B
m >> k = m >>= λ _. k

abbrev pub give : {A : Type 0} → A → Step A
give a = goes_on [] a

abbrev pub say : Call → Step (Unit {0})
say c = goes_on (c ∷ []) tt

-- `defer`: a call made after all others, whatever they return.
abbrev pub deferred : {A : Type 0} → Call → Step A → Step A
deferred c (goes_on ds a) = goes_on (ds ++ c ∷ []) a
deferred c (returns ds e) = returns (ds ++ c ∷ []) e
