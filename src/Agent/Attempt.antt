-- ===== src/Agent/Attempt.antt =====
-- internal/agent/runner.go: `execute`, the pipeline from a started attempt to its outcome. What the
-- store, GitHub, the sandbox and the model answer is a parameter, and so is what the two contexts
-- and the slot of the attempt show at each moment at which the code looks.
pub mod Settled
pub mod Calls
pub mod Requests
pub mod Cleanup
use autophage.Base.{
  ℤ, pos, eqb_ℤ, String, ◌<>◌, Bool, true, false, ◌||◌, ◌&&◌, not, Option, none, some, List, [],
  ◌∷◌, ◌++◌, Error, Result, ok, err, if◌then◌else◌, is_blank, str_eq, is_none, is_some, Spelling,
  known, other, blank,
}
use autophage.Resolution.Enums.{
  FailureClass, failure_infra, failure_model, failure_agent, AbortReason, abort_operator_stop,
  Limit, limit_turns, limit_wall_clock, limit_diff_lines,
}
use autophage.Resolution.Budget.{Usage}
use autophage.Resolution.Repository.{Repository, is_enrolled}
use autophage.Resolution.Facts.{
  Time, Outcome, outcome_pull_request, outcome_exhausted, outcome_exhausted_with_pull_request,
  outcome_failed, outcome_aborted,
}
use autophage.Agent.World.{
  Answer, got, lost, Moment, at_repository, at_mint, at_prepare, at_start, at_tools, at_model,
  before_run, after_run, after_push, at_abort, Sight, Report, Push, World, Call, enrolls, prepares,
  starts, tears_down, dials_tools, closes_tools, runs_agent, pushes, reads_markers,
  opens_pull_request, End, ends, shuts_down, Step, goes_on, returns, prepend, ◌>>=◌, ◌>>◌, give,
  say, deferred,
}
use autophage.Agent.Stop.{
  Stop, no_stop, turns, wall_clock, diff_lines, cancelled, model_error, is_cancelled,
}

-- `slot.reason == ""`.
abbrev pub is_unset : Spelling AbortReason → Bool
is_unset (known r) = false
is_unset (other v) = is_blank v

-- `r.reason(slot, fallback)`.
abbrev pub reason_or : Spelling AbortReason → Spelling AbortReason → Spelling AbortReason
reason_or recorded fallback = if is_unset recorded then fallback else recorded

-- `Outcome{}`.
abbrev pub zero_outcome : Usage → Outcome
zero_outcome u = record {
  kind = blank;
  ended_at = 0;
  usage = u;
  summary = "";
  pr_number = pos 0;
  head_sha = "";
  limit = blank;
  class = blank;
  message = "";
  reason = blank;
}

-- The zero value of Usage.
abbrev pub no_usage : Usage
no_usage = record {
  turns = pos 0;
  input_tokens = pos 0;
  output_tokens = pos 0;
  wall_clock = pos 0;
  diff_lines = pos 0;
}

abbrev or_zero : Result Outcome → Outcome
or_zero (ok o) = o
or_zero (err e) = zero_outcome no_usage

-- settled: the outcome, or a failure that says why the domain refused it.
abbrev pub settled : World → Result Outcome → Usage → Outcome
settled w (ok o) u = o
settled w (err e) u =
    or_zero (outcome_failed (known failure_infra) ("outcome refused: " <> w.error_text e) u w.now)

abbrev pub failed : World → FailureClass → String → Usage → Outcome
failed w class message u = settled w (outcome_failed (known class) message u w.now) u

abbrev detailed : String → String
detailed detail = if is_blank detail then "" else "\n\n" <> detail

-- infra: what is said of an infrastructure failure.
abbrev pub infra : World → String → String → Usage → Outcome
infra w step detail u =
    failed w failure_infra
      ("infrastructure failure at "
        <> step
        <> "; see `autophage why "
        <> w.attempt_id
        <> "` on the daemon host"
        <> detailed detail)
      u

abbrev stopped_early : World → Spelling AbortReason → String → String → Outcome
stopped_early w reason step text =
    settled w
      (outcome_aborted reason
        ("The attempt was stopped during " <> step <> ", before the agent ran: " <> text) no_usage
        w.now)
      no_usage

-- setup: how a failure before the agent ran ends the attempt.
abbrev pub setup : World → Moment → String → String → End
setup w m step text =
    let s = w.sees m in
    if s.done && not (is_unset s.reason)
    then ends (stopped_early w s.reason step text) no_stop
    else if s.done && s.caller_done
    then shuts_down no_stop
    else ends (infra w step "" no_usage) no_stop

-- `if err != nil { return setup(step, err) }`.
abbrev pub attempt : {A : Type 0} → World → Moment → String → Answer A → Step A
attempt w m step (got a) = give a
attempt w m step (lost text) = returns [] (setup w m step text)

-- refreshDefaultBranch, whose errors are logged only.
abbrev pub refreshed : Repository → String → Step Repository
refreshed repo branch =
    if is_blank branch || str_eq branch repo.default_branch
    then give repo
    else (let repo' = record repo { default_branch = branch } in
        if is_enrolled repo' then goes_on (enrolls branch ∷ []) repo' else give repo')

abbrev pub refreshed_by : Repository → Answer String → Step Repository
refreshed_by repo (lost text) = give repo
refreshed_by repo (got branch) = refreshed repo branch

unfoldable pub refresh_default_branch : World → Repository → Step Repository
refresh_default_branch w repo = refreshed_by repo w.default_branch

-- openPullRequest: where opening fails, a pull request of the branch that is open already is taken.
abbrev pub open_pull_request : World → Answer ℤ
open_pull_request w = elim w.opening [
  | got n ↦ got n
  | lost text ↦ elim w.search [ got (some n) ↦ got n | _ ↦ lost text ]
]

-- `resolution.Limit(report.Stop)`: the two vocabularies share three words.
abbrev pub limit_of : Stop → Spelling Limit
limit_of turns = known limit_turns
limit_of wall_clock = known limit_wall_clock
limit_of diff_lines = known limit_diff_lines
limit_of no_stop = blank
limit_of cancelled = other "cancelled"
limit_of model_error = other "model_error"

abbrev number_or_zero : Answer ℤ → ℤ
number_or_zero (got n) = n
number_or_zero (lost text) = pos 0

-- What is read of the markers decides on the partial pull request.
abbrev pub partial_after : World → Answer Bool → Step ℤ
partial_after w (got false) =
    goes_on (reads_markers ∷ opens_pull_request w.push.head true ∷ [])
      (number_or_zero (open_pull_request w))
partial_after w _ = goes_on (reads_markers ∷ []) (pos 0)

-- The number of the partial pull request, or 0.
unfoldable pub partial_pull_request : World → String → Step ℤ
partial_pull_request w base =
    if str_eq w.push.head base then give (pos 0) else partial_after w w.markers

-- The case of StopTurns, StopWallClock and StopDiffLines.
abbrev pub exhausted_by : World → String → ℤ → Step End
exhausted_by w summary pr =
    let limit = limit_of w.report.stop in
    let u = w.report.usage in
    give (
      ends
        (settled w
          (if not (eqb_ℤ pr (pos 0))
            then outcome_exhausted_with_pull_request limit pr w.push.head summary u w.now
            else outcome_exhausted limit summary u w.now)
          u)
        w.report.stop)

abbrev pub exhausted : World → String → String → Step End
exhausted w base summary = partial_pull_request w base >>= exhausted_by w summary

abbrev pub opened_outcome : World → String → Answer ℤ → Outcome
opened_outcome w summary (got n) =
    settled w (outcome_pull_request n w.push.head summary w.report.usage w.now) w.report.usage
opened_outcome w summary (lost text) = infra w "open pull request" summary w.report.usage

-- What is read of the markers decides on the pull request.
abbrev pub after_markers : World → String → Answer Bool → Step End
after_markers w summary (lost text) =
    goes_on (reads_markers ∷ [])
      (ends (infra w "conflict check" summary w.report.usage) w.report.stop)
after_markers w summary (got true) = goes_on (reads_markers ∷ []) (
    ends
      (failed w failure_agent ("left unresolved conflict markers on the branch\n\n" <> summary)
        w.report.usage)
      w.report.stop)
after_markers w summary (got false) =
    goes_on (reads_markers ∷ opens_pull_request w.push.head false ∷ [])
      (ends (opened_outcome w summary (open_pull_request w)) w.report.stop)

-- What follows the switch, for a run that ended on its own.
unfoldable pub finished : World → String → String → Step End
finished w base summary =
    if str_eq w.push.head base
    then give (ends (failed w failure_agent summary w.report.usage) w.report.stop)
    else after_markers w summary w.markers

-- The switch on the reason that the run stopped for.
unfoldable pub by_stop : World → String → String → Stop → Step End
unfolding partial_pull_request finished
by_stop w base summary model_error = give (
    ends
      (failed w failure_model
        ("model failure; see `autophage why "
          <> w.attempt_id
          <> "` on the daemon host"
          <> detailed summary)
        w.report.usage)
      w.report.stop)
by_stop w base summary cancelled =
    let reason = reason_or (w.sees at_abort).reason (known abort_operator_stop) in
    let u = w.report.usage in
    give (ends (settled w (outcome_aborted reason summary u w.now) u) w.report.stop)
by_stop w base summary no_stop = finished w base summary
by_stop w base summary _ = exhausted w base summary

-- The agent's summary, with the words that stand for a missing one.
abbrev pub summary_of : Report → String
summary_of r = if is_blank r.summary then "The agent produced no summary." else r.summary

-- The daemon was going down before the run, or, if the run was cancelled, when it returned.
abbrev pub callers_end : World → Bool
callers_end w =
    (w.sees before_run).caller_done || is_cancelled w.report.stop && (w.sees after_run).caller_done

-- shuttingDown.
abbrev pub shutting_down : World → Bool
shutting_down w = callers_end w && is_unset (w.sees after_push).reason

abbrev pub push_token : Answer String → String → String
push_token (got fresh) token = fresh
push_token (lost text) token = token

-- The branch reached the remote.
abbrev pub reached : Push → Bool
reached p = is_none p.failure && p.pushed

-- From the model to the outcome.
unfoldable pub in_container : World → String → String → Step End
unfolding by_stop
in_container w base token = do
  model ← attempt w at_model "model" w.model
  let summary = summary_of w.report
  goes_on (runs_agent ∷ pushes (push_token w.fresh_token token) ∷ []) tt
  if shutting_down w
      then returns [] (shuts_down w.report.stop)
      else if not (reached w.push)
      then give (ends (infra w "push" summary w.report.usage) w.report.stop)
      else by_stop w base summary w.report.stop

-- From the toolbox on, under the deferred close.
abbrev pub with_tools : World → String → String → Step End
with_tools w base token = do
  goes_on (dials_tools ∷ []) tt
  attempt w at_tools "dial toolbox" w.tools
  deferred closes_tools (in_container w base token)

-- execute.
unfoldable pub execute : World → Step End
unfolding in_container refresh_default_branch
execute w = do
  repo ← attempt w at_repository "repository" w.repository
  token ← attempt w at_mint "mint token" w.token
  repo' ← refresh_default_branch w repo
  say (prepares repo'.default_branch token)
  base ← attempt w at_prepare "prepare workspace" w.prepare
  say starts
  attempt w at_start "start container" w.start
  deferred tears_down (with_tools w base token)

-- The outcome that execute returns, and its calls.
abbrev pub end_of : Step End → End
end_of (goes_on cs e) = e
end_of (returns cs e) = e

abbrev pub calls_of : Step End → List Call
calls_of (goes_on cs e) = cs
calls_of (returns cs e) = cs
