-- ===== src/Lib.antt =====
-- autophage: a daemon that resolves GitHub issues with a coding agent, and keeps dependabot's pull
-- requests green.
--
-- The two sides of the program each have one aggregate, which every event reaches as a method call.
-- A `Case` (internal/resolution) is one issue: it is received, sized by triage or approved by a
-- maintainer, attempted, and ends with a pull request, a failure or the issue's closing. A `Bump`
-- (internal/upkeep) is one pull request of dependabot's: its checks are judged per head, a failure
-- queues a repair round up to a cap, and it ends green, abandoned or closed. The store loads an
-- aggregate, calls methods on it, and writes what its record of changes says (internal/store). The
-- services of the daemon (internal/app) start attempts for queued cases and end the attempts that a
-- restart left open, through the store; the runner (internal/agent) takes a started attempt through
-- its workspace, container, model, push and pull request to an outcome. The webhook side
-- (internal/github) asks GitHub for the rollup of the checks of a head and hands it to the bump.
--
-- Which file models which part:
--   Base               Go idioms both packages share: tests, lists, maps, integers, errors
--                      (internal/resolution/errors.go), parseEnum and shaRe.
--   Resolution/Enums, Budget, Requester, Facts, Repository
--                      the files of these names of internal/resolution.
--   Resolution/Brief   EscapeIssueTag of internal/resolution/brief.go, and escapeTag of
--                      internal/upkeep/brief.go, which is the same for any tag.
--   Resolution/Case    internal/resolution/case.go. State: the struct, NewCase, LoadCase, AssignID,
--                      ClearChanges. Commands: RecordTriage, RecordApproval, StartAttempt, RecordRun,
--                      RecordOutcome, Close and their helpers. Trace: sequences of calls. Effects and
--                      Attempts carry lemmas on single calls; the other files each prove one thing.
--   Upkeep/Enums, Facts, Bump
--                      the same for internal/upkeep, with Bump/State and Bump/Commands for bump.go;
--                      Bump/Graph/Arrows has the state diagram of
--                      docs/specs/2026-09-17-autophage-upkeep-domain-model.md and what goes beyond it.
--   Github/Rollup      CheckRollup of internal/github/rollup.go.
--   Github/Events, Issues, Translator
--                      internal/github/translate.go: what is read of a delivery, the events of an
--                      issue, and Process with the installation events and the processing rows, for a
--                      translator whose Rollup is nil.
--   Store/Database     internal/store: the rows, the transaction (tx) and the keys. Cases: CreateCase,
--                      UpdateCase and persistChanges. Queries: OpenAttempts, OpenRepairs, QueuedCases
--                      and GetRepository. Repositories: EnrollRepository and
--                      RemoveRepository. Outcomes: insertOutcome and the outcome that
--                      loadAttempts reads. Rows, Cases/Names and Cases/Updates carry the lemmas.
--   App/Scheduler      internal/app/scheduler.go (Run, start) and freeSlots of repairs.go.
--   App/Backstop       internal/app/scheduler.go (backstop) and GetCaseByAttempt of
--                      internal/store/cases_load.go.
--   App/Recovery       internal/app/recovery.go.
--   Agent/Stop, Tool   internal/agent/run.go (the stop reasons) and budget_tool.go.
--   Agent/Registry     internal/agent/runner.go: Stop, Cancel, register and unregister.
--   Agent/World, Attempt
--                      internal/agent/runner.go: execute with setup, infra, settled, shuttingDown,
--                      refreshDefaultBranch and openPullRequest; World has what they meet and do.
--
-- How the code is modelled:
--   * A method with a pointer receiver is a `Method`: a function from the receiver to the receiver it
--     leaves behind and a result. The receiver is also left behind where an error is returned, so
--     that it is a theorem, not the shape of the model, that an error changes nothing.
--   * An error is one of the two values that callers distinguish, ErrInvalid and ErrRefused; the
--     message is left out.
--   * A Go enumeration is a string type, so a field holds a constant or any other text (`Spelling`).
--     The state of a case and trust are closed types: the store's columns for them refer to seeded
--     tables. The state of a bump is parsed by LoadBump, and is a `Spelling` in its snapshot.
--   * A pointer into the slice of attempts is the search for the open attempt; a write through it is
--     `update_open`. A map keyed by ordinal is an association list.
--   * Times are natural numbers, since they are compared and copied only. `int` is an integer without
--     bounds, except in WarnAt, where the product wraps at 64 bits.
--   * strings.ToLower, and go-github's client with all that it returns, are parameters. So is
--     PostgreSQL: which transactions fail, at whichever statement and for whichever reason (the
--     constraints of the schema included), and the ids that it generates. A transaction is one step,
--     and the rows are read as the aggregate that they assemble, with the ids that the database
--     generated for attempts and approvals and without the delivery of an approval that no label gave.
--     Approvals are read in the order in which they were written, where the source orders them by
--     their times and ids. Times are taken to be ones that the columns hold exactly; Store/Outcomes and
--     the two Reload modules show what a reload does to others. NewBudget's second look at a budget
--     that is read back is left out. A case that is created is new, so its one row holds all of it. The
--     text of a brief is a parameter of the scheduler.
--   * The runner's pipeline is a chain of steps that go on or return, each with the calls that it made
--     outside of the process, in their order. What it asks of the sandbox, GitHub, the model and the
--     agent's run are parameters, and so is what its two contexts and the recorded reason for a stop
--     show at each point at which the code looks: any moment of a stop or a shutdown is covered. What
--     the calls do to the container (CommitAndPush removes it, before Teardown) is stated in
--     Agent/Attempt/Cleanup/Contract, after docs/specs/2026-09-04-autophage-contracts.md.
--     Metrics and logs are left out.
--   * The loops of CheckRollup over the pages run on fuel; a fuel of the number of pages is enough, as
--     the equivalence with the summary shows. All other loops are structural.
--
-- Not modelled: the agent's own loop (jess), the sandbox's processes, the text of SQL statements, the
-- HTTP API, the router, configuration and commands; of the services those on bumps, triage and the
-- dispatcher. Two services of the daemon do not interleave within one run. Elapsed and the accessors
-- that copy a slice are left out too.
pub mod Agent
pub mod App
pub mod Base
pub mod Github
pub mod Resolution
pub mod Store
pub mod Upkeep
