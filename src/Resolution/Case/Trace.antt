-- ===== src/Resolution/Case/Trace.antt =====
-- Sequences of calls on a case.
use autophage.Base.{String, Result, Method, discard, List, [], ◌∷◌, Spelling}
use autophage.Resolution.Enums.{AttemptKind}
use autophage.Resolution.Budget.{Budget}
use autophage.Resolution.Facts.{Time, Triage, Approval, Closure, Run, Outcome}
use autophage.Resolution.Case.State.{Case, assign_id, clear_changes}
use autophage.Resolution.Case.Commands.{
  record_triage, record_approval, start_attempt, record_run, record_outcome, close,
}

-- One call of a method that can change a case, with its arguments.
pub data Command : Type 0 where
  triages : Triage → Command
  approves : Approval → Command
  starts : Spelling AttemptKind → Budget → String → Time → Command
  runs : String → Run → Command
  ends : String → Outcome → Command
  closes : Closure → Command
  assigns : String → Command
  persists : Command

unfoldable pub call : Command → Method Case (Unit {0})
call (triages t) = record_triage t
call (approves a) = record_approval a
call (starts kind budget brief at) = discard (start_attempt kind budget brief at)
call (runs id r) = record_run id r
call (ends id o) = record_outcome id o
call (closes cl) = close cl
call (assigns id) = assign_id id
call persists = clear_changes

-- The case that a call leaves behind, and what it returned.
abbrev pub left_by : Case → Command → Case
left_by c m = (call m c).0

abbrev pub answer : Case → Command → Result (Unit {0})
answer c m = (call m c).1

-- The case after a sequence of calls, whatever each of them returned.
unfoldable pub run_calls : Case → List Command → Case
run_calls c [] = c
run_calls c (m ∷ ms) = run_calls (left_by c m) ms
