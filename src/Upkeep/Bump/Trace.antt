-- ===== src/Upkeep/Bump/Trace.antt =====
-- Sequences of calls on a bump.
use autophage.Base.{ℤ, String, Result, Method, discard, List, [], ◌∷◌}
use autophage.Resolution.Budget.{Budget}
use autophage.Resolution.Facts.{Time, Run}
use autophage.Upkeep.Facts.{CheckVerdict, RepairOutcome, BumpAbandonment, BumpClosure}
use autophage.Upkeep.Bump.State.{Bump, assign_id, clear_changes}
use autophage.Upkeep.Bump.Commands.{
  record_verdict, advance_head, start_repair, record_run, record_outcome, abandon, retry, close,
}

-- One call of a method that can change a bump, with its arguments. `max_rounds` is an argument of
-- the sequence: the daemon configures it once.
pub data Command : Type 0 where
  judges : CheckVerdict → Command
  advances : String → Time → Command
  repairs : Budget → String → Time → Command
  runs : String → Run → Command
  ends : String → RepairOutcome → Command
  abandons : BumpAbandonment → Command
  retries : Time → Command
  closes : BumpClosure → Command
  assigns : String → Command
  persists : Command

unfoldable pub call : ℤ → Command → Method Bump (Unit {0})
call max_rounds (judges v) = record_verdict v max_rounds
call max_rounds (advances sha at) = advance_head sha at
call max_rounds (repairs budget brief at) = discard (start_repair budget brief at max_rounds)
call max_rounds (runs id r) = record_run id r
call max_rounds (ends id o) = record_outcome id o max_rounds
call max_rounds (abandons a) = abandon a
call max_rounds (retries at) = retry at
call max_rounds (closes cl) = close cl
call max_rounds (assigns id) = assign_id id
call max_rounds persists = clear_changes

-- The bump that a call leaves behind, and what it returned.
abbrev pub left_by : ℤ → Bump → Command → Bump
left_by max_rounds b m = (call max_rounds m b).0

abbrev pub answer : ℤ → Bump → Command → Result (Unit {0})
answer max_rounds b m = (call max_rounds m b).1

-- The bump after a sequence of calls, whatever each of them returned.
unfoldable pub run_calls : ℤ → Bump → List Command → Bump
run_calls max_rounds b [] = b
run_calls max_rounds b (m ∷ ms) = run_calls max_rounds (left_by max_rounds b m) ms
