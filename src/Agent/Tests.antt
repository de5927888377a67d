-- ===== src/Agent/Tests.antt =====
-- Concrete attempts, and the theorems of the agent applied to them.
use autophage.Base.{pos, String, true, false, none, some, blank, List, [], ◌∷◌, All}
use autophage.Resolution.Repository.{Repository}
use autophage.Base.{◌≡◌, refl, str_eq, arith}
use autophage.Agent.Registry.{
  Registry, registry_start, fresh_slot, lookup, cancel, Act, registers, unregisters, cancels,
  act_all,
}
use autophage.Agent.Registry.Gauge.{Covers, act_all-Covers}
use autophage.Agent.Registry.Reasons.{IsStopped, slot_at, cancel-IsStopped}
use autophage.Agent.Stop.{no_stop}
use autophage.Agent.World.{World, got, lost}
use autophage.Agent.Attempt.{execute, end_of, calls_of, no_usage}
use autophage.Agent.Attempt.Settled.{IsSettled, execute-IsSettled}
use autophage.Agent.Attempt.Requests.{IsSound, execute-IsSound}
use autophage.Agent.Attempt.Cleanup.{IsCleanedUp, execute-CleansUp}
use autophage.Agent.Attempt.Cleanup.Contract.{idle, Reaches}
use autophage.Agent.Tool.{Use, execute_all, watch_start}
use autophage.Agent.Tool.Laws.{Shows, stops_iff}

abbrev base_sha : String
base_sha = "0123456789abcdef0123456789abcdef01234567"

abbrev head_sha : String
head_sha = "89abcdef0123456789abcdef0123456789abcdef"

abbrev repo : Repository
repo = record {
  full_name = "o/r";
  installation_id = pos 5;
  default_branch = "main";
  enrolled_at = 1;
  removed = none;
}

-- An attempt that ran to its end, with work on the branch.
abbrev calm : World
calm = record {
  sees = λ m. record { done = false; caller_done = false; reason = blank };
  repository = got repo;
  token = got "t1";
  default_branch = got "trunk";
  prepare = got base_sha;
  start = got tt;
  tools = got tt;
  model = got "m";
  report = record { stop = no_stop; summary = "Fixed."; usage = no_usage };
  fresh_token = got "t2";
  push = record { head = head_sha; pushed = true; failure = none };
  markers = got false;
  opening = got (pos 12);
  search = lost "not asked";
  attempt_id = "a1";
  now = 9;
  error_text = λ e. "invalid";
}

-- The same, where the container does not start and the issue was closed meanwhile.
abbrev tool_calls : List Use
tool_calls =
    record { read_only = true; counted = none }
    ∷ record { read_only = false; counted = some (pos 700) }
    ∷ record { read_only = false; counted = some (pos 800) }
    ∷ []

execute-IsSettled_example : IsSettled (end_of (execute calm))
execute-IsSettled_example = execute-IsSettled calm

execute-IsSound_example : All (IsSound calm) (calls_of (execute calm))
execute-IsSound_example = execute-IsSound calm

execute-CleansUp_example : Reaches idle (IsCleanedUp calm) (execute calm)
execute-CleansUp_example = execute-CleansUp calm

stops_iff_example : Shows true (execute_all (pos 600) tool_calls watch_start)
unfolding execute_all
stops_iff_example = stops_iff (pos 600) tool_calls

-- One attempt registered twice, stopped, and unregistered by its first run and then by its second.
abbrev twice : List Act
twice =
    registers "a1"
    ∷ registers "a1"
    ∷ cancels "a1" blank
    ∷ unregisters "a1" 0
    ∷ unregisters "a1" 1
    ∷ unregisters "a1" 1
    ∷ []

act_all-Covers_example : Covers (act_all twice registry_start)
act_all-Covers_example = act_all-Covers twice

abbrev in_flight : Registry
in_flight = record registry_start { running = ("a1", 0) ∷ []; slots = fresh_slot ∷ []; ups = 1 }

found_in_flight : lookup "a1" in_flight.running ≡ some 0
unfolding str_eq
found_in_flight = refl

cancel-IsStopped_example : IsStopped (slot_at 0 (cancel "a1" blank in_flight).0.slots)
cancel-IsStopped_example = cancel-IsStopped "a1" blank in_flight 0 found_in_flight (omega arith)
