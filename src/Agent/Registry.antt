-- ===== src/Agent/Registry.antt =====
-- internal/agent/runner.go: the attempts in flight. A slot is a Go pointer, and is modelled as its
-- place in the list of all slots that were made; the mutex makes each method one step.
pub mod Gauge
pub mod Reasons
use autophage.Base.{
  ℕ, zero, suc, ◌+◌, String, Bool, true, false, Option, none, some, List, [], ◌∷◌, ◌++◌, length,
  if◌then◌else◌, str_eq, ◌==◌, Spelling, known, blank,
}
use autophage.Resolution.Enums.{AbortReason, abort_operator_stop}
use autophage.Agent.Attempt.{is_unset}

-- running: what Stop and Cancel record, and whether its context was cancelled.
pub record Slot : Type 0 where
  pub reason : Spelling AbortReason
  pub cancelled : Bool

abbrev pub fresh_slot : Slot
fresh_slot = record { reason = blank; cancelled = false }

-- The map of the runner, the slots that were made, and the moves of the gauge up and down.
pub record Registry : Type 0 where
  pub running : List (String × ℕ)
  pub slots : List Slot
  pub ups : ℕ
  pub downs : ℕ

abbrev pub registry_start : Registry
registry_start = record { running = []; slots = []; ups = 0; downs = 0 }

abbrev pub lookup : String → List (String × ℕ) → Option ℕ
lookup id [] = none
lookup id ((j, slot) ∷ m) = if str_eq j id then some slot else lookup id m

abbrev pub write : String → ℕ → List (String × ℕ) → List (String × ℕ)
write id slot [] = (id, slot) ∷ []
write id slot ((j, old) ∷ m) = if str_eq j id then (id, slot) ∷ m else (j, old) ∷ write id slot m

abbrev pub delete : String → List (String × ℕ) → List (String × ℕ)
delete id [] = []
delete id ((j, slot) ∷ m) = if str_eq j id then m else (j, slot) ∷ delete id m

-- insert adds the slot, and register moves the gauge.
unfoldable pub register : String → Registry → Registry × ℕ
register id r =
    let slot = length r.slots in
    (
      record r {
        running = write id slot r.running;
        slots = r.slots ++ fresh_slot ∷ [];
        ups = r.ups + 1;
      },
      slot,
    )

abbrev pub holds : Option ℕ → ℕ → Bool
holds none slot = false
holds (some s) slot = s == slot

-- unregister, with remove: only the run that holds the entry is taken out, and moves the gauge.
unfoldable pub unregister : String → ℕ → Registry → Registry
unregister id slot r =
    if holds (lookup id r.running) slot
    then record r { running = delete id r.running; downs = r.downs + 1 }
    else r

-- A write through the pointer.
abbrev pub stop_slot : ℕ → Spelling AbortReason → List Slot → List Slot
stop_slot n reason [] = []
stop_slot zero reason (s ∷ ss) = record { reason = reason; cancelled = true } ∷ ss
stop_slot (suc n) reason (s ∷ ss) = s ∷ stop_slot n reason ss

-- An empty reason is an operator stop.
abbrev pub cancel_reason : Spelling AbortReason → Spelling AbortReason
cancel_reason reason = if is_unset reason then known abort_operator_stop else reason

abbrev pub cancel_slot : Option ℕ → Spelling AbortReason → Registry → Registry × Bool
cancel_slot none reason r = (r, false)
cancel_slot (some n) reason r = (record r { slots = stop_slot n reason r.slots }, true)

-- Cancel.
unfoldable pub cancel : String → Spelling AbortReason → Registry → Registry × Bool
cancel id reason r = cancel_slot (lookup id r.running) (cancel_reason reason) r

-- Stop.
abbrev pub stop : String → Registry → Registry × Bool
stop id r = cancel id (known abort_operator_stop) r

-- What the daemon's goroutines do to the registry, in any order.
pub data Act : Type 0 where
  registers : String → Act
  unregisters : String → ℕ → Act
  cancels : String → Spelling AbortReason → Act

unfoldable pub act : Act → Registry → Registry
unfolding register unregister cancel
act (registers id) r = (register id r).0
act (unregisters id slot) r = unregister id slot r
act (cancels id reason) r = (cancel id reason r).0

unfoldable pub act_all : List Act → Registry → Registry
unfolding act
act_all [] r = r
act_all (a ∷ rest) r = act_all rest (act a r)
