-- ===== src/Agent/Registry/Reasons.antt =====
-- The reason that a cancelled attempt is found with.
use autophage.Base.{
  ◌≡◌, refl, ℕ, zero, suc, ◌<◌, String, true, false, Option, none, some, List, [], ◌∷◌, length,
  arith, Spelling, Bool-cases, inl, inr,
}
use autophage.Resolution.Enums.{AbortReason}
use autophage.Agent.Attempt.{is_unset}
use autophage.Agent.Registry.{Slot, Registry, lookup, stop_slot, cancel_reason, cancel}

-- The slot that a pointer points to.
abbrev pub slot_at : ℕ → List Slot → Option Slot
slot_at n [] = none
slot_at zero (s ∷ ss) = some s
slot_at (suc n) (s ∷ ss) = slot_at n ss

-- A recorded stop: the context is cancelled, and the reason is not the empty one, by which the
-- runner recognises a shutdown.
abbrev pub IsStopped : Option Slot → Type 0
IsStopped none = ⊥
IsStopped (some s) = (s.cancelled ≡ true) × (is_unset s.reason ≡ false)

cancel_reason_set : (reason : Spelling AbortReason) → is_unset (cancel_reason reason) ≡ false
cancel_reason_set reason = elim (Bool-cases (is_unset reason)) [
  | inl unset ↦ rw unset refl
  | inr set ↦ rw (set, set) refl
]

stop_slot-IsStopped :
    (n : ℕ) (reason : Spelling AbortReason) (ss : List Slot)
    → n < length ss
    → is_unset reason ≡ false
    → IsStopped (slot_at n (stop_slot n reason ss))
stop_slot-IsStopped n reason [] h k = absurd (omega (arith, h))
stop_slot-IsStopped zero reason (s ∷ ss) h k = (refl, k)
stop_slot-IsStopped (suc n) reason (s ∷ ss) h k =
    stop_slot-IsStopped n reason ss (omega (arith, h)) k

-- Cancelling an attempt in flight, with whichever reason the caller names or forgets, leaves its slot
-- cancelled with a reason that no shutdown has, so that its outcome is not discarded.
pub cancel-IsStopped :
    (id : String) (reason : Spelling AbortReason) (r : Registry) (n : ℕ)
    → lookup id r.running ≡ some n
    → n < length r.slots
    → IsStopped (slot_at n (cancel id reason r).0.slots)
unfolding cancel
cancel-IsStopped id reason r n found there =
    rw (cancel, found)
      (stop_slot-IsStopped n (cancel_reason reason) r.slots there (cancel_reason_set reason))
