-- ===== src/Agent/Registry/Gauge.antt =====
-- The gauge of running attempts against the attempts in flight.
use autophage.Base.{
  ◌≡◌, inl, inr, ℕ, ◌+◌, ◌≤◌, String, Option, none, some, List, [], ◌∷◌, length, arith,
  Option-cases, Spelling,
}
use autophage.Resolution.Enums.{AbortReason}
use autophage.Agent.Registry.{
  Registry, registry_start, lookup, write, delete, cancel_slot, cancel_reason, register, unregister,
  cancel, Act, registers, unregisters, cancels, act, act_all,
}

length-write :
    (id : String) (slot : ℕ) (m : List (String × ℕ)) → length (write id slot m) ≤ length m + 1
length-write id slot [] = omega arith
length-write id slot ((j, old) ∷ m) = ground (arith, length-write id slot m)

length-delete :
    (id : String) (slot : ℕ) (m : List (String × ℕ))
    → lookup id m ≡ some slot
    → length (delete id m) + 1 ≡ length m
length-delete id slot [] h = absurd (ground (arith, h))
length-delete id slot ((j, s) ∷ m) h = ground (arith, h, length-delete id slot m)

-- The gauge has gone up at least as often as it has gone down and an attempt is in flight.
abbrev pub Covers : Registry → Type 0
Covers r = r.downs + length r.running ≤ r.ups

unregister-Covers :
    (id : String) (slot : ℕ) (r : Registry) → Covers r → Covers (unregister id slot r)
unfolding unregister
unregister-Covers id slot r h = elim (Option-cases (lookup id r.running)) [
  | inl missing ↦ ground (arith, missing, h)
  | inr (s, found) ↦ ground (arith, found, h, length-delete id s r.running)
]

cancel_slot-Covers :
    (o : Option ℕ) (reason : Spelling AbortReason) (r : Registry)
    → Covers r
    → Covers (cancel_slot o reason r).0
cancel_slot-Covers none reason r h = h
cancel_slot-Covers (some n) reason r h = h

act-Covers : (a : Act) (r : Registry) → Covers r → Covers (act a r)
unfolding act register cancel
act-Covers (registers id) r h = ground (arith, h, length-write id (length r.slots) r.running)
act-Covers (unregisters id slot) r h = unregister-Covers id slot r h
act-Covers (cancels id reason) r h =
    cancel_slot-Covers (lookup id r.running) (cancel_reason reason) r h

act_all-kept : (acts : List Act) (r : Registry) → Covers r → Covers (act_all acts r)
unfolding act_all
act_all-kept [] r h = h
act_all-kept (a ∷ rest) r h = act_all-kept rest (act a r) (act-Covers a r h)

-- After any registrations, cancellations and unregistrations, in any order and repeated at will, the
-- gauge counts no fewer runs than are in flight; in particular it never drifts below zero.
pub act_all-Covers : (acts : List Act) → Covers (act_all acts registry_start)
act_all-Covers acts = act_all-kept acts registry_start (omega arith)
