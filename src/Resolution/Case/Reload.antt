-- ===== src/Resolution/Case/Reload.antt =====
-- A case that is written down and loaded again.
use autophage.Base.{[], ◌∷◌, ◌∙◌, refl, map, ℕ, suc, ◌≡◌, ℤ, String, List, arith, ok}
use autophage.Resolution.Requester.{Requester}
use autophage.Resolution.Facts.{Time, Approval, Attempt, is_open}
use autophage.Resolution.Case.State.{Case, Snapshot, new_case, load_case, clear_changes}
use autophage.Resolution.Case.Attempts.{opens, Numbered}
use autophage.Resolution.Case.Invariant.{IsValid, reachable_case-IsValid}
use autophage.Resolution.Case.Trace.{Command, run_calls}

-- The rows of a case, as the store reads them: field by field, from rows that carry the ids that the
-- database generated.
abbrev pub snapshot_of : Case → Snapshot
snapshot_of c = record {
  id = c.id;
  repository = c.repository;
  number = c.number;
  requester = c.requester;
  state = c.state;
  received_at = c.received_at;
  triage = c.triage;
  approvals = c.approvals;
  attempts = c.attempts;
  transitions = c.transitions;
  closure = c.closure;
}

pub load_of-IsValid : (c : Case) → IsValid c → load_case (snapshot_of c) ≡ ok (clear_changes c).0
unfolding load_case clear_changes
load_of-IsValid c v = ground arith

module _ (kept_approvals : List Approval → List Approval) (kept : Attempt → Attempt)
    (same_ordinal : (a : Attempt) → (kept a).ordinal ≡ a.ordinal)
    (same_end : (a : Attempt) → is_open (kept a) ≡ is_open a) where
  -- The case as the rows give it back.
  abbrev pub kept_case : Case → Case
  kept_case c = record c { approvals = kept_approvals c.approvals; attempts = map kept c.attempts }

  opens-kept : (l : List Attempt) → opens (map kept l) ≡ opens l
  opens-kept [] = refl
  opens-kept (a ∷ l) = ground (arith, opens-kept l, same_end a)

  Numbered-kept : (n : ℕ) (l : List Attempt) → Numbered n l → Numbered n (map kept l)
  Numbered-kept n [] h = tt
  Numbered-kept n (a ∷ l) h = (same_ordinal a ∙ h.0, Numbered-kept (suc n) l h.1)

  kept_case-IsValid : (c : Case) → IsValid c → IsValid (kept_case c)
  kept_case-IsValid c v =
      ground (arith, opens-kept c.attempts, Numbered-kept 1 c.attempts v.numbered)

  -- Whatever is called on a new case, and whichever ids the database generates for its approvals
  -- and attempts, in whichever order it gives the approvals back and whatever else it changes in
  -- these rows, as long as an attempt keeps its ordinal and the presence of an outcome: LoadCase
  -- accepts the rows, and gives the case with these approvals and attempts and no changes pending.
  pub load_case-run_calls :
      (repository : String) (number : ℤ) (requester : Requester) (at : Time) {c : Case}
      (ms : List Command)
      → new_case repository number requester at ≡ ok c
      → let stored = kept_case (run_calls c ms) in
        load_case (snapshot_of stored) ≡ ok (clear_changes stored).0
  load_case-run_calls repository number requester at {c} ms h =
      load_of-IsValid _
        (kept_case-IsValid _ (reachable_case-IsValid repository number requester at ms h))
