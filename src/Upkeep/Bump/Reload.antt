-- ===== src/Upkeep/Bump/Reload.antt =====
-- A bump that is written down and loaded again.
use autophage.Base.{[], ◌∷◌, ◌∙◌, refl, map, ℕ, suc, ◌≡◌, ℤ, String, List, arith, known, ok}
use autophage.Resolution.Facts.{Time}
use autophage.Upkeep.Bump.State.{Bump, Snapshot, new_bump, load_bump, repeats_head, clear_changes}
use autophage.Upkeep.Facts.{CheckVerdict, RepairAttempt, is_open}
use autophage.Upkeep.Bump.Rounds.{opens, Numbered}
use autophage.Upkeep.Bump.Invariant.{IsValid, new_bump-IsValid, run_calls-IsValid}
use autophage.Upkeep.Bump.Trace.{Command, run_calls}

-- The rows of a bump, as the store reads them: field by field, from rows that carry the ids that the
-- database generated.
abbrev pub snapshot_of : Bump → Snapshot
snapshot_of b = record {
  id = b.id;
  repository = b.repository;
  number = b.number;
  branch = b.branch;
  base_branch = b.base_branch;
  head_sha = b.head_sha;
  state = known b.state;
  opened_at = b.opened_at;
  verdicts = b.verdicts;
  attempts = b.attempts;
  transitions = b.transitions;
  abandonment = b.abandonment;
  closure = b.closure;
}

load_of-IsValid : (b : Bump) → IsValid b → load_bump (snapshot_of b) ≡ ok (clear_changes b).0
unfolding load_bump
load_of-IsValid b i = ground arith

module _ (kept_verdict : CheckVerdict → CheckVerdict) (kept : RepairAttempt → RepairAttempt)
    (same_head : (v : CheckVerdict) → (kept_verdict v).head_sha ≡ v.head_sha)
    (same_round : (a : RepairAttempt) → (kept a).round ≡ a.round)
    (same_end : (a : RepairAttempt) → is_open (kept a) ≡ is_open a) where
  -- The bump as the rows give it back.
  abbrev pub kept_bump : Bump → Bump
  kept_bump b = record b { verdicts = map kept_verdict b.verdicts; attempts = map kept b.attempts }

  opens-kept : (l : List RepairAttempt) → opens (map kept l) ≡ opens l
  opens-kept [] = refl
  opens-kept (a ∷ l) = ground (arith, opens-kept l, same_end a)

  Numbered-kept : (n : ℕ) (l : List RepairAttempt) → Numbered n l → Numbered n (map kept l)
  Numbered-kept n [] h = tt
  Numbered-kept n (a ∷ l) h = (same_round a ∙ h.0, Numbered-kept (suc n) l h.1)

  repeats_head-kept :
      (seen : List String) (l : List CheckVerdict)
      → repeats_head seen (map kept_verdict l) ≡ repeats_head seen l
  unfolding repeats_head
  repeats_head-kept seen [] = refl
  repeats_head-kept seen (v ∷ l) =
      ground (arith, same_head v, repeats_head-kept (v.head_sha ∷ seen) l)

  kept_bump-IsValid : (b : Bump) → IsValid b → IsValid (kept_bump b)
  kept_bump-IsValid b v = ground (
    arith,
    opens-kept b.attempts,
    Numbered-kept 1 b.attempts v.numbered,
    repeats_head-kept [] b.verdicts,
  )

  -- Whatever is called on a new bump, and whichever ids the database generates for its verdicts and
  -- rounds and whatever else it changes in these rows, as long as a verdict keeps its head and a
  -- round its number and the presence of an outcome: LoadBump accepts the rows, and gives the bump
  -- with these verdicts and rounds and no changes pending.
  pub load_bump-run_calls :
      (repository : String) (number : ℤ) (branch base_branch head_sha : String) (at : Time)
      {b : Bump} (n : ℤ) (ms : List Command)
      → new_bump repository number branch base_branch head_sha at ≡ ok b
      → let stored = kept_bump (run_calls n b ms) in
        load_bump (snapshot_of stored) ≡ ok (clear_changes stored).0
  load_bump-run_calls repository number branch base_branch head_sha at {b} n ms h =
      load_of-IsValid _ (
        kept_bump-IsValid _ (
          run_calls-IsValid n b ms
            (new_bump-IsValid repository number branch base_branch head_sha at h)))
