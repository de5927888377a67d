-- ===== src/Resolution/Case/Persist.antt =====
-- What a case tells the store: its record of changes, against the case as it was loaded.
use autophage.Base.{
  ℕ, ◌+◌, ◌≤◌, ◌≡◌, refl, inl, inr, none, some, List, [], ◌∷◌, ◌++◌, map, All, length,
  length-append, find, arith, Spelling, String, ap, sym, ◌∙◌,
}
use autophage.Resolution.Enums.{AttemptKind, CaseState, TransitionCause}
use autophage.Resolution.Budget.{Budget}
use autophage.Resolution.Facts.{Time, Triage, Approval, Closure, Run, Attempt, Outcome, Transition}
use autophage.Resolution.Case.State.{Case, Changes, no_changes, clear_changes}
use autophage.Resolution.Case.Commands.{move, fresh_attempt, open_attempt}
use autophage.Resolution.Case.Attempts.{
  Numbered, set_run, set_outcome, length-set_run, length-set_outcome,
}
use autophage.Resolution.Case.Rows.{
  or_else, patch, map-patch_run, map-patch_outcome, FreshAbove, FreshAbove-put, ordinal_bounds,
  Numbered-patch,
}
use autophage.Resolution.Case.Invariant.{IsValid, call-IsValid}
use mathlib.Core.Path.{ap₂}
use mathlib.Core.List.{append-nil, append_assoc, map-append}
use autophage.Resolution.Case.Effects.{
  moved, with_triage, with_approval, with_attempt, with_run, with_outcome, with_closure,
  record_triage-effect, record_approval-effect, start_attempt-effect, record_run-effect,
  close-effect, record_outcome-effect,
}
use autophage.Resolution.Case.Trace.{
  Command, triages, approves, starts, runs, ends, closes, assigns, persists, call, left_by,
  run_calls,
}

-- The case that a store holds once it has added the changes to the case that it loaded, and reads
-- it back.
abbrev pub replay : Case → Changes → Case
replay s ch = record s {
  state = ch.state;
  triage = or_else ch.triage s.triage;
  approvals = s.approvals ++ ch.approvals;
  attempts = map (patch ch.runs ch.outcomes) (s.attempts ++ ch.attempts);
  transitions = s.transitions ++ ch.transitions;
  closure = or_else ch.closure s.closure;
  changes = no_changes ch.state;
}

-- `c` is what adding its changes to `s`, the case as it was loaded, gives.
record Tracks (s c : Case) : Type 0 where
  same_id : s.id ≡ c.id
  same_repository : s.repository ≡ c.repository
  same_number : s.number ≡ c.number
  same_requester : s.requester ≡ c.requester
  same_received : s.received_at ≡ c.received_at
  state : c.changes.state ≡ c.state
  triage : or_else c.changes.triage s.triage ≡ c.triage
  closure : or_else c.changes.closure s.closure ≡ c.closure
  approvals : s.approvals ++ c.changes.approvals ≡ c.approvals
  transitions : s.transitions ++ c.changes.transitions ≡ c.transitions
  attempts :
      map (patch c.changes.runs c.changes.outcomes) (s.attempts ++ c.changes.attempts) ≡ c.attempts
  fresh_runs : FreshAbove (length c.attempts) c.changes.runs
  fresh_outcomes : FreshAbove (length c.attempts) c.changes.outcomes

moved-Tracks :
    (s c : Case) (to : CaseState) (cause : TransitionCause) (at : Time)
    → Tracks s c
    → Tracks s (moved to cause at c)
unfolding move
moved-Tracks s c to cause at k =
    let tr : Transition = record { from = c.state; to = to; cause = cause; occurred_at = at } in
    ground (arith, append_assoc s.transitions c.changes.transitions (tr ∷ []))

with_triage-Tracks : (s c : Case) (t : Triage) → Tracks s c → Tracks s (with_triage t c)
with_triage-Tracks s c t k = ground arith

with_closure-Tracks : (s c : Case) (cl : Closure) → Tracks s c → Tracks s (with_closure cl c)
with_closure-Tracks s c cl k = ground arith

with_approval-Tracks : (s c : Case) (a : Approval) → Tracks s c → Tracks s (with_approval a c)
with_approval-Tracks s c a k = ground (arith, append_assoc s.approvals c.changes.approvals (a ∷ []))

-- No row waits for an attempt that is about to start.
patch_fresh :
    (rs : List (ℕ × Run)) (os : List (ℕ × Outcome)) (a : Attempt)
    → find a.ordinal rs ≡ none
    → find a.ordinal os ≡ none
    → patch rs os a ≡ a
patch_fresh rs os a no_run no_outcome = ground arith

with_attempt-Tracks :
    (s c : Case) (kind : Spelling AttemptKind) (budget : Budget) (brief : String) (at : Time)
    → Tracks s c
    → Tracks s (with_attempt (fresh_attempt (length c.attempts) kind budget brief at) c)
with_attempt-Tracks s c kind budget brief at k =
    let a = fresh_attempt (length c.attempts) kind budget brief at in
    let rs = c.changes.runs in
    let os = c.changes.outcomes in
    let longer : length (c.attempts ++ a ∷ []) ≡ length c.attempts + 1 =
      length-append c.attempts (a ∷ []) in
    record {
      same_id = k.same_id;
      same_repository = k.same_repository;
      same_number = k.same_number;
      same_requester = k.same_requester;
      same_received = k.same_received;
      state = k.state;
      triage = k.triage;
      closure = k.closure;
      approvals = k.approvals;
      transitions = k.transitions;
      attempts =
          ap (map (patch rs os)) (sym (append_assoc s.attempts c.changes.attempts (a ∷ [])))
          ∙ map-append (patch rs os) (s.attempts ++ c.changes.attempts) (a ∷ [])
          ∙ ap₂ (λ (l : List Attempt) (x : Attempt). l ++ x ∷ []) k.attempts
              (patch_fresh rs os a (k.fresh_runs _ (omega arith))
                (k.fresh_outcomes _ (omega arith)));
      fresh_runs = λ j lt. k.fresh_runs j (omega (arith, longer));
      fresh_outcomes = λ j lt. k.fresh_outcomes j (omega (arith, longer));
    }

with_run-Tracks :
    (s c : Case) (a : Attempt) (r : Run)
    → IsValid c
    → open_attempt c.attempts ≡ some a
    → Tracks s c
    → Tracks s (with_run a r c)
with_run-Tracks s c a r v found k =
    let l = s.attempts ++ c.changes.attempts in
    let rs = c.changes.runs in
    let os = c.changes.outcomes in
    let base : Numbered 1 l = Numbered-patch 1 rs os l (rw k.attempts v.numbered) in
    let size = length-set_run r c.attempts in
    let bound : a.ordinal ≤ length c.attempts =
      omega (arith, ordinal_bounds 1 c.attempts a v.numbered found) in
    record {
      same_id = k.same_id;
      same_repository = k.same_repository;
      same_number = k.same_number;
      same_requester = k.same_requester;
      same_received = k.same_received;
      state = k.state;
      triage = k.triage;
      closure = k.closure;
      approvals = k.approvals;
      transitions = k.transitions;
      attempts = map-patch_run 1 r rs os l a base (rw k.attempts found) ∙ ap (set_run r) k.attempts;
      fresh_runs = rw size (FreshAbove-put _ a.ordinal r rs bound k.fresh_runs);
      fresh_outcomes = rw size k.fresh_outcomes;
    }

with_outcome-Tracks :
    (s c : Case) (a : Attempt) (o : Outcome)
    → IsValid c
    → open_attempt c.attempts ≡ some a
    → Tracks s c
    → Tracks s (with_outcome a o c)
with_outcome-Tracks s c a o v found k =
    let l = s.attempts ++ c.changes.attempts in
    let rs = c.changes.runs in
    let os = c.changes.outcomes in
    let base : Numbered 1 l = Numbered-patch 1 rs os l (rw k.attempts v.numbered) in
    let size = length-set_outcome o c.attempts in
    let bound : a.ordinal ≤ length c.attempts =
      omega (arith, ordinal_bounds 1 c.attempts a v.numbered found) in
    record {
      same_id = k.same_id;
      same_repository = k.same_repository;
      same_number = k.same_number;
      same_requester = k.same_requester;
      same_received = k.same_received;
      state = k.state;
      triage = k.triage;
      closure = k.closure;
      approvals = k.approvals;
      transitions = k.transitions;
      attempts =
          map-patch_outcome 1 o rs os l a base (rw k.attempts found)
          ∙ ap (set_outcome o) k.attempts;
      fresh_runs = rw size k.fresh_runs;
      fresh_outcomes = rw size (FreshAbove-put _ a.ordinal o os bound k.fresh_outcomes);
    }

-- The calls that a transaction of the store makes on a loaded case: all but the assignment of the
-- id at creation, and the reset after the changes were written.
abbrev pub InTransaction : Command → Type 0
InTransaction (assigns id) = ⊥
InTransaction persists = ⊥
InTransaction _ = Unit {0}

call-Tracks :
    (s c : Case) (m : Command) → InTransaction m → IsValid c → Tracks s c → Tracks s (left_by c m)
unfolding call
call-Tracks s c (triages t) _ v k = elim (record_triage-effect t c) [
  | inl same ↦ rw same k
  | inr (inl (_, _, e)) ↦ rw e (moved-Tracks s _ _ _ _ (with_triage-Tracks s c t k))
  | inr (inr (_, _, e)) ↦ rw e (moved-Tracks s _ _ _ _ (with_triage-Tracks s c t k))
]
call-Tracks s c (approves a) _ v k = elim (record_approval-effect a c) [
  | inl same ↦ rw same k
  | inr (inl (_, _, e)) ↦ rw e (with_approval-Tracks s c a k)
  | inr (inr (_, e)) ↦ rw e (moved-Tracks s _ _ _ _ (with_approval-Tracks s c a k))
]
call-Tracks s c (starts kind budget brief at) _ v k =
    elim (start_attempt-effect kind budget brief at c) [
      | inl same ↦ rw same k
      | inr (_, _, e) ↦
          rw e (moved-Tracks s _ _ _ _ (with_attempt-Tracks s c kind budget brief at k))
    ]
call-Tracks s c (runs id r) _ v k = elim (record_run-effect id r c) [
  | inl same ↦ rw same k
  | inr (a, found, _, e) ↦ rw e (with_run-Tracks s c a r v found k)
]
call-Tracks s c (ends id o) _ v k = elim (record_outcome-effect id o c) [
  | inl same ↦ rw same k
  | inr (inl (a, found, _, e)) ↦ rw e (with_outcome-Tracks s c a o v found k)
  | inr (inr (a, _, _, _, found, _, _, _, e)) ↦
      rw e (moved-Tracks s _ _ _ _ (with_outcome-Tracks s c a o v found k))
]
call-Tracks s c (closes cl) _ v k = elim (close-effect cl c) [
  | inl same ↦ rw same k
  | inr (_, e) ↦ rw e (moved-Tracks s _ _ _ _ (with_closure-Tracks s c cl k))
]
call-Tracks s c (assigns id) h v k = absurd h
call-Tracks s c persists h v k = absurd h

run_calls-Tracks :
    (s c : Case) (ms : List Command)
    → All InTransaction ms
    → IsValid c
    → Tracks s c
    → Tracks s (run_calls c ms)
unfolding run_calls
run_calls-Tracks s c [] h v k = k
run_calls-Tracks s c (m ∷ ms) h v k =
    run_calls-Tracks s (left_by c m) ms h.1 (call-IsValid c m v) (call-Tracks s c m h.0 v k)

map-patch_none : (l : List Attempt) → map (patch [] []) l ≡ l
map-patch_none [] = refl
map-patch_none (a ∷ rest) = ap (λ (x : List Attempt). a ∷ x) (map-patch_none rest)

loaded-Tracks : (s : Case) → s.changes ≡ no_changes s.state → Tracks s s
loaded-Tracks s clean = ground (
  arith,
  append-nil s.approvals,
  append-nil s.attempts,
  append-nil s.transitions,
  map-patch_none s.attempts,
)

replay_of-Tracks : (s c : Case) → Tracks s c → replay s c.changes ≡ (clear_changes c).0
unfolding clear_changes
replay_of-Tracks s c k = ground arith

-- A case that was loaded, with nothing changed yet, and then any calls of a transaction: adding the
-- changes that it recorded to the case as loaded gives exactly the case in memory. So nothing that
-- a command does is missing from the changes, and nothing that it refused is in them.
pub replay_lem :
    (s : Case) (ms : List Command)
    → IsValid s
    → s.changes ≡ no_changes s.state
    → All InTransaction ms
    → let c = run_calls s ms in replay s c.changes ≡ (clear_changes c).0
replay_lem s ms v clean h =
    replay_of-Tracks s _ (run_calls-Tracks s s ms h v (loaded-Tracks s clean))
