-- ===== src/Resolution/Case/Effects.antt =====
-- What each command leaves behind: the case as it was, or one of a few named cases. The proofs about
-- sequences of calls go by these lemmas, with the commands themselves shut.
use autophage.Base.{
  ◌≡◌, ◌⊎◌, inl, inr, String, true, false, none, some, [], ◌∷◌, ◌++◌, length, arith, Spelling,
  known, other, put, ok, err, Error, Result-cases, Spelling-cases, Option-cases,
}
use autophage.Resolution.Enums.{
  CaseState, received, queued, attempting, awaiting_approval, closed, TransitionCause,
  cause_triage_small, cause_triage_large, cause_approval, cause_attempt_started, cause_closed,
  terminal, small, large, AttemptKind, OutcomeKind,
}
use autophage.Resolution.Budget.{Budget}
use autophage.Resolution.Facts.{Time, Triage, Approval, Closure, Run, Attempt, Outcome}
use autophage.Resolution.Case.State.{Case, is_closed}
use autophage.Resolution.Case.Commands.{
  move, record_triage, record_approval, awaits_approval, start_attempt, fresh_attempt, record_run,
  record_outcome, outcome_move, restarted_before, close, open_attempt,
}
use autophage.Resolution.Case.Attempts.{set_run, set_outcome}

abbrev pub moved : CaseState → TransitionCause → Time → Case → Case
moved to cause at c = (move to cause at c).0

abbrev pub with_triage : Triage → Case → Case
with_triage t c = record c { triage = some t; changes = record (c.changes) { triage = some t } }

abbrev pub with_approval : Approval → Case → Case
with_approval a c = record c {
  approvals = c.approvals ++ a ∷ [];
  changes = record (c.changes) { approvals = c.changes.approvals ++ a ∷ [] };
}

abbrev pub with_attempt : Attempt → Case → Case
with_attempt a c = record c {
  attempts = c.attempts ++ a ∷ [];
  changes = record (c.changes) { attempts = c.changes.attempts ++ a ∷ [] };
}

abbrev pub with_run : Attempt → Run → Case → Case
with_run a r c = record c {
  attempts = set_run r c.attempts;
  changes = record (c.changes) { runs = put a.ordinal r c.changes.runs };
}

abbrev pub with_outcome : Attempt → Outcome → Case → Case
with_outcome a o c = record c {
  attempts = set_outcome o c.attempts;
  changes = record (c.changes) { outcomes = put a.ordinal o c.changes.outcomes };
}

abbrev pub with_closure : Closure → Case → Case
with_closure cl c = record c {
  closure = some cl;
  changes = record (c.changes) { closure = some cl };
}

pub record_triage-effect :
    (t : Triage) (c : Case)
    → let c' = (record_triage t c).0 in
      (c' ≡ c)
      ⊎ ((c.state ≡ received)
          × (t.size ≡ known small)
          × (c' ≡ moved queued cause_triage_small t.triaged_at (with_triage t c)))
      ⊎ ((c.state ≡ received)
          × (t.size ≡ known large)
          × (c' ≡ moved awaiting_approval cause_triage_large t.triaged_at (with_triage t c)))
unfolding record_triage
record_triage-effect t c = ground arith

pub record_approval-effect :
    (a : Approval) (c : Case)
    → let c' = (record_approval a c).0 in
      (c' ≡ c)
      ⊎ ((awaits_approval c.state ≡ false) × (terminal c.state ≡ false) × (c' ≡ with_approval a c))
      ⊎ ((awaits_approval c.state ≡ true)
          × (c' ≡ moved queued cause_approval a.approved_at (with_approval a c)))
unfolding record_approval
record_approval-effect a c = ground arith

pub start_attempt-effect :
    (kind : Spelling AttemptKind) (budget : Budget) (brief : String) (at : Time) (c : Case)
    → let c' = (start_attempt kind budget brief at c).0 in
      let a = fresh_attempt (length c.attempts) kind budget brief at in
      (c' ≡ c)
      ⊎ ((c.state ≡ queued)
          × (open_attempt c.attempts ≡ none)
          × (c' ≡ moved attempting cause_attempt_started at (with_attempt a c)))
unfolding start_attempt
start_attempt-effect kind budget brief at c = ground arith

record_run_open :
    (id : String) (r : Run) (c : Case) (a : Attempt)
    → open_attempt c.attempts ≡ some a
    → ((record_run id r c).0 ≡ c) ⊎ ((a.run ≡ none) × ((record_run id r c).0 ≡ with_run a r c))
unfolding record_run
record_run_open id r c a found = ground arith

record_run-none :
    (id : String) (r : Run) (c : Case) → open_attempt c.attempts ≡ none → (record_run id r c).0 ≡ c
unfolding record_run
record_run-none id r c missing = ground arith

pub record_run-effect :
    (id : String) (r : Run) (c : Case)
    → let c' = (record_run id r c).0 in
      (c' ≡ c)
      ⊎ ((a : Attempt) × (open_attempt c.attempts ≡ some a)
          × (a.run ≡ none)
          × (c' ≡ with_run a r c))
record_run-effect id r c = elim (Option-cases (open_attempt c.attempts)) [
  | inl missing ↦ inl (record_run-none id r c missing)
  | inr (a, found) ↦ elim (record_run_open id r c a found) [
    | inl same ↦ inl same
    | inr (first, wrote) ↦ inr (a, found, first, wrote)
  ]
]

pub close-effect :
    (cl : Closure) (c : Case)
    → let c' = (close cl c).0 in
      (c' ≡ c)
      ⊎ ((terminal c.state ≡ false)
          × (c' ≡ moved closed cause_closed cl.closed_at (with_closure cl c)))
unfolding close
close-effect cl c = ground arith

record_outcome-none :
    (id : String) (o : Outcome) (c : Case)
    → open_attempt c.attempts ≡ none
    → (record_outcome id o c).0 ≡ c
unfolding record_outcome
record_outcome-none id o c missing = ground arith

record_outcome_other :
    (id : String) (o : Outcome) (c : Case) (v : String)
    → o.kind ≡ other v
    → (record_outcome id o c).0 ≡ c
unfolding record_outcome
record_outcome_other id o c v unknown = ground arith

record_outcome_decided :
    (id : String) (o : Outcome) (c : Case) (a : Attempt) (kind : OutcomeKind) (to : CaseState)
    (cause : TransitionCause)
    → open_attempt c.attempts ≡ some a
    → o.kind ≡ known kind
    → outcome_move kind (restarted_before a.ordinal c.attempts) o ≡ ok (to, cause)
    → let c' = (record_outcome id o c).0 in
      (c' ≡ c)
      ⊎ ((c.state ≡ closed) × (c' ≡ with_outcome a o c))
      ⊎ ((is_closed c.state ≡ false) × (c' ≡ moved to cause o.ended_at (with_outcome a o c)))
unfolding record_outcome
record_outcome_decided id o c a kind to cause found is_kind decide = ground arith

record_outcome_undecided :
    (id : String) (o : Outcome) (c : Case) (a : Attempt) (kind : OutcomeKind) {e : Error}
    → open_attempt c.attempts ≡ some a
    → o.kind ≡ known kind
    → outcome_move kind (restarted_before a.ordinal c.attempts) o ≡ err e
    → let c' = (record_outcome id o c).0 in
      (c' ≡ c) ⊎ ((c.state ≡ closed) × (c' ≡ with_outcome a o c))
unfolding record_outcome
record_outcome_undecided id o c a kind found is_kind decide = ground arith

-- The case as it was; or the outcome written and nothing else, in `closed`; or the outcome written
-- and the case moved as its kind says.
abbrev pub OutcomeEffect : Outcome → Case → Case → Type 0
OutcomeEffect o c c' =
    (c' ≡ c)
    ⊎ ((a : Attempt) × (open_attempt c.attempts ≡ some a)
        × (c.state ≡ closed)
        × (c' ≡ with_outcome a o c))
    ⊎ ((a : Attempt) × (kind : OutcomeKind) × (to : CaseState) × (cause : TransitionCause)
        × (open_attempt c.attempts ≡ some a)
        × (is_closed c.state ≡ false)
        × (o.kind ≡ known kind)
        × (outcome_move kind (restarted_before a.ordinal c.attempts) o ≡ ok (to, cause))
        × (c' ≡ moved to cause o.ended_at (with_outcome a o c)))

record_outcome_found :
    (id : String) (o : Outcome) (c : Case) (a : Attempt) (kind : OutcomeKind)
    → open_attempt c.attempts ≡ some a
    → o.kind ≡ known kind
    → OutcomeEffect o c (record_outcome id o c).0
record_outcome_found id o c a kind found is_kind =
    elim (Result-cases (outcome_move kind (restarted_before a.ordinal c.attempts) o)) [
      | inr (e, refused) ↦ elim (record_outcome_undecided id o c a kind found is_kind refused) [
        | inl same ↦ inl same
        | inr (shut, wrote) ↦ inr (inl (a, found, shut, wrote))
      ]
      | inl ((to, cause), decide) ↦
          elim (record_outcome_decided id o c a kind to cause found is_kind decide) [
            | inl same ↦ inl same
            | inr (inl (shut, wrote)) ↦ inr (inl (a, found, shut, wrote))
            | inr (inr (live, wrote)) ↦
                inr (inr (a, kind, to, cause, found, live, is_kind, decide, wrote))
          ]
    ]

pub record_outcome-effect :
    (id : String) (o : Outcome) (c : Case) → OutcomeEffect o c (record_outcome id o c).0
record_outcome-effect id o c = elim (Option-cases (open_attempt c.attempts)) [
  | inl missing ↦ inl (record_outcome-none id o c missing)
  | inr (a, found) ↦ elim (Spelling-cases o.kind) [
    | inr (v, unknown) ↦ inl (record_outcome_other id o c v unknown)
    | inl (kind, is_kind) ↦ record_outcome_found id o c a kind found is_kind
  ]
]
