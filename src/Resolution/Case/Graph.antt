-- ===== src/Resolution/Case/Graph.antt =====
-- The state diagram of a case, from docs/specs/2026-09-04-autophage-domain-model.md ("States"),
-- and the log of transitions as a path through it.
use autophage.Base.{◌≡◌, refl, List, [], ◌∷◌, ◌++◌, ◌⊎◌, inl, inr, arith, String, Spelling}
use autophage.Resolution.Enums.{
  CaseState, received, gated, queued, attempting, awaiting_approval, failed, done, closed,
  TransitionCause, cause_triage_small, cause_triage_large, cause_approval, cause_attempt_started,
  cause_outcome_pull_request_opened, cause_outcome_budget_exhausted, cause_outcome_failed,
  cause_outcome_aborted_operator_stop, cause_outcome_aborted_restart_requeue,
  cause_outcome_aborted_restart_failed, cause_closed, terminal, AttemptKind, OutcomeKind,
}
use autophage.Base.{false, true, Bool, ap, ok, known}
use autophage.Base.{ℤ, sym, ◌∙◌, if◌then◌else◌}
use autophage.Resolution.Requester.{Requester}
use autophage.Resolution.Case.Trace.{
  Command, triages, approves, starts, runs, ends, closes, assigns, persists, call, left_by,
  run_calls,
}
use autophage.Resolution.Budget.{Budget}
use autophage.Resolution.Facts.{
  Transition, Outcome, Triage, Approval, Closure, Run, Time, outcome_cause,
}
use autophage.Resolution.Case.Invariant.{IsValid, open-attempting, call-IsValid, new_case-IsValid}
use autophage.Resolution.Case.Effects.{
  moved, record_triage-effect, record_approval-effect, start_attempt-effect, record_run-effect,
  close-effect, record_outcome-effect,
}
use autophage.Resolution.Case.State.{Case, new_case, is_trusted, assign_id, clear_changes}
use autophage.Resolution.Case.Commands.{
  record_triage, record_approval, start_attempt, record_run, record_outcome, close, move,
  awaits_approval, outcome_move,
}

-- The arrows of the diagram, each with the cause that the log gives it.
pub data Edge : CaseState → CaseState → TransitionCause → Type 0 where
  sized_small : Edge received queued cause_triage_small
  sized_large : Edge received awaiting_approval cause_triage_large
  admitted : Edge gated queued cause_approval
  approved_large : Edge awaiting_approval queued cause_approval
  approved_again : Edge failed queued cause_approval
  started : Edge queued attempting cause_attempt_started
  opened : Edge attempting done cause_outcome_pull_request_opened
  exhausted : Edge attempting awaiting_approval cause_outcome_budget_exhausted
  stopped : Edge attempting awaiting_approval cause_outcome_aborted_operator_stop
  broke : Edge attempting failed cause_outcome_failed
  restarted : Edge attempting queued cause_outcome_aborted_restart_requeue
  restarted_twice : Edge attempting failed cause_outcome_aborted_restart_failed
  shut : (s : CaseState) → terminal s ≡ false → Edge s closed cause_closed

pub ruleset edges = (
  sized_small, sized_large, admitted, approved_large, approved_again, started, opened, exhausted,
  stopped, broke, restarted, restarted_twice,
)

-- A call logs nothing and leaves the state, or logs one arrow from the old state to the new one.
abbrev pub Logs : Case → Case → Type 0
Logs c c' =
    ((c'.transitions ≡ c.transitions) × (c'.state ≡ c.state))
    ⊎ ((tr : Transition) × (c'.transitions ≡ c.transitions ++ tr ∷ [])
        × (tr.from ≡ c.state)
        × (tr.to ≡ c'.state)
        × Edge tr.from tr.to tr.cause)

move-Logs :
    (c c' : Case) (to : CaseState) (cause : TransitionCause) (at : Time)
    → c'.transitions ≡ c.transitions
    → c'.state ≡ c.state
    → Edge c.state to cause
    → Logs c (moved to cause at c')
unfolding move
move-Logs c c' to cause at log state edge = inr (
  record { from = c'.state; to = to; cause = cause; occurred_at = at },
  ap
      (λ (l : List Transition).
        l ++ record { from = c'.state; to = to; cause = cause; occurred_at = at } ∷ [])
      log,
  state,
  refl,
  rw state edge,
)

same-Logs : (c c' : Case) → c' ≡ c → Logs c c'
same-Logs c c' e = inl (ap (λ x. x.transitions) e, ap (λ x. x.state) e)

record_triage-Logs : (c : Case) (t : Triage) → Logs c (record_triage t c).0
record_triage-Logs c t = elim (record_triage-effect t c) [
  | inl same ↦ same-Logs c _ same
  | inr (inl (is_received, _, e)) ↦
      rw e (move-Logs c _ _ _ _ refl refl (rw is_received sized_small))
  | inr (inr (is_received, _, e)) ↦
      rw e (move-Logs c _ _ _ _ refl refl (rw is_received sized_large))
]

approval-Edge : (s : CaseState) → awaits_approval s ≡ true → Edge s queued cause_approval
approval-Edge gated h = admitted
approval-Edge awaiting_approval h = approved_large
approval-Edge failed h = approved_again
approval-Edge _ h = cc

record_approval-Logs : (c : Case) (a : Approval) → Logs c (record_approval a c).0
record_approval-Logs c a = elim (record_approval-effect a c) [
  | inl same ↦ same-Logs c _ same
  | inr (inl (_, _, e)) ↦ rw e (inl (refl, refl))
  | inr (inr (awaits, e)) ↦ rw e (move-Logs c _ _ _ _ refl refl (approval-Edge c.state awaits))
]

start_attempt-Logs :
    (c : Case) (kind : Spelling AttemptKind) (budget : Budget) (brief : String) (at : Time)
    → Logs c (start_attempt kind budget brief at c).0
start_attempt-Logs c kind budget brief at = elim (start_attempt-effect kind budget brief at c) [
  | inl same ↦ same-Logs c _ same
  | inr (is_queued, _, e) ↦ rw e (move-Logs c _ _ _ _ refl refl (rw is_queued started))
]

record_run-Logs : (c : Case) (id : String) (r : Run) → Logs c (record_run id r c).0
record_run-Logs c id r = elim (record_run-effect id r c) [
  | inl same ↦ same-Logs c _ same
  | inr (a, _, _, e) ↦ rw e (inl (refl, refl))
]

close-Logs : (c : Case) (cl : Closure) → Logs c (close cl c).0
close-Logs c cl = elim (close-effect cl c) [
  | inl same ↦ same-Logs c _ same
  | inr (live, e) ↦ rw e (move-Logs c _ _ _ _ refl refl (shut c.state live))
]

-- The five ways in which an outcome moves a case.
outcome_move-cases :
    (o : Outcome) (kind : OutcomeKind) (again : Bool) (to : CaseState) (cause : TransitionCause)
    → o.kind ≡ known kind
    → outcome_move kind again o ≡ ok (to, cause)
    → ((to ≡ done) × (cause ≡ cause_outcome_pull_request_opened))
      ⊎ ((to ≡ awaiting_approval) × (cause ≡ cause_outcome_budget_exhausted))
      ⊎ ((to ≡ awaiting_approval) × (cause ≡ cause_outcome_aborted_operator_stop))
      ⊎ ((to ≡ failed) × (cause ≡ cause_outcome_failed))
      ⊎ ((to ≡ queued) × (cause ≡ cause_outcome_aborted_restart_requeue))
      ⊎ ((to ≡ failed) × (cause ≡ cause_outcome_aborted_restart_failed))
unfolding outcome_cause
outcome_move-cases o kind again to cause is_kind decide = ground arith

outcome_move-Edge :
    (o : Outcome) (kind : OutcomeKind) (again : Bool) (to : CaseState) (cause : TransitionCause)
    → o.kind ≡ known kind
    → outcome_move kind again o ≡ ok (to, cause)
    → Edge attempting to cause
outcome_move-Edge o kind again to cause is_kind decide =
    elim (outcome_move-cases o kind again to cause is_kind decide) [
      | inl (p, q) ↦ rw (p, q) opened
      | inr (inl (p, q)) ↦ rw (p, q) exhausted
      | inr (inr (inl (p, q))) ↦ rw (p, q) stopped
      | inr (inr (inr (inl (p, q)))) ↦ rw (p, q) broke
      | inr (inr (inr (inr (inl (p, q))))) ↦ rw (p, q) restarted
      | inr (inr (inr (inr (inr (p, q))))) ↦ rw (p, q) restarted_twice
    ]

record_outcome-Logs :
    (c : Case) (id : String) (o : Outcome) → IsValid c → Logs c (record_outcome id o c).0
record_outcome-Logs c id o v = elim (record_outcome-effect id o c) [
  | inl same ↦ same-Logs c _ same
  | inr (inl (a, _, _, e)) ↦ rw e (inl (refl, refl))
  | inr (inr (a, kind, to, cause, found, live, is_kind, decide, e)) ↦ rw e (
      move-Logs c _ _ _ _ refl refl (
        rw (open-attempting c a v found live) (outcome_move-Edge o kind _ to cause is_kind decide)))
]

-- In a valid case, every call either logs nothing and leaves the state, or logs exactly one
-- transition, from the old state to the new one, along an arrow of the diagram.
pub call-Logs : (c : Case) (m : Command) → IsValid c → Logs c (left_by c m)
unfolding call assign_id clear_changes
call-Logs c (triages t) v = record_triage-Logs c t
call-Logs c (approves a) v = record_approval-Logs c a
call-Logs c (starts kind budget brief at) v = start_attempt-Logs c kind budget brief at
call-Logs c (runs id r) v = record_run-Logs c id r
call-Logs c (ends id o) v = record_outcome-Logs c id o v
call-Logs c (closes cl) v = close-Logs c cl
call-Logs c (assigns id) v = inl (ground arith, ground arith)
call-Logs c persists v = inl (refl, refl)

-- A log that leads from one state to another: each entry starts where the one before it ended, and
-- follows an arrow of the diagram.
abbrev pub Leads : CaseState → List Transition → CaseState → Type 0
Leads s [] t = s ≡ t
Leads s (tr ∷ rest) t = (tr.from ≡ s) × Edge tr.from tr.to tr.cause × Leads tr.to rest t

Leads-append :
    (s t u : CaseState) (l : List Transition) (tr : Transition)
    → Leads s l t
    → tr.from ≡ t
    → tr.to ≡ u
    → Edge tr.from tr.to tr.cause
    → Leads s (l ++ tr ∷ []) u
Leads-append s t u [] tr h p q e = (p ∙ sym h, e, q)
Leads-append s t u (x ∷ rest) tr h p q e = (h.0, h.1, Leads-append x.to t u rest tr h.2 p q e)

Logs-Leads :
    (s : CaseState) (c c' : Case)
    → Logs c c'
    → Leads s c.transitions c.state
    → Leads s c'.transitions c'.state
Logs-Leads s c c' (inl (log, state)) h = rw (log, state) h
Logs-Leads s c c' (inr (tr, log, p, q, e)) h =
    rw log (Leads-append s c.state c'.state c.transitions tr h p q e)

run_calls-Leads :
    (s : CaseState) (c : Case) (ms : List Command)
    → IsValid c
    → Leads s c.transitions c.state
    → Leads s (run_calls c ms).transitions (run_calls c ms).state
unfolding run_calls
run_calls-Leads s c [] v h = h
run_calls-Leads s c (m ∷ ms) v h =
    run_calls-Leads s (left_by c m) ms (call-IsValid c m v)
      (Logs-Leads s c (left_by c m) (call-Logs c m v) h)

-- Whatever is called on a new case, its log leads from its first state (`received` for a trusted
-- requester, `gated` for any other) to the state that it is in, along the arrows of the diagram.
pub case_log-Leads :
    (repository : String) (number : ℤ) (requester : Requester) (at : Time) {c : Case}
    (ms : List Command)
    → new_case repository number requester at ≡ ok c
    → Leads
        (if is_trusted requester.trust then received else gated)
        (run_calls c ms).transitions
        (run_calls c ms).state
unfolding new_case
case_log-Leads repository number requester at {c} ms h =
    run_calls-Leads _ c ms (new_case-IsValid repository number requester at h) (
      let log : c.transitions ≡ [] = ground arith in
      let state : c.state ≡ (if is_trusted requester.trust then received else gated) =
        ground arith in
      rw (log, state) refl)
