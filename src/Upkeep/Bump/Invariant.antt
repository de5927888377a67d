-- ===== src/Upkeep/Bump/Invariant.antt =====
-- What holds of a bump between two calls.
use autophage.Base.{
  ◌≤◌, ◌≡◌, inl, inr, ℤ, pos, ltb_ℤ, String, true, false, ◌||◌, ◌&&◌, not, List, [], ◌∷◌, ◌++◌,
  count_if-append, any_if, arith, is_blank, is_some, is_sha, str_eq, ok,
}
use autophage.Resolution.Budget.{Budget}
use autophage.Resolution.Facts.{Time, Run}
use autophage.Upkeep.Enums.{repairing, abandoned, RepairOutcomeKind}
use autophage.Upkeep.Facts.{
  CheckVerdict, RepairAttempt, RepairOutcome, BumpAbandonment, BumpClosure, is_open,
}
use autophage.Upkeep.Bump.State.{
  Bump, is_abandoned, is_closed, is_repairing, rounds, repeats_head, new_bump, assign_id,
  clear_changes,
}
use autophage.Upkeep.Bump.Commands.{
  move, set_abandonment, record_verdict, advance_head, start_repair, fresh_repair, record_run,
  record_outcome, abandon, retry, close, Plan, is_pushed,
}
use autophage.Upkeep.Bump.Rounds.{
  opens, Numbered, open_repair-none, opens-set_run, opens-set_outcome, Numbered-append,
  Numbered-set_run, Numbered-set_outcome,
}
use autophage.Upkeep.Bump.Effects.{
  record_verdict-effect, advance_head-effect, start_repair-effect, record_run-effect,
  record_outcome-effect, abandon-effect, retry-effect, close-effect, plan_of, Admits, moved,
  abandoned_if, with_push, with_outcome,
}
use autophage.Upkeep.Bump.Trace.{
  Command, judges, advances, repairs, runs, ends, abandons, retries, closes, assigns, persists,
  call, left_by, run_calls,
}

pub record IsValid (b : Bump) : Type 0 where
  pub one_open : opens b.attempts ≤ 1
  pub repairing_open : b.state ≡ repairing → opens b.attempts ≡ 1
  pub abandoned_recorded : b.state ≡ abandoned → is_some b.abandonment ≡ true
  pub abandonment_final :
      is_some b.abandonment ≡ true → is_abandoned b.state || is_closed b.state ≡ true
  pub closed_iff : is_some b.closure ≡ is_closed b.state
  pub head : is_sha b.head_sha ≡ true
  pub numbered : Numbered 1 b.attempts
  pub one_verdict : repeats_head [] b.verdicts ≡ false
  pub named : is_blank b.repository || is_blank b.branch || is_blank b.base_branch ≡ false
  pub positive : ltb_ℤ b.number (pos 1) ≡ false

repeats_head-append :
    (seen : List String) (l : List CheckVerdict) (v : CheckVerdict)
    → repeats_head seen l ≡ false
    → any_if (λ s. str_eq s v.head_sha) seen ≡ false
    → any_if (λ (x : CheckVerdict). str_eq x.head_sha v.head_sha) l ≡ false
    → repeats_head seen (l ++ v ∷ []) ≡ false
unfolding repeats_head
repeats_head-append seen [] v h p q = ground arith
repeats_head-append seen (x ∷ rest) v h p q =
    ground (arith, repeats_head-append (x.head_sha ∷ seen) rest v)

record_verdict-IsValid :
    (n : ℤ) (b : Bump) (v : CheckVerdict) → IsValid b → IsValid (record_verdict v n b).0
unfolding move set_abandonment
record_verdict-IsValid n b v i = elim (record_verdict-effect v n b) [
  | inl same ↦ rw same i
  | inr (inl (taken, _, e)) ↦ rw e (ground (arith, repeats_head-append [] b.verdicts v))
  | inr (inr (inl (taken, _, _, e))) ↦ rw e (ground (arith, repeats_head-append [] b.verdicts v))
  | inr (inr (inr (taken, _, _, e))) ↦ rw e (ground (arith, repeats_head-append [] b.verdicts v))
]

advance_head-IsValid :
    (b : Bump) (sha : String) (at : Time) → IsValid b → IsValid (advance_head sha at b).0
unfolding move
advance_head-IsValid b sha at i = elim (advance_head-effect sha at b) [
  | inl same ↦ rw same i
  | inr (inl (is_head, waits, e)) ↦ rw e (ground arith)
  | inr (inr (is_head, state, e)) ↦ rw e (ground arith)
]

start_repair-IsValid :
    (n : ℤ) (b : Bump) (budget : Budget) (brief : String) (at : Time)
    → IsValid b
    → IsValid (start_repair budget brief at n b).0
unfolding move
start_repair-IsValid n b budget brief at i =
    let a = fresh_repair (rounds b) b.head_sha budget brief at in
    elim (start_repair-effect budget brief at n b) [
      | inl same ↦ rw same i
      | inr (in_queue, none_open, room, e) ↦ rw e (
          ground (
            arith,
            count_if-append is_open b.attempts (a ∷ []),
            Numbered-append 1 b.attempts a,
            open_repair-none b.attempts none_open,
          ))
    ]

record_run-IsValid : (b : Bump) (id : String) (r : Run) → IsValid b → IsValid (record_run id r b).0
record_run-IsValid b id r i = elim (record_run-effect id r b) [
  | inl same ↦ rw same i
  | inr (a, found, _, e) ↦
      rw e (ground (arith, opens-set_run r b.attempts, Numbered-set_run 1 r b.attempts))
]

abandon-IsValid : (b : Bump) (a : BumpAbandonment) → IsValid b → IsValid (abandon a b).0
unfolding move set_abandonment
abandon-IsValid b a i = elim (abandon-effect a b) [
  | inl same ↦ rw same i
  | inr (state, e) ↦ rw e (ground arith)
]

retry-IsValid : (b : Bump) (at : Time) → IsValid b → IsValid (retry at b).0
unfolding move
retry-IsValid b at i = elim (retry-effect at b) [
  | inl same ↦ rw same i
  | inr (inl (state, _, e)) ↦ rw e (ground arith)
  | inr (inr (state, _, e)) ↦ rw e (ground arith)
]

close-IsValid : (b : Bump) (cl : BumpClosure) → IsValid b → IsValid (close cl b).0
unfolding move
close-IsValid b cl i = elim (close-effect cl b) [
  | inl same ↦ rw same i
  | inr (live, e) ↦ rw e (ground arith)
]

-- A round's end leaves a repairing bump neither repairing nor closed, and abandoned exactly where
-- an abandonment is recorded.
plan_facts :
    (kind : RepairOutcomeKind) (a : RepairAttempt) (o : RepairOutcome) (n : ℤ) (b : Bump)
    → Admits kind a o b
    → b.state ≡ repairing
    → (is_repairing (plan_of kind a o n b).to ≡ false)
      × (is_closed (plan_of kind a o n b).to ≡ false)
      × (is_abandoned (plan_of kind a o n b).to ≡ is_some (plan_of kind a o n b).reason)
plan_facts kind a o n b admits busy = ground arith

-- Carrying out a plan on a bump whose round has just ended.
planned-IsValid :
    (kind : RepairOutcomeKind) (plan : Plan) (o : RepairOutcome) (b : Bump) (a : RepairAttempt)
    → (is_repairing plan.to ≡ false)
      × (is_closed plan.to ≡ false)
      × (is_abandoned plan.to ≡ is_some plan.reason)
    → IsValid b
    → b.state ≡ repairing
    → (is_pushed kind && not (is_sha o.head_sha) ≡ false)
    → IsValid (
        moved plan.to plan.cause o.ended_at
          (abandoned_if plan.reason o.summary o.ended_at (with_push kind o (with_outcome a o b))))
unfolding move set_abandonment
planned-IsValid kind plan o b a facts i busy push =
    ground (arith, opens-set_outcome o b.attempts, Numbered-set_outcome 1 o b.attempts)

record_outcome-IsValid :
    (n : ℤ) (b : Bump) (id : String) (o : RepairOutcome)
    → IsValid b
    → IsValid (record_outcome id o n b).0
unfolding move set_abandonment
record_outcome-IsValid n b id o i = elim (record_outcome-effect id o n b) [
  | inl same ↦ rw same i
  | inr (inl (a, kind, found, admits, idle, e)) ↦
      rw e (ground (arith, opens-set_outcome o b.attempts, Numbered-set_outcome 1 o b.attempts))
  | inr (inr (a, kind, found, admits, busy, e)) ↦ rw e (
      planned-IsValid kind (plan_of kind a o n b) o b a (plan_facts kind a o n b admits busy) i busy
        admits.1)
]

-- A new bump satisfies the invariant.
pub new_bump-IsValid :
    (repository : String) (number : ℤ) (branch base_branch head_sha : String) (at : Time) {b : Bump}
    → new_bump repository number branch base_branch head_sha at ≡ ok b
    → IsValid b
unfolding new_bump repeats_head
new_bump-IsValid repository number branch base_branch head_sha at h = ground arith

-- Every call keeps the invariant.
pub call-IsValid : (n : ℤ) (b : Bump) (m : Command) → IsValid b → IsValid (left_by n b m)
unfolding call assign_id clear_changes
call-IsValid n b (judges v) i = record_verdict-IsValid n b v i
call-IsValid n b (advances sha at) i = advance_head-IsValid b sha at i
call-IsValid n b (repairs budget brief at) i = start_repair-IsValid n b budget brief at i
call-IsValid n b (runs id r) i = record_run-IsValid b id r i
call-IsValid n b (ends id o) i = record_outcome-IsValid n b id o i
call-IsValid n b (abandons a) i = abandon-IsValid b a i
call-IsValid n b (retries at) i = retry-IsValid b at i
call-IsValid n b (closes cl) i = close-IsValid b cl i
call-IsValid n b (assigns id) i = ground arith
call-IsValid n b persists i = ground arith

pub run_calls-IsValid :
    (n : ℤ) (b : Bump) (ms : List Command) → IsValid b → IsValid (run_calls n b ms)
unfolding run_calls
run_calls-IsValid n b [] i = i
run_calls-IsValid n b (m ∷ ms) i = run_calls-IsValid n (left_by n b m) ms (call-IsValid n b m i)

-- Whatever is called on a new bump, it satisfies the invariant: at most one round is open, exactly
-- one while it is repairing; an abandoned bump has its abandonment recorded, and only an abandoned
-- or closed one has; a closure is recorded exactly in `closed`; the head is a sha; rounds are
-- numbered from 1; no head has two verdicts; and the key it was created with stays valid.
pub reachable_bump-IsValid :
    (repository : String) (number : ℤ) (branch base_branch head_sha : String) (at : Time) {b : Bump}
    (n : ℤ) (ms : List Command)
    → new_bump repository number branch base_branch head_sha at ≡ ok b
    → IsValid (run_calls n b ms)
reachable_bump-IsValid repository number branch base_branch head_sha at {b} n ms h =
    run_calls-IsValid n b ms (new_bump-IsValid repository number branch base_branch head_sha at h)
