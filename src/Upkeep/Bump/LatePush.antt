-- ===== src/Upkeep/Bump/LatePush.antt =====
-- A round that reports its push after the head moved under it.
use autophage.Base.{
  ◌≡◌, ℤ, String, true, false, none, some, known, str_eq, is_sha, is_blank, arith, ok, str_eq_iff,
}
use autophage.Resolution.Facts.{Time}
use autophage.Upkeep.Enums.{green, pushed}
use autophage.Upkeep.Facts.{CheckVerdict, RepairAttempt, RepairOutcome}
use autophage.Upkeep.Bump.State.{Bump, verdict_on, current_verdict}
use autophage.Upkeep.Bump.Commands.{record_verdict, advance_head, record_outcome, open_repair}

green_verdict_error :
    (v : CheckVerdict) (n : ℤ) (b : Bump) → b.state ≡ green → (record_verdict v n b).0 ≡ b
unfolding record_verdict
green_verdict_error v n b s = ground arith

same_head_error :
    (sha : String) (at : Time) (b : Bump)
    → str_eq sha b.head_sha ≡ true
    → (advance_head sha at b).0 ≡ b
unfolding advance_head
same_head_error sha at b s = ground arith

outcome_written :
    (b : Bump) (o : RepairOutcome) (n : ℤ) (a : RepairAttempt)
    → b.state ≡ green
    → open_repair b.attempts ≡ some a
    → o.kind ≡ known pushed
    → is_sha o.head_sha ≡ true
    → is_blank o.summary ≡ false
    → str_eq o.head_sha a.base_sha ≡ false
    → let b' = (record_outcome a.id o n b).0 in
      ((record_outcome a.id o n b).1 ≡ ok tt)
      × (b'.state ≡ green)
      × (b'.head_sha ≡ o.head_sha)
      × (b'.verdicts ≡ b.verdicts)
unfolding record_outcome
outcome_written b o n a s found k sha summary base = ground (arith, str_eq_iff a.id a.id)

-- A green bump whose round still runs takes a push report for a head that has no verdict, and stays
-- green on that head. From then on no verdict on any head changes it, and neither does the event
-- that announces the pushed head.
pub late_push_green :
    (b : Bump) (o : RepairOutcome) (n : ℤ) (a : RepairAttempt) (v : CheckVerdict) (at : Time)
    → b.state ≡ green
    → open_repair b.attempts ≡ some a
    → o.kind ≡ known pushed
    → is_sha o.head_sha ≡ true
    → is_blank o.summary ≡ false
    → str_eq o.head_sha a.base_sha ≡ false
    → verdict_on o.head_sha b.verdicts ≡ none
    → let b' = (record_outcome a.id o n b).0 in
      ((record_outcome a.id o n b).1 ≡ ok tt)
      × (b'.state ≡ green)
      × (b'.head_sha ≡ o.head_sha)
      × (current_verdict b' ≡ none)
      × ((record_verdict v n b').0 ≡ b')
      × ((advance_head o.head_sha at b').0 ≡ b')
late_push_green b o n a v at s found k sha summary base fresh =
    let w = outcome_written b o n a s found k sha summary base in
    let b' = (record_outcome a.id o n b).0 in
    (
      w.0,
      w.1,
      w.2,
      rw (w.2, w.3) fresh,
      green_verdict_error v n b' w.1,
      same_head_error o.head_sha at b' ((str_eq_iff o.head_sha b'.head_sha).1 (rw w.2)),
    )
