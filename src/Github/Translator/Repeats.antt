-- ===== src/Github/Translator/Repeats.antt =====
-- Deliveries that arrive again.
use autophage.Base.{
  ◌≡◌, refl, sym, subst, String, ◌&&◌, not, some, arith, Result, ok, err, if_both, str_eq,
  str_eq_iff, is_blank,
}
use autophage.Resolution.Facts.{Time}
use autophage.Resolution.Requester.{Requester}
use autophage.Resolution.Repository.{Repository, is_enrolled}
use autophage.Resolution.Case.State.{Case, new_case}
use autophage.Store.Database.{
  domain, not_found, outage, conflict, Reply, done, fails, Database, ticked, key_of, find_case,
}
use autophage.Store.Queries.{get_repository}
use autophage.Store.Cases.Creates.{create_case-conflict}
use autophage.Github.Events.{Translator, IssuesEvent, issues, Answer, troubles, failure}
use autophage.Github.Issues.{issue, made, requested, requester_of, open_in, open_case, key_in}
use autophage.Github.Translator.{Disposition, translated, disposition, translate}

-- No case changed, and the delivery is not taken for one that did something.
abbrev pub LeavesCases : Database → Database × Disposition → Type 0
LeavesCases db r = (r.0.cases ≡ db.cases) × ¬ (r.1 ≡ translated)

abbrev Idle : Database → Database × Answer → Type 0
Idle db r = LeavesCases db (r.0, disposition r.1)

new_case-key :
    (e : IssuesEvent) (r : Requester) (at : Time) (c : Case)
    → new_case e.repository e.number r at ≡ ok c
    → key_of c ≡ key_in e
unfolding new_case
new_case-key e r at c h = ground (arith, h)

module _ (t : Translator) (e : IssuesEvent) (d : Case) where
  made-Idle :
      (r : Requester) (c : Result Case) (at : Time) (db : Database)
      → new_case e.repository e.number r at ≡ c
      → find_case (key_in e) db.cases ≡ some d
      → Idle db (made t c db)
  made-Idle r (err f) at db made_by found = (refl, λ h. ground (arith, h))
  made-Idle r (ok c) at db made_by found =
      rw (create_case-conflict t.server c d db (rw (new_case-key e r at c made_by) found)) (
        if_both (λ f. Idle db (ticked db, troubles (failure f))) (t.server.down db.tick)
          (refl, λ h. ground (arith, h)) (refl, λ h. ground (arith, h)))

  requested-Idle :
      (r : Result Requester) (db : Database)
      → find_case (key_in e) db.cases ≡ some d
      → Idle db (requested t e r db)
  requested-Idle (err f) db found = (refl, λ h. ground (arith, h))
  requested-Idle (ok r) db found = made-Idle r _ (t.now db.tick) db refl found

  open_in-Idle :
      (r : Reply Repository) (db : Database)
      → find_case (key_in e) db.cases ≡ some d
      → Idle db (open_in t e r db)
  open_in-Idle (fails not_found) db found = (refl, λ h. ground (arith, h))
  open_in-Idle (fails conflict) db found = (refl, λ h. ground (arith, h))
  open_in-Idle (fails outage) db found = (refl, λ h. ground (arith, h))
  open_in-Idle (fails (domain f)) db found = (refl, λ h. ground (arith, h))
  open_in-Idle (done r) db found =
      if_both (Idle db) (not (is_enrolled r)) (refl, λ h. ground (arith, h))
        (requested-Idle (requester_of t e) db found)

  open_case-Idle :
      (db : Database) → find_case (key_in e) db.cases ≡ some d → Idle db (open_case t e db)
  unfolding open_case get_repository
  open_case-Idle db found =
      open_in-Idle (get_repository t.server e.repository db).1 (ticked db) found

issue_opened :
    (t : Translator) (id : String) (e : IssuesEvent) (db : Database)
    → e.action ≡ "opened"
    → issue t id e db ≡ open_case t e db
unfolding issue
issue_opened t id e db h = rw (issue, (str_eq_iff e.action "opened").1 h) refl

-- An `opened` event of an issue whose case is stored already, be it delivered twice or late, changes
-- no case and is never recorded as translated, whatever else the store answers.
pub translate-LeavesCases :
    (t : Translator) (id sender : String) (e : IssuesEvent) (db : Database) (c : Case)
    → e.action ≡ "opened"
    → find_case (key_in e) db.cases ≡ some c
    → LeavesCases db (translate t (record { id = id; sender_login = sender; event = issues e }) db)
unfolding translate
translate-LeavesCases t id sender e db c opened_event found =
    if_both (LeavesCases db) (not (is_blank sender) && str_eq sender t.bot_login)
      (refl, λ h. ground (arith, h))
      (subst (Idle db) (sym (issue_opened t id e db opened_event)) (open_case-Idle t e c db found))
