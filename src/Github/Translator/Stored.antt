-- ===== src/Github/Translator/Stored.antt =====
-- The stored cases under any deliveries.
use autophage.Base.{
  ◌&&◌, is_blank, ℤ, str_eq, not, ◌≡◌, refl, sym, subst, inl, inr, String, List, [], ◌∷◌, All,
  arith, Result, ok, err, Result-cases, Bool-cases, if_both,
}
use autophage.Resolution.Facts.{Time}
use autophage.Resolution.Requester.{Requester}
use autophage.Resolution.Repository.{is_enrolled, Repository}
use autophage.Resolution.Case.State.{Case, new_case}
use autophage.Resolution.Case.Invariant.{new_case-IsValid}
use autophage.Resolution.Case.Trace.{approves, closes, call}
use autophage.Store.Database.{
  not_found, outage, conflict, domain, Reply, done, fails, Database, Server, ticked,
}
use autophage.Store.Cases.Updates.{IsStored}
use autophage.Store.Cases.Refines.{update_case-IsStored}
use autophage.Store.Cases.Creates.{create_case-IsStored}
use autophage.Store.Queries.{get_repository}
use autophage.Store.Repositories.{enroll_repository, remove_repository}
use autophage.Github.Translator.{
  removes, enrolls, retried, translated, ignored, rejected, handle, branch_or_main, recorded,
  process, new_repository, Inbox, install_repositories, process_all, then_remove, Disposition,
  install, translate, enroll, remove,
}
use autophage.Github.Events.{
  not_subscribed, upkeep_event, unsubscribed, unparseable, failure, translates, issues,
  installation, installation_repositories, Event, Delivery, troubles, RepositoryEntry, Translator,
  IssuesEvent, Answer, answered,
}
use autophage.Github.Issues.{
  closes_with, label_approval, key_in, issue, approve_as, after_open, made, requested, requester_of,
  open_in, open_case,
}

-- What a handler keeps.
abbrev pub Keeps : Database × Answer → Type 0
Keeps r = All IsStored r.0.cases

answered-Keeps : {A : Type 0} (r : Database × Reply A) → All IsStored r.0.cases → Keeps (answered r)
answered-Keeps (db, done a) h = h
answered-Keeps (db, fails e) h = h

enroll_repository-cases :
    (server : Server) (r : Repository) (db : Database)
    → (enroll_repository server r db).0.cases ≡ db.cases
unfolding enroll_repository
enroll_repository-cases server r db =
    if_both (λ (x : Database × Reply (Unit {0})). x.0.cases ≡ db.cases) (server.down db.tick) refl
      refl

remove_repository-cases :
    (server : Server) (name : String) (at : Time) (db : Database)
    → (remove_repository server name at db).0.cases ≡ db.cases
unfolding remove_repository
remove_repository-cases server name at db =
    if_both (λ (x : Database × Reply (Unit {0})). x.0.cases ≡ db.cases) (server.down db.tick) refl
      refl

kept_by : {xs ys : List Case} → xs ≡ ys → All IsStored ys → All IsStored xs
kept_by e h = subst (λ (l : List Case). All IsStored l) (sym e) h

module _ (t : Translator) where
  made-Keeps :
      (e : IssuesEvent) (r : Requester) (c : Result Case) (db : Database)
      → new_case e.repository e.number r (t.now db.tick) ≡ c
      → All IsStored db.cases
      → Keeps (made t c db)
  made-Keeps e r (err f) db made_by h = h
  made-Keeps e r (ok c) db made_by h = answered-Keeps _ (
      create_case-IsStored t.server c db
        (new_case-IsValid e.repository e.number r (t.now db.tick) made_by) h)

  requested-Keeps :
      (e : IssuesEvent) (r : Result Requester) (db : Database)
      → All IsStored db.cases
      → Keeps (requested t e r db)
  requested-Keeps e (err f) db h = h
  requested-Keeps e (ok r) db h = made-Keeps e r _ db refl h

  open_in-Keeps :
      (e : IssuesEvent) (r : Reply Repository) (db : Database)
      → All IsStored db.cases
      → Keeps (open_in t e r db)
  open_in-Keeps e (fails f) db h = h
  open_in-Keeps e (done r) db h =
      if_both Keeps (not (is_enrolled r)) h (requested-Keeps e (requester_of t e) db h)

  pub open_case-Keeps :
      (e : IssuesEvent) (db : Database) → All IsStored db.cases → Keeps (open_case t e db)
  unfolding open_case
  open_case-Keeps e db h = open_in-Keeps e (get_repository t.server e.repository db).1 (ticked db) h

  approve_as-Keeps :
      (id : String) (e : IssuesEvent) (r : Result Requester) (db : Database)
      → All IsStored db.cases
      → Keeps (approve_as t id e r db)
  unfolding call
  approve_as-Keeps id e (err f) db h = h
  approve_as-Keeps id e (ok approver) db h = answered-Keeps _ (
      update_case-IsStored t.server (key_in e)
        (approves (label_approval id approver (t.now db.tick))) db h tt)

  after_open-Keeps :
      (id : String) (e : IssuesEvent) (r : Database × Answer)
      → Keeps r
      → Keeps (after_open t id e r)
  after_open-Keeps id e (db, troubles not_subscribed) h = h
  after_open-Keeps id e (db, troubles (failure not_found)) h = h
  after_open-Keeps id e (db, troubles (failure outage)) h = h
  after_open-Keeps id e (db, troubles (failure (domain f))) h = h
  after_open-Keeps id e (db, troubles (failure conflict)) h = approve_as-Keeps id e _ db h
  after_open-Keeps id e (db, translates) h = approve_as-Keeps id e _ db h

  issue-Keeps :
      (id : String) (e : IssuesEvent) (db : Database)
      → All IsStored db.cases
      → Keeps (issue t id e db)
  unfolding issue call
  issue-Keeps id e db h = if_both Keeps (str_eq e.action "opened") (open_case-Keeps e db h) (
      if_both Keeps (str_eq e.action "labeled")
        (if_both Keeps (str_eq e.label t.approved_label)
          (after_open-Keeps id e (open_case t e db) (open_case-Keeps e db h)) h)
        (if_both Keeps (str_eq e.action "closed")
          (answered-Keeps _ (
            update_case-IsStored t.server (key_in e) (closes (closes_with id (t.now db.tick))) db h
              tt))
          h))

  enroll-Keeps :
      (id : ℤ) (rs : List RepositoryEntry) (db : Database)
      → All IsStored db.cases
      → Keeps (enroll t id rs db)
  unfolding enroll enroll_repository
  enroll-Keeps id [] db h = h
  enroll-Keeps id (r ∷ rs) db h =
      elim (Result-cases
        (new_repository r.full_name id (branch_or_main r.default_branch) (t.now db.tick))) [
          | inr (f, refusal) ↦ rw (enroll, refusal) h
          | inl (repo, made_by) ↦ elim (Bool-cases (t.server.down db.tick)) [
            | inl down ↦
                rw (enroll, made_by, down) (kept_by (enroll_repository-cases t.server repo db) h)
            | inr up ↦
                rw (enroll, made_by, up)
                  (enroll-Keeps id rs (enroll_repository t.server repo db).0
                    (kept_by (enroll_repository-cases t.server repo db) h))
          ]
        ]

  remove-Keeps :
      (rs : List RepositoryEntry) (db : Database) → All IsStored db.cases → Keeps (remove t rs db)
  unfolding remove remove_repository
  remove-Keeps [] db h = h
  remove-Keeps (r ∷ rs) db h = elim (Bool-cases (t.server.down db.tick)) [
    | inl down ↦
        rw (remove, down)
          (kept_by (remove_repository-cases t.server r.full_name (t.now db.tick) db) h)
    | inr up ↦
        rw (remove, up)
          (remove-Keeps rs (remove_repository t.server r.full_name (t.now db.tick) db).0
            (kept_by (remove_repository-cases t.server r.full_name (t.now db.tick) db) h))
  ]

  then_remove-Keeps :
      (rs : List RepositoryEntry) (r : Database × Answer) → Keeps r → Keeps (then_remove t rs r)
  then_remove-Keeps rs (db, troubles e) h = h
  then_remove-Keeps rs (db, translates) h = remove-Keeps rs db h

  handle-Keeps :
      (id : String) (e : Event) (db : Database) → All IsStored db.cases → Keeps (handle t id e db)
  unfolding install install_repositories
  handle-Keeps id (issues e) db h = issue-Keeps id e db h
  handle-Keeps id (installation action inst rs) db h =
      if_both Keeps (enrolls action) (enroll-Keeps inst rs db h)
        (if_both Keeps (removes action) (remove-Keeps rs db h) h)
  handle-Keeps id (installation_repositories inst added removed) db h =
      then_remove-Keeps removed (enroll t inst added db) (enroll-Keeps inst added db h)
  handle-Keeps id upkeep_event db h = h
  handle-Keeps id unsubscribed db h = h
  handle-Keeps id unparseable db h = h

  translate-Keeps :
      (d : Delivery) (db : Database)
      → All IsStored db.cases
      → All IsStored (translate t d db).0.cases
  unfolding translate
  translate-Keeps d db h =
      if_both (λ (r : Database × Disposition). All IsStored r.0.cases)
        (not (is_blank d.sender_login) && str_eq d.sender_login t.bot_login) h
        (handle-Keeps d.id d.event db h)

  recorded-database :
      (id : String) (r : Disposition) (i : Inbox)
      → (recorded t id r i).database.cases ≡ i.database.cases
  recorded-database id retried i = refl
  recorded-database id translated i = ground arith
  recorded-database id ignored i = ground arith
  recorded-database id rejected i = ground arith

pub process-Keeps :
    (t : Translator) (d : Delivery) (i : Inbox)
    → All IsStored i.database.cases
    → All IsStored (process t d i).database.cases
unfolding process
process-Keeps t d i h =
    kept_by
      (recorded-database t d.id (translate t d i.database).1
        (record i { database = (translate t d i.database).0 }))
      (translate-Keeps t d i.database h)

-- Whatever deliveries are processed, in whichever order, and whatever the store answers: every
-- stored case goes on to satisfy the invariant of the aggregate, with no changes pending.
pub process_all-IsStored :
    (t : Translator) (ds : List Delivery) (i : Inbox)
    → All IsStored i.database.cases
    → All IsStored (process_all t ds i).database.cases
unfolding process_all
process_all-IsStored t [] i h = h
process_all-IsStored t (d ∷ ds) i h =
    process_all-IsStored t ds (process t d i) (process-Keeps t d i h)
