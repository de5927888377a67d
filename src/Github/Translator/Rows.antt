-- ===== src/Github/Translator/Rows.antt =====
-- The processing rows of deliveries.
use autophage.Base.{
  ◌≡◌, any_if, subst, arith, refl, sym, ap, ◌∙◌, inl, inr, ℕ, ℤ, String, false, ◌&&◌, not, List, [],
  ◌∷◌, ◌++◌, map, All, Result, ok, err, Result-cases, Option-cases, if_both, str_eq, is_blank,
}
use mathlib.Core.List.{append_assoc, map-append, append-nil}
use autophage.Resolution.Requester.{Requester}
use autophage.Resolution.Repository.{Repository, new_repository, is_enrolled}
use autophage.Resolution.Case.State.{Case, new_case}
use autophage.Resolution.Case.Trace.{Command, approves, closes, call, answer}
use autophage.Resolution.Case.Persist.{InTransaction}
use autophage.Store.Database.{
  find_repository, not_found, conflict, outage, domain, Reply, done, fails, Database, Server,
  CaseKey, find_case,
}
use autophage.Store.Cases.{update_case}
use autophage.Store.Cases.Updates.{
  IsStored, update_case-missing, update_case-refused, update_case-accepted,
}
use autophage.Store.Cases.Creates.{NoOutage, create_case-NoOutage}
use autophage.Github.Translator.Stored.{Keeps, open_case-Keeps, process-Keeps}
use autophage.Store.Rows.{find_case-All}
use autophage.Store.Queries.{get_repository}
use autophage.Store.Repositories.{enroll_repository, remove_repository}
use autophage.Github.Events.{
  Translator, IssuesEvent, RepositoryEntry, Event, issues, installation, installation_repositories,
  upkeep_event, unsubscribed, unparseable, Delivery, Answer, translates, troubles, failure,
  not_subscribed, answered,
}
use autophage.Github.Issues.{
  made, requested, requester_of, open_in, open_case, approve_as, after_open, issue, key_in,
  label_approval, closes_with,
}
use autophage.Github.Translator.{
  has_row, recorded, Disposition, translated, ignored, rejected, retried, disposition, Inbox,
  enroll, remove, then_remove, install, install_repositories, handle, translate, process,
  process_all, enrolls, removes, branch_or_main,
}

-- An answer that leaves a row.
abbrev pub IsFinal : Disposition → Type 0
IsFinal retried = ⊥
IsFinal _ = Unit {0}

abbrev Final : Database × Answer → Type 0
Final r = IsFinal (disposition r.1)

answered-Final : {A : Type 0} (r : Database × Reply A) → NoOutage r.1 → Final (answered r)
answered-Final (db, done a) h = tt
answered-Final (db, fails not_found) h = tt
answered-Final (db, fails conflict) h = tt
answered-Final (db, fails outage) h = h
answered-Final (db, fails (domain e)) h = tt

update_case-NoOutage :
    (server : Server) (k : CaseKey) (m : Command) (db : Database)
    → server.down db.tick ≡ false
    → All IsStored db.cases
    → InTransaction m
    → NoOutage (update_case server k (call m) db).1
update_case-NoOutage server k m db up h i = elim (Option-cases (find_case k db.cases)) [
  | inl missing ↦ rw (update_case-missing server k (call m) db up missing) tt
  | inr (s, found) ↦
      let stored = find_case-All IsStored k db.cases h found in
      elim (Result-cases (answer s m)) [
        | inr (e, refusal) ↦
            rw (update_case-refused server k (call m) db s up found stored refusal) tt
        | inl (_, e) ↦
            rw (update_case-accepted server k (call m) db s m up found stored i refl e) tt
      ]
]

module _ (t : Translator) (up : (n : ℕ) → t.server.down n ≡ false) where
  made-Final : (c : Result Case) (db : Database) → Final (made t c db)
  made-Final (err f) db = tt
  made-Final (ok c) db = answered-Final _ (create_case-NoOutage t.server c db (up db.tick))

  requested-Final :
      (e : IssuesEvent) (r : Result Requester) (db : Database) → Final (requested t e r db)
  requested-Final e (err f) db = tt
  requested-Final e (ok r) db = made-Final (new_case e.repository e.number r (t.now db.tick)) db

  open_in-Final :
      (e : IssuesEvent) (r : Reply Repository) (db : Database)
      → NoOutage r
      → Final (open_in t e r db)
  open_in-Final e (fails not_found) db h = tt
  open_in-Final e (fails conflict) db h = tt
  open_in-Final e (fails outage) db h = h
  open_in-Final e (fails (domain f)) db h = tt
  open_in-Final e (done r) db h =
      if_both Final (not (is_enrolled r)) tt (requested-Final e (requester_of t e) db)

  get_repository-NoOutage :
      (name : String) (db : Database) → NoOutage (get_repository t.server name db).1
  unfolding get_repository
  get_repository-NoOutage name db = elim (Option-cases (find_repository name db.repositories)) [
    | inl missing ↦ rw (get_repository, up db.tick, missing) tt
    | inr (r, found) ↦ rw (get_repository, up db.tick, found) tt
  ]

  open_case-Final : (e : IssuesEvent) (db : Database) → Final (open_case t e db)
  unfolding open_case
  open_case-Final e db =
      open_in-Final e (get_repository t.server e.repository db).1
        (get_repository t.server e.repository db).0 (get_repository-NoOutage e.repository db)

  approve_as-Final :
      (id : String) (e : IssuesEvent) (r : Result Requester) (db : Database)
      → All IsStored db.cases
      → Final (approve_as t id e r db)
  unfolding call
  approve_as-Final id e (err f) db h = tt
  approve_as-Final id e (ok approver) db h = answered-Final _ (
      update_case-NoOutage t.server (key_in e)
        (approves (label_approval id approver (t.now db.tick))) db (up db.tick) h tt)

  after_open-Final :
      (id : String) (e : IssuesEvent) (r : Database × Answer)
      → Keeps r
      → Final r
      → Final (after_open t id e r)
  after_open-Final id e (db, troubles not_subscribed) h k = tt
  after_open-Final id e (db, troubles (failure not_found)) h k = tt
  after_open-Final id e (db, troubles (failure outage)) h k = k
  after_open-Final id e (db, troubles (failure (domain f))) h k = tt
  after_open-Final id e (db, troubles (failure conflict)) h k = approve_as-Final id e _ db h
  after_open-Final id e (db, translates) h k = approve_as-Final id e _ db h

  issue-Final :
      (id : String) (e : IssuesEvent) (db : Database)
      → All IsStored db.cases
      → Final (issue t id e db)
  unfolding issue call
  issue-Final id e db h = if_both Final (str_eq e.action "opened") (open_case-Final e db) (
      if_both Final (str_eq e.action "labeled")
        (if_both Final (str_eq e.label t.approved_label)
          (after_open-Final id e (open_case t e db) (open_case-Keeps t e db h)
            (open_case-Final e db))
          tt)
        (if_both Final (str_eq e.action "closed")
          (answered-Final _ (
            update_case-NoOutage t.server (key_in e) (closes (closes_with id (t.now db.tick))) db
              (up db.tick) h tt))
          tt))

  enroll-Final : (id : ℤ) (rs : List RepositoryEntry) (db : Database) → Final (enroll t id rs db)
  unfolding enroll enroll_repository
  enroll-Final id [] db = tt
  enroll-Final id (r ∷ rs) db =
      elim (Result-cases
        (new_repository r.full_name id (branch_or_main r.default_branch) (t.now db.tick))) [
          | inr (f, refusal) ↦ rw (enroll, refusal) tt
          | inl (repo, made_by) ↦
              rw (enroll, made_by, up db.tick)
                (enroll-Final id rs (enroll_repository t.server repo db).0)
        ]

  remove-Final : (rs : List RepositoryEntry) (db : Database) → Final (remove t rs db)
  unfolding remove remove_repository
  remove-Final [] db = tt
  remove-Final (r ∷ rs) db =
      rw (remove, up db.tick)
        (remove-Final rs (remove_repository t.server r.full_name (t.now db.tick) db).0)

  then_remove-Final :
      (rs : List RepositoryEntry) (r : Database × Answer) → Final r → Final (then_remove t rs r)
  then_remove-Final rs (db, troubles e) h = h
  then_remove-Final rs (db, translates) h = remove-Final rs db

  handle-Final :
      (id : String) (e : Event) (db : Database) → All IsStored db.cases → Final (handle t id e db)
  unfolding install install_repositories
  handle-Final id (issues e) db h = issue-Final id e db h
  handle-Final id (installation action inst rs) db h =
      if_both Final (enrolls action) (enroll-Final inst rs db)
        (if_both Final (removes action) (remove-Final rs db) tt)
  handle-Final id (installation_repositories inst added removed) db h =
      then_remove-Final removed (enroll t inst added db) (enroll-Final inst added db)
  handle-Final id upkeep_event db h = tt
  handle-Final id unsubscribed db h = tt
  handle-Final id unparseable db h = tt

  translate-IsFinal :
      (d : Delivery) (db : Database) → All IsStored db.cases → IsFinal (translate t d db).1
  unfolding translate
  translate-IsFinal d db h =
      if_both (λ (r : Database × Disposition). IsFinal r.1)
        (not (is_blank d.sender_login) && str_eq d.sender_login t.bot_login) tt
        (handle-Final d.id d.event db h)

  recorded_row :
      (id : String) (r : Disposition) (i : Inbox)
      → IsFinal r
      → has_row id i ≡ false
      → (recorded t id r i).processings ≡ i.processings ++ (id, r) ∷ []
  recorded_row id retried i h fresh = absurd h
  recorded_row id translated i h fresh = rw (up i.database.tick, fresh) refl
  recorded_row id ignored i h fresh = rw (up i.database.tick, fresh) refl
  recorded_row id rejected i h fresh = rw (up i.database.tick, fresh) refl

  process_row :
      (d : Delivery) (i : Inbox)
      → All IsStored i.database.cases
      → has_row d.id i ≡ false
      → (process t d i).processings ≡ i.processings ++ (d.id, (translate t d i.database).1) ∷ []
  unfolding process
  process_row d i h fresh =
      recorded_row d.id (translate t d i.database).1
        (record i { database = (translate t d i.database).0 }) (translate-IsFinal d i.database h)
        fresh

-- The ids of the deliveries that have a row, in the order of the rows.
abbrev pub row_ids : Inbox → List String
row_ids i = map (λ (p : String × Disposition). p.0) i.processings

abbrev pub delivery_ids : List Delivery → List String
delivery_ids ds = map (λ (d : Delivery). d.id) ds

-- No id stands in the list twice.
abbrev pub NoRepeats : List String → Type 0
NoRepeats [] = Unit {0}
NoRepeats (id ∷ ids) = (any_if (str_eq id) ids ≡ false) × NoRepeats ids

apart :
    (id x : String) (ids rest : List String)
    → any_if (str_eq id) (ids ++ x ∷ rest) ≡ false
    → str_eq id x ≡ false
apart id x [] rest h = ground (arith, h)
apart id x (y ∷ ids) rest h = apart id x ids rest (ground (arith, h))

has_row-fresh :
    (x : String) (rows : List (String × Disposition)) (rest : List String)
    → NoRepeats (map (λ (p : String × Disposition). p.0) rows ++ x ∷ rest)
    → any_if (λ (p : String × Disposition). str_eq p.0 x) rows ≡ false
has_row-fresh x [] rest h = refl
has_row-fresh x (p ∷ rows) rest h =
    let first = apart p.0 x (map (λ (q : String × Disposition). q.0) rows) rest h.0 in
    let later = has_row-fresh x rows rest h.1 in rw (first, later) refl

-- For the daemon whose Upkeep half is not wired, so that the events of pull requests and checks are
-- ignored, and where no transaction of the store fails, be it for an outage or for a constraint of
-- the schema, as the one on the delivery of an approval: processing deliveries that have no row yet,
-- each with its own id, adds one row for each of them, in their order, and no other row; none is left
-- for a retry or holds up those behind it.
pub process_all-rows :
    (t : Translator) (ds : List Delivery) (i : Inbox)
    → ((n : ℕ) → t.server.down n ≡ false)
    → All IsStored i.database.cases
    → NoRepeats (row_ids i ++ delivery_ids ds)
    → row_ids (process_all t ds i) ≡ row_ids i ++ delivery_ids ds
unfolding process_all
process_all-rows t [] i up h fresh = sym (append-nil (row_ids i))
process_all-rows t (d ∷ ds) i up h fresh =
    let one : row_ids (process t d i) ≡ row_ids i ++ d.id ∷ [] =
      ap (map (λ (p : String × Disposition). p.0))
        (process_row t up d i h (has_row-fresh d.id i.processings (delivery_ids ds) fresh))
      ∙ map-append (λ (p : String × Disposition). p.0) i.processings
          ((d.id, (translate t d i.database).1) ∷ []) in
    let shifted : row_ids (process t d i) ++ delivery_ids ds ≡ row_ids i ++ d.id ∷ delivery_ids ds =
      ap (λ (l : List String). l ++ delivery_ids ds) one
      ∙ append_assoc (row_ids i) (d.id ∷ []) (delivery_ids ds) in
    process_all-rows t ds (process t d i) up (process-Keeps t d i h)
      (subst NoRepeats (sym shifted) fresh)
    ∙ shifted
