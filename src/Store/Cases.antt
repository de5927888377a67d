-- ===== src/Store/Cases.antt =====
-- internal/store/cases.go: a case is created, and updated by one method in one transaction.
pub mod Names
pub mod Updates
pub mod Refines
pub mod Creates
use autophage.Base.{
  ℕ, suc, length, Spelling, known, if◌then◌else◌, String, Bool, true, false, Option, none, some,
  List, [], ◌∷◌, ◌++◌, map, Result, ok, err, Method, ◌>>=◌, ◌>>◌,
}
use autophage.Resolution.Facts.{Attempt, Approval}
use autophage.Resolution.Enums.{ApprovalSource, source_label}
use autophage.Resolution.Case.State.{Case, Changes, load_case, assign_id, clear_changes}
use autophage.Resolution.Case.Persist.{replay}
use autophage.Resolution.Case.Reload.{snapshot_of}
use autophage.Store.Database.{
  Failure, not_found, conflict, domain, Reply, done, fails, CaseKey, key_of, Database, Server,
  Access, tx, find_case, put_case,
}

-- The id that the database generates for an inserted attempt.
abbrev pub identify : Server → String → Attempt → Attempt
identify server case_id a = record a { id = server.attempt_id case_id a.ordinal }

abbrev pub is_label : Spelling ApprovalSource → Bool
is_label (known source_label) = true
is_label _ = false

-- An inserted approval as it is read back: the database generates its id, and the table of
-- deliveries has a row for it only if a label gave it.
abbrev pub stored_approval : String → Approval → Approval
stored_approval id a = record a {
  id = id;
  delivery_id = if is_label a.source then a.delivery_id else "";
}

abbrev pub stored_approvals : Server → String → ℕ → List Approval → List Approval
stored_approvals server case_id n [] = []
stored_approvals server case_id n (a ∷ l) =
    stored_approval (server.approval_id case_id n) a ∷ stored_approvals server case_id (suc n) l

-- persistChanges: the rows of the case, once the changes are written.
unfoldable pub persist_changes : Server → Case → Changes → Case
persist_changes server s ch = replay s (record ch {
  approvals = stored_approvals server s.id (length s.approvals) ch.approvals;
  attempts = map (identify server s.id) ch.attempts;
})

-- The last `loadCase` of the transaction that wrote `db`.
abbrev loaded : Database → Database → Result Case → Database × Reply Case
loaded before db (err e) = (before, fails (domain e))
loaded before db (ok c) = (db, done c)

-- What the method left and returned decides on the writes.
abbrev written : Server → CaseKey → Case → Case → Result (Unit {0}) → Access Case
written server k s c (err e) db = (db, fails (domain e))
written server k s c (ok _) db =
    let s' = persist_changes server s c.changes in
    loaded db (record db { cases = put_case k s' db.cases }) (load_case (snapshot_of s'))

abbrev called : Server → CaseKey → Method Case (Unit {0}) → Case → Result Case → Access Case
called server k f s (err e) db = (db, fails (domain e))
called server k f s (ok c) db = written server k s (f c).0 (f c).1 db

abbrev update_row : Server → CaseKey → Method Case (Unit {0}) → Option Case → Access Case
update_row server k f none db = (db, fails not_found)
update_row server k f (some s) db = called server k f s (load_case (snapshot_of s)) db

-- UpdateCase loads the case of the key, calls the method, writes its changes and loads again.
unfoldable pub update_case : Server → CaseKey → Method Case (Unit {0}) → Access Case
unfolding find_case put_case persist_changes load_case
update_case server k f = tx server (λ db. update_row server k f (find_case k db.cases) db)

abbrev insert_unless : Server → Case → Option Case → Access String
insert_unless server c (some d) db = (db, fails conflict)
insert_unless server c none db =
    let id = server.case_id db.tick in
    (record db { cases = db.cases ++ record (clear_changes c).0 { id = id } ∷ [] }, done id)

-- The transaction of CreateCase on a new case, which has no facts beyond its row yet; without the caller's aggregate.
abbrev pub insert_case : Server → Case → Access String
insert_case server c db = insert_unless server c (find_case (key_of c) db.cases) db

abbrev told : Case → Database × Reply String → (Database × Case) × Reply (Unit {0})
told c (db, fails e) = ((db, c), fails e)
told c (db, done id) =
    let (c', answer) = assign_id id c in
    elim answer [
      | err e ↦ ((db, c'), fails (domain e))
      | ok _ ↦ ((db, (clear_changes c').0), done tt)
    ]

-- CreateCase inserts the case; only then is the aggregate told its id.
unfoldable pub create_case : Server → Case → Database → (Database × Case) × Reply (Unit {0})
unfolding find_case assign_id clear_changes
create_case server c db = told c (tx server (insert_case server c) db)
