-- ===== src/Github/Translator.antt =====
-- internal/github/translate.go: stored deliveries, with one processing row each. This is the translator
-- of a daemon whose Upkeep half is not wired (`Rollup == nil`), which ignores the events of pull
-- requests and checks.
pub mod Stored
pub mod Repeats
pub mod Rows
use autophage.Base.{
  ℕ, ◌+◌, ℤ, String, Bool, true, false, ◌&&◌, ◌||◌, not, Option, none, some, List, [], ◌∷◌, ◌++◌,
  any_if, if◌then◌else◌, is_blank, str_eq, Error, invalid, refused, Result, ok, err, Method, known,
}
use autophage.Resolution.Enums.{
  association_text, association_collaborator, source_label, parse_association,
}
use autophage.Resolution.Requester.{Requester, new_requester}
use autophage.Resolution.Repository.{Repository, new_repository, is_enrolled}
use autophage.Resolution.Facts.{Time, Approval, Closure}
use autophage.Resolution.Case.State.{Case, new_case}
use autophage.Resolution.Case.Commands.{record_approval, close}
use autophage.Store.Database.{
  ticked, Failure, not_found, conflict, outage, domain, Reply, done, fails, CaseKey, Database,
  ticked, Server, Access,
}
use autophage.Store.Cases.{create_case, update_case}
use autophage.Store.Queries.{get_repository}
use autophage.Store.Repositories.{enroll_repository, remove_repository}
use autophage.Github.Events.{
  IssuesEvent, RepositoryEntry, Event, issues, installation, installation_repositories,
  upkeep_event, unsubscribed, unparseable, Delivery, Translator, Trouble, not_subscribed, failure,
  Answer, translates, troubles, Handler, answered,
}
use autophage.Github.Issues.{issue}

abbrev branch_or_main : String → String
branch_or_main b = if is_blank b then "main" else b

-- enroll records each repository, up to the first failure.
unfoldable pub enroll : Translator → ℤ → List RepositoryEntry → Handler
unfolding enroll_repository new_repository
enroll t id [] db = (db, translates)
enroll t id (r ∷ rs) db =
    elim (new_repository r.full_name id (branch_or_main r.default_branch) (t.now db.tick)) [
      | err f ↦ (db, troubles (failure (domain f)))
      | ok repo ↦
          let (db', reply) = enroll_repository t.server repo db in
          elim reply [ fails f ↦ (db', troubles (failure f)) | done _ ↦ enroll t id rs db' ]
    ]

-- remove, up to the first failure.
unfoldable pub remove : Translator → List RepositoryEntry → Handler
unfolding remove_repository
remove t [] db = (db, translates)
remove t (r ∷ rs) db =
    let (db', reply) = remove_repository t.server r.full_name (t.now db.tick) db in
    elim reply [ fails f ↦ (db', troubles (failure f)) | done _ ↦ remove t rs db' ]

abbrev enrolls : String → Bool
enrolls action =
    str_eq action "created" || str_eq action "unsuspend" || str_eq action "new_permissions_accepted"

abbrev removes : String → Bool
removes action = str_eq action "deleted" || str_eq action "suspend"

-- installation.
unfoldable pub install : Translator → String → ℤ → List RepositoryEntry → Handler
unfolding enroll remove
install t action id rs db =
    if enrolls action
    then enroll t id rs db
    else if removes action
    then remove t rs db
    else (db, troubles not_subscribed)

abbrev pub then_remove : Translator → List RepositoryEntry → Database × Answer → Database × Answer
then_remove t rs (db, troubles e) = (db, troubles e)
then_remove t rs (db, translates) = remove t rs db

-- installationRepositories.
unfoldable pub install_repositories :
    Translator → ℤ → List RepositoryEntry → List RepositoryEntry → Handler
unfolding enroll remove
install_repositories t id added removed db = then_remove t removed (enroll t id added db)

-- The result of a processing row; `retried` stands for the empty one, which leaves none.
pub data Disposition : Type 0 where
  translated ignored rejected retried : Disposition

-- The last switch of `translate`.
abbrev pub disposition : Answer → Disposition
disposition translates = translated
disposition (troubles not_subscribed) = ignored
disposition (troubles (failure not_found)) = ignored
disposition (troubles (failure conflict)) = ignored
disposition (troubles (failure (domain e))) = rejected
disposition (troubles (failure outage)) = retried

abbrev pub handle : Translator → String → Event → Handler
handle t id (issues e) db = issue t id e db
handle t id (installation action inst rs) db = install t action inst rs db
handle t id (installation_repositories inst added removed) db =
    install_repositories t inst added removed db
handle t id _ db = (db, troubles not_subscribed)

-- translate: an own event is ignored before it is parsed.
unfoldable pub translate : Translator → Delivery → Database → Database × Disposition
unfolding issue install install_repositories
translate t d db =
    if not (is_blank d.sender_login) && str_eq d.sender_login t.bot_login
    then (db, ignored)
    else let r = handle t d.id d.event db in (r.0, disposition r.1)

-- The database with the rows of webhook_delivery_processings.
pub record Inbox : Type 0 where
  pub database : Database
  pub processings : List (String × Disposition)

-- `delivery_id` is the primary key of the rows.
abbrev pub has_row : String → Inbox → Bool
has_row id i = any_if (λ (p : String × Disposition). str_eq p.0 id) i.processings

-- RecordProcessing: a delivery that has a row gets no second one.
abbrev pub record_processing : Server → String → Disposition → Inbox → Inbox
record_processing server id r i =
    if server.down i.database.tick || has_row id i
    then record i { database = ticked i.database }
    else record { database = ticked i.database; processings = i.processings ++ (id, r) ∷ [] }

abbrev pub recorded : Translator → String → Disposition → Inbox → Inbox
recorded t id retried i = i
recorded t id r i = record_processing t.server id r i

-- Process: a store failure leaves no row, so that the next scan tries again.
unfoldable pub process : Translator → Delivery → Inbox → Inbox
unfolding translate
process t d i =
    let r = translate t d i.database in recorded t d.id r.1 (record i { database = r.0 })

-- The loop of ProcessPending over the deliveries without a row.
unfoldable pub process_all : Translator → List Delivery → Inbox → Inbox
unfolding process
process_all t [] i = i
process_all t (d ∷ ds) i = process_all t ds (process t d i)
