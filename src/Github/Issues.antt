-- ===== src/Github/Issues.antt =====
-- internal/github/translate.go: the events of an issue, as calls on its case.
use autophage.Base.{String, not, if◌then◌else◌, str_eq, Result, ok, err, known}
use autophage.Resolution.Enums.{
  association_text, association_collaborator, source_label, parse_association,
}
use autophage.Resolution.Requester.{Requester, new_requester}
use autophage.Resolution.Repository.{Repository, is_enrolled}
use autophage.Resolution.Facts.{Time, Approval, Closure}
use autophage.Resolution.Case.State.{Case, new_case}
use autophage.Resolution.Case.Commands.{record_approval, close}
use autophage.Store.Database.{not_found, outage, domain, Reply, done, fails, CaseKey, Database}
use autophage.Store.Cases.{create_case, update_case}
use autophage.Store.Queries.{get_repository}
use autophage.Github.Events.{
  IssuesEvent, Translator, not_subscribed, failure, Answer, troubles, Handler, answered,
}

abbrev pub made : Translator → Result Case → Handler
made t (err e) db = (db, troubles (failure (domain e)))
made t (ok c) db = let r = create_case t.server c db in answered (r.0.0, r.1)

abbrev pub requested : Translator → IssuesEvent → Result Requester → Handler
requested t e (err f) db = (db, troubles (failure (domain f)))
requested t e (ok r) db = made t (new_case e.repository e.number r (t.now db.tick)) db

-- ParseAssociation, and NewRequester on what it returned.
abbrev pub requester_of : Translator → IssuesEvent → Result Requester
requester_of t e = elim (parse_association t.lower e.author_association) [
  | err f ↦ err f
  | ok a ↦ new_requester t.lower e.author_login (association_text a)
]

abbrev pub open_in : Translator → IssuesEvent → Reply Repository → Handler
open_in t e (fails f) db = (db, troubles (failure f))
open_in t e (done r) db =
    if not (is_enrolled r)
    then (db, troubles (failure not_found))
    else requested t e (requester_of t e) db

-- open creates the case for the event's issue.
unfoldable pub open_case : Translator → IssuesEvent → Handler
unfolding get_repository new_requester new_case create_case
open_case t e db = let r = get_repository t.server e.repository db in open_in t e r.1 r.0

abbrev pub key_in : IssuesEvent → CaseKey
key_in e = record { repository = e.repository; number = e.number }

abbrev pub label_approval : String → Requester → Time → Approval
label_approval delivery_id approver at = record {
  id = "";
  approver = approver;
  source = known source_label;
  approved_at = at;
  delivery_id = delivery_id;
}

abbrev pub approve_as : Translator → String → IssuesEvent → Result Requester → Handler
approve_as t id e (err f) db = (db, troubles (failure (domain f)))
approve_as t id e (ok approver) db = answered (
    update_case t.server (key_in e) (record_approval (label_approval id approver (t.now db.tick)))
      db)

-- A conflict is what was wanted; any other error of `open` ends the delivery.
abbrev pub after_open : Translator → String → IssuesEvent → Database × Answer → Database × Answer
after_open t id e (db, troubles not_subscribed) = (db, troubles not_subscribed)
after_open t id e (db, troubles (failure not_found)) = (db, troubles (failure not_found))
after_open t id e (db, troubles (failure outage)) = (db, troubles (failure outage))
after_open t id e (db, troubles (failure (domain f))) = (db, troubles (failure (domain f)))
after_open t id e (db, _) =
    approve_as t id e
      (new_requester t.lower e.sender_login (association_text association_collaborator)) db

abbrev pub closes_with : String → Time → Closure
closes_with id at = record { delivery_id = id; closed_at = at }

-- issue.
unfoldable pub issue : Translator → String → IssuesEvent → Handler
unfolding open_case update_case record_approval close
issue t id e db =
    if str_eq e.action "opened"
    then open_case t e db
    else if str_eq e.action "labeled"
    then (if str_eq e.label t.approved_label
        then after_open t id e (open_case t e db)
        else (db, troubles not_subscribed))
    else if str_eq e.action "closed"
    then answered (update_case t.server (key_in e) (close (closes_with id (t.now db.tick))) db)
    else (db, troubles not_subscribed)
