-- ===== src/Store/Cases/Creates.antt =====
-- What CreateCase does to the stored cases.
use autophage.Base.{
  false, if◌then◌else◌, ◌≡◌, refl, inl, inr, String, Option, none, some, All, All-append, arith,
  Bool-cases, if_both,
}
use autophage.Resolution.Case.State.{Case, assign_id, clear_changes}
use autophage.Resolution.Case.Invariant.{IsValid}
use autophage.Store.Database.{
  domain, not_found, outage, key_of, Reply, done, fails, Database, Server, ticked, tx, find_case,
}
use autophage.Store.Cases.{conflict, create_case, insert_case, insert_unless, told}
use autophage.Store.Cases.Updates.{IsStored}

inserted-IsStored :
    (c : Case) (id : String) → IsValid c → IsStored (record (clear_changes c).0 { id = id })
unfolding clear_changes
inserted-IsStored c id v = record { valid = ground (arith, v); clean = refl }

told-cases : (c : Case) (r : Database × Reply String) → (told c r).0.0.cases ≡ r.0.cases
unfolding assign_id
told-cases c (db, fails e) = refl
told-cases c (db, done id) = ground arith

insert_unless-IsStored :
    (server : Server) (c : Case) (o : Option Case) (db : Database)
    → IsValid c
    → All IsStored db.cases
    → All IsStored (insert_unless server c o db).0.cases
insert_unless-IsStored server c (some d) db v h = h
insert_unless-IsStored server c none db v h =
    All-append IsStored db.cases _ h (inserted-IsStored c (server.case_id db.tick) v, tt)

-- A case that the domain made is stored as the invariant asks.
pub create_case-IsStored :
    (server : Server) (c : Case) (db : Database)
    → IsValid c
    → All IsStored db.cases
    → All IsStored (create_case server c db).0.0.cases
unfolding create_case
create_case-IsStored server c db v h = rw (told-cases c (tx server (insert_case server c) db)) (
    if_both (λ (r : Database × Reply String). All IsStored r.0.cases) (server.down db.tick) h
      (insert_unless-IsStored server c (find_case (key_of c) db.cases) (ticked db) v h))

-- A key that is taken makes no row.
pub create_case-conflict :
    (server : Server) (c d : Case) (db : Database)
    → find_case (key_of c) db.cases ≡ some d
    → create_case server c db
      ≡ ((ticked db, c), fails (if server.down db.tick then outage else conflict))
unfolding create_case
create_case-conflict server c d db found = elim (Bool-cases (server.down db.tick)) [
  | inl down ↦ rw (create_case, down) refl
  | inr up ↦ rw (create_case, up, found) refl
]

-- With a store that answers, a case is created, or is there, or has an id that the domain refuses.
abbrev pub NoOutage : {A : Type 0} → Reply A → Type 0
NoOutage (done a) = Unit {0}
NoOutage (fails outage) = ⊥
NoOutage (fails _) = Unit {0}

told-NoOutage : (c : Case) (r : Database × Reply String) → NoOutage r.1 → NoOutage (told c r).1
unfolding assign_id
told-NoOutage c (db, fails not_found) h = tt
told-NoOutage c (db, fails conflict) h = tt
told-NoOutage c (db, fails outage) h = h
told-NoOutage c (db, fails (domain e)) h = tt
told-NoOutage c (db, done id) h = ground arith

insert_unless-NoOutage :
    (server : Server) (c : Case) (o : Option Case) (db : Database)
    → NoOutage (insert_unless server c o db).1
insert_unless-NoOutage server c (some d) db = tt
insert_unless-NoOutage server c none db = tt

pub create_case-NoOutage :
    (server : Server) (c : Case) (db : Database)
    → server.down db.tick ≡ false
    → NoOutage (create_case server c db).1
unfolding create_case
create_case-NoOutage server c db up =
    rw (create_case, up)
      (told-NoOutage c (insert_unless server c (find_case (key_of c) db.cases) (ticked db))
        (insert_unless-NoOutage server c (find_case (key_of c) db.cases) (ticked db)))
