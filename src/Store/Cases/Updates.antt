-- ===== src/Store/Cases/Updates.antt =====
-- What a transaction of the store does to the stored cases.
use autophage.Base.{
  Option-cases, Bool-cases, ◌≡◌, refl, sym, ap, subst, ◌∙◌, ◌⊎◌, inl, inr, true, false, none, some,
  [], ◌∷◌, Result, ok, err, Error, Method, Result-cases, arith, All,
}
use autophage.Resolution.Case.State.{Case, no_changes, clear_changes, load_case}
use autophage.Resolution.Case.Invariant.{IsValid, call-IsValid}
use autophage.Resolution.Case.Trace.{Command, call, left_by, answer, run_calls}
use autophage.Resolution.Case.Persist.{InTransaction, replay_lem}
use autophage.Resolution.Case.Reload.{snapshot_of, load_of-IsValid}
use autophage.Store.Database.{
  outage, Failure, not_found, domain, Reply, done, fails, CaseKey, Database, Server, ticked,
  find_case, put_case,
}
use autophage.Store.Rows.{find_case-All}
use autophage.Store.Cases.{key_of, persist_changes, update_case}
use autophage.Resolution.Case.Attempts.{opens}
use autophage.Store.Cases.Names.{
  opens-unnamed, nameless, persist_changes-nameless, nameless-IsValid, named-IsValid,
}

-- A stored case: it satisfies the invariant of the aggregate and has no changes pending.
pub record IsStored (c : Case) : Type 0 where
  pub valid : IsValid c
  pub clean : c.changes ≡ no_changes c.state

pub loads : (c : Case) → IsStored c → load_case (snapshot_of c) ≡ ok c
unfolding clear_changes
loads c h = ground (arith, load_of-IsValid c h.valid, h.clean)

-- The row that a command leaves.
abbrev pub row_after : Server → Case → Command → Case
row_after server s m = persist_changes server s (left_by s m).changes

pub row_after-nameless :
    (server : Server) (s : Case) (m : Command)
    → IsStored s
    → InTransaction m
    → nameless (row_after server s m) ≡ nameless (clear_changes (left_by s m)).0
unfolding run_calls
row_after-nameless server s m h k =
    persist_changes-nameless server s (left_by s m).changes
    ∙ ap nameless (replay_lem s (m ∷ []) h.valid h.clean (k, tt))

cleared-IsValid : (c : Case) → IsValid c → IsValid (clear_changes c).0
unfolding clear_changes
cleared-IsValid c v = ground arith

pub row_after-IsStored :
    (server : Server) (s : Case) (m : Command)
    → IsStored s
    → InTransaction m
    → IsStored (row_after server s m)
unfolding persist_changes
row_after-IsStored server s m h k = record {
  valid = named-IsValid _ (
      subst IsValid (sym (row_after-nameless server s m h k))
        (nameless-IsValid _ (cleared-IsValid (left_by s m) (call-IsValid s m h.valid))));
  clean = refl;
}

pub row_after-key :
    (server : Server) (s : Case) (m : Command) → key_of (row_after server s m) ≡ key_of s
unfolding persist_changes
row_after-key server s m = refl

pub opens-row_after :
    (server : Server) (s : Case) (m : Command)
    → IsStored s
    → InTransaction m
    → opens (row_after server s m).attempts ≡ opens (left_by s m).attempts
unfolding clear_changes
opens-row_after server s m h i =
    sym (opens-unnamed (row_after server s m).attempts)
    ∙ ap (λ (c : Case). opens c.attempts) (row_after-nameless server s m h i)
    ∙ opens-unnamed (left_by s m).attempts

-- A method that fails at this case, or acts on it as a command of a transaction.
abbrev pub ActsAt : Method Case (Unit {0}) → Case → Type 0
ActsAt f s =
    ((e : Error) × ((f s).1 ≡ err e)) ⊎ ((m : Command) × InTransaction m × (f s ≡ call m s))

-- The two ends of an update: an error, and the rows as before; or the row that the command leaves.
abbrev pub Ends :
    Server → CaseKey → Method Case (Unit {0}) → Database → Database × Reply Case → Type 0
Ends server k f db r =
    ((e : Failure) × (r ≡ (ticked db, fails e)))
    ⊎ ((s : Case) × (m : Command) × (find_case k db.cases ≡ some s)
        × InTransaction m
        × (f s ≡ call m s)
        × (answer s m ≡ ok tt)
        × (r ≡ (
          record (ticked db) { cases = put_case k (row_after server s m) db.cases },
          done (row_after server s m),
        )))

module _ (server : Server) (k : CaseKey) (f : Method Case (Unit {0})) (db : Database) where
  pub update_case-down :
      server.down db.tick ≡ true → update_case server k f db ≡ (ticked db, fails outage)
  unfolding update_case
  update_case-down down = rw (update_case, down) refl

  pub update_case-missing :
      server.down db.tick ≡ false
      → find_case k db.cases ≡ none
      → update_case server k f db ≡ (ticked db, fails not_found)
  unfolding update_case
  update_case-missing up missing = rw (update_case, up, missing) refl

  -- A method that refuses rolls everything back.
  pub update_case-refused :
      (s : Case) {e : Error}
      → server.down db.tick ≡ false
      → find_case k db.cases ≡ some s
      → IsStored s
      → (f s).1 ≡ err e
      → update_case server k f db ≡ (ticked db, fails (domain e))
  unfolding update_case
  update_case-refused s up found h refusal = rw (update_case, up, found, loads s h, refusal) refl

  pub update_case-accepted :
      (s : Case) (m : Command)
      → server.down db.tick ≡ false
      → find_case k db.cases ≡ some s
      → IsStored s
      → InTransaction m
      → f s ≡ call m s
      → answer s m ≡ ok tt
      → update_case server k f db ≡ (
        record (ticked db) { cases = put_case k (row_after server s m) db.cases },
        done (row_after server s m),
      )
  unfolding update_case
  update_case-accepted s m up found h i acts e =
      rw
        (
          update_case,
          up,
          found,
          loads s h,
          acts,
          e,
          loads (row_after server s m) (row_after-IsStored server s m h i),
        )
        refl

  found-Ends :
      (s : Case)
      → server.down db.tick ≡ false
      → find_case k db.cases ≡ some s
      → IsStored s
      → ActsAt f s
      → Ends server k f db (update_case server k f db)
  found-Ends s up found h (inl (e, refusal)) =
      inl (domain e, update_case-refused s up found h refusal)
  found-Ends s up found h (inr (m, i, acts)) = elim (Result-cases (answer s m)) [
    | inl (_, e) ↦ inr (s, m, found, i, acts, e, update_case-accepted s m up found h i acts e)
    | inr (e, refusal) ↦ inl (
      domain e,
      update_case-refused s up found h (ap (λ (p : Case × Result (Unit {0})). p.1) acts ∙ refusal),
    )
  ]

  pub update_case-Ends :
      All IsStored db.cases
      → ((s : Case) → ActsAt f s)
      → Ends server k f db (update_case server k f db)
  update_case-Ends h acts = elim (Bool-cases (server.down db.tick)) [
    | inl down ↦ inl (outage, update_case-down down)
    | inr up ↦ elim (Option-cases (find_case k db.cases)) [
      | inl missing ↦ inl (not_found, update_case-missing up missing)
      | inr (s, found) ↦ found-Ends s up found (find_case-All IsStored k db.cases h found) (acts s)
    ]
  ]
