-- ===== src/Store/Cases/Refines.antt =====
-- The store of cases as what it promises: a map from keys to cases, on which an update is the
-- method, all or nothing.
use autophage.Base.{refl, inl, inr, Option, none, some, Bool, All, ok, err, Result, if◌then◌else◌}
use autophage.Resolution.Case.State.{Case, clear_changes}
use autophage.Resolution.Case.Trace.{Command, call, left_by, answer}
use autophage.Resolution.Case.Persist.{InTransaction}
use autophage.Store.Database.{Server, CaseKey, Database, find_case}
use autophage.Store.Rows.{put_case-All, find_case-All}
use autophage.Store.Cases.{update_case}
use autophage.Store.Cases.Names.{nameless}
use autophage.Store.Cases.Updates.{
  ActsAt, IsStored, row_after, row_after-IsStored, update_case-Ends,
}

abbrev shown : Option Case → Option Case
shown none = none
shown (some c) = some (nameless c)

-- What the map holds under a key.
abbrev pub view : Database → CaseKey → Option Case
view db k = shown (find_case k db.cases)

-- The case in memory after the method, or, where it refused or the database failed, as before.
abbrev kept : Case → Command → Result (Unit {0}) → Case
kept s m (ok _) = nameless (clear_changes (left_by s m)).0
kept s m (err e) = nameless s

abbrev pub promised : Bool → Case → Command → Case
promised down s m = if down then nameless s else kept s m (answer s m)

acts : (m : Command) → InTransaction m → (s : Case) → ActsAt (call m) s
acts m i s = inr (m, i, refl)

-- Every stored case satisfies the invariant of the aggregate and has no changes pending, and so it
-- is after an update.
pub update_case-IsStored :
    (server : Server) (k : CaseKey) (m : Command) (db : Database)
    → All IsStored db.cases
    → InTransaction m
    → All IsStored (update_case server k (call m) db).0.cases
update_case-IsStored server k m db h i = elim (update_case-Ends server k (call m) db h (acts m i)) [
  | inl (e, r) ↦ rw r h
  | inr (s, m', found, i', acts, e, r) ↦ rw r (
      put_case-All IsStored k (row_after server s m') db.cases
        (row_after-IsStored server s m' (find_case-All IsStored k db.cases h found) i') h)
]
