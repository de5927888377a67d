-- ===== src/App/Recovery/Total.antt =====
-- Recovery ends every attempt that was left open.
use autophage.Base.{
  some_same, ◌≡◌, refl, sym, ap, subst, ◌∙◌, ◌≢◌, inl, inr, ℕ, ◌-◌, String, true, false, none, some,
  List, [], ◌∷◌, All, arith, Result, ok, Bool-cases, Option-cases,
}
use autophage.Resolution.Facts.{Time, Attempt}
use autophage.Resolution.Case.State.{Case}
use autophage.Resolution.Case.Commands.{open_attempt}
use autophage.Resolution.Case.Attempts.{opens, open_attempt-some}
use autophage.Resolution.Case.Trace.{Command, call, answer}
use autophage.Resolution.Case.Persist.{InTransaction}
use autophage.Store.Database.{
  Failure, Reply, done, fails, CaseKey, key_of, has_key, Database, Server, ticked, find_case,
  put_case,
}
use autophage.Store.Rows.{
  has_key_sound, has_key-same, find_case-key, find_case-put_same, find_case-put_other, put_case-All,
  find_case-All,
}
use autophage.Store.Queries.{OpenAttempt, all_open, order_by, open_attempts}
use autophage.Store.Cases.Updates.{
  IsStored, Ends, opens-row_after, row_after, row_after-IsStored, update_case-Ends,
  update_case-accepted, row_after-key,
}
use autophage.App.Recovery.{end_attempt, one, end_all, run}
use autophage.App.Recovery.Ends.{end_attempt-ActsAt, end_attempt-ends, end_attempt-opens}
use autophage.App.Recovery.Listed.{Names, Names-order_by, Names-all_open}

-- The list names every open attempt of the database.
abbrev Covers : List OpenAttempt → Database → Type 0
Covers es db =
    (k : CaseKey) (s : Case) (a : Attempt)
    → find_case k db.cases ≡ some s
    → open_attempt s.attempts ≡ some a
    → Names k a.id es

fails_not_done : (f : Failure) (c : Case) → ¬ (fails f ≡ done c)
fails_not_done f c h = ground (arith, h)

true_not_false : ¬ (true ≡ false)
true_not_false h = ground (arith, h)

module _ (server : Server) (now : ℕ → Time) (up : (n : ℕ) → server.down n ≡ false) where
  -- The transaction of a case that has the attempt open goes through.
  accepted :
      (e : OpenAttempt) (db : Database) (s : Case) (a : Attempt)
      → All IsStored db.cases
      → find_case e.key db.cases ≡ some s
      → open_attempt s.attempts ≡ some a
      → e.attempt_id ≡ a.id
      → (c : Case) × ((one server now e db).1 ≡ done c)
  accepted e db s a h found live same = elim (end_attempt-ActsAt e.attempt_id (now db.tick) s) [
    | inl (f, refusal) ↦ absurd (ground (arith, refusal, goes_through))
    | inr (m, i, acts) ↦ (
      row_after server s m,
      ap (λ (p : Database × Reply Case). p.1)
          (update_case-accepted server e.key (end_attempt e.attempt_id (now db.tick)) db s m
            (up db.tick) found (find_case-All IsStored e.key db.cases h found) i acts
            (subst (λ (p : Case × Result (Unit {0})). p.1 ≡ ok tt) acts goes_through)),
    )
  ]
    where
      goes_through : (end_attempt e.attempt_id (now db.tick) s).1 ≡ ok tt
      goes_through =
          subst (λ id. (end_attempt id (now db.tick) s).1 ≡ ok tt) (sym same)
            (end_attempt-ends s a (now db.tick) live).0

  -- An entry that named no open attempt, or failed, is the only one that may be dropped.
  kept_entry :
      (e : OpenAttempt) (es : List OpenAttempt) (k : CaseKey) (id : String)
      → ((e.key ≡ k) → (e.attempt_id ≡ id) → ⊥)
      → Names k id (e ∷ es)
      → Names k id es
  kept_entry e es k id bars (inl (same, named)) = absurd (bars same named)
  kept_entry e es k id bars (inr there) = there

  one-Ends :
      (e : OpenAttempt) (db : Database)
      → All IsStored db.cases
      → Ends server e.key (end_attempt e.attempt_id (now db.tick)) db (one server now e db)
  one-Ends e db h =
      update_case-Ends server e.key (end_attempt e.attempt_id (now db.tick)) db h
        (end_attempt-ActsAt e.attempt_id (now db.tick))

  one-IsStored :
      (e : OpenAttempt) (db : Database)
      → All IsStored db.cases
      → All IsStored (one server now e db).0.cases
  one-IsStored e db h = elim (one-Ends e db h) [
    | inl (f, r) ↦ rw r h
    | inr (s, m, found, i, acts, ok_m, r) ↦ rw r (
        put_case-All IsStored e.key (row_after server s m) db.cases
          (row_after-IsStored server s m (find_case-All IsStored e.key db.cases h found) i) h)
  ]

  -- The row that an accepted end leaves has no open attempt.
  row-closed :
      (e : OpenAttempt) (db : Database) (s : Case) (m : Command) (a : Attempt)
      → IsStored s
      → InTransaction m
      → end_attempt e.attempt_id (now db.tick) s ≡ call m s
      → answer s m ≡ ok tt
      → ¬ (open_attempt (row_after server s m).attempts ≡ some a)
  row-closed e db s m a h i acts accepts live =
      let ended =
        subst (λ (p : Case × Result (Unit {0})). opens p.0.attempts ≡ opens s.attempts - 1) acts
          (end_attempt-opens e.attempt_id (now db.tick) s
            (ap (λ (p : Case × Result (Unit {0})). p.1) acts ∙ accepts)) in
      let some_open = open_attempt-some (row_after server s m).attempts a live in
      omega (arith, ended, some_open.0, opens-row_after server s m h i, h.valid.one_open)

  one-Covers :
      (e : OpenAttempt) (es : List OpenAttempt) (db : Database)
      → All IsStored db.cases
      → Covers (e ∷ es) db
      → Covers es (one server now e db).0
  one-Covers e es db h covers k s' a found' live = elim (one-Ends e db h) [
    | inl (f, r) ↦
        let found =
          subst (λ (p : Database × Reply Case). find_case k p.0.cases ≡ some s') r found' in
        kept_entry e es k a.id
          (λ same named.
            let (c, done_c) = accepted e db s' a h (rw same found) live named in
            fails_not_done f c (sym (ap (λ (p : Database × Reply Case). p.1) r) ∙ done_c))
          (covers k s' a found live)
    | inr (s, m, found, i, acts, accepts, r) ↦
        let row = row_after server s m in
        let own : key_of row ≡ e.key =
          row_after-key server s m ∙ find_case-key e.key db.cases s found in
        let found_row =
          subst (λ (p : Database × Reply Case). find_case k p.0.cases ≡ some s') r found' in
        let stored = find_case-All IsStored e.key db.cases h found in
        elim (Bool-cases (has_key k row)) [
          | inl same ↦
              let here =
                subst (λ j. find_case j (put_case e.key row db.cases) ≡ some row)
                  (sym own ∙ has_key_sound k row same)
                  (find_case-put_same e.key row s db.cases found own) in
              absurd (
                row-closed e db s m a stored i acts accepts (
                  subst (λ (c : Case). open_attempt c.attempts ≡ some a)
                    (some_same s' row (sym found_row ∙ here)) live))
          | inr differs ↦
              let apart : e.key ≢ k =
                λ same. true_not_false (sym (has_key-same k row (own ∙ same)) ∙ differs) in
              kept_entry e es k a.id (λ same named. apart same)
                (covers k s' a
                  (sym (find_case-put_other k e.key row db.cases own apart) ∙ found_row) live)
        ]
  ]

  end_all-Covers :
      (es : List OpenAttempt) (db : Database)
      → All IsStored db.cases
      → Covers es db
      → Covers [] (end_all server now es db)
  unfolding end_all
  end_all-Covers [] db h covers = covers
  end_all-Covers (e ∷ es) db h covers =
      end_all-Covers es (one server now e db).0 (one-IsStored e db h) (one-Covers e es db h covers)

empty_Covers :
    (db : Database) (k : CaseKey) (s : Case)
    → Covers [] db
    → find_case k db.cases ≡ some s
    → open_attempt s.attempts ≡ none
empty_Covers db k s covers found = elim (Option-cases (open_attempt s.attempts)) [
  | inl none_open ↦ none_open
  | inr (a, live) ↦ absurd (covers k s a found live)
]

run_end :
    (server : Server) (now : ℕ → Time) (db : Database)
    → server.down db.tick ≡ false
    → (run server now db).0
      ≡ end_all server now
          (order_by (λ (a : OpenAttempt). a.started_at) (all_open db.cases))
          (ticked db)
unfolding run open_attempts
run_end server now db up = rw (run, open_attempts, up) refl

-- Where no transaction of the store fails: after recovery ran on any database whose stored cases are valid, no
-- case that the store finds has an attempt without an outcome.
pub recovered_fully :
    (server : Server) (now : ℕ → Time) (db : Database) (k : CaseKey) (s : Case)
    → ((n : ℕ) → server.down n ≡ false)
    → All IsStored db.cases
    → find_case k (run server now db).0.cases ≡ some s
    → open_attempt s.attempts ≡ none
recovered_fully server now db k s up h found =
    empty_Covers (run server now db).0 k s
      (subst (Covers []) (sym (run_end server now db (up db.tick))) (
        end_all-Covers server now up _ (ticked db) h (λ j t a found' live.
          Names-order_by _ j a.id _ (Names-all_open j db.cases t a found' live))))
      found
