-- ===== src/App/Recovery/Listed.antt =====
-- The query of the open attempts lists every open attempt.
use autophage.Base.{
  ◌≡◌, refl, subst, ◌⊎◌, inl, inr, String, some, List, [], ◌∷◌, ◌++◌, arith, Bool-cases, ltb,
}
use autophage.Resolution.Facts.{Time, Attempt, is_open}
use autophage.Resolution.Case.State.{Case}
use autophage.Resolution.Case.Commands.{open_attempt}
use autophage.Store.Database.{CaseKey, key_of, has_key, find_case}
use autophage.Store.Rows.{has_key_sound}
use autophage.Store.Queries.{OpenAttempt, open_entries, all_open, insert_by, order_by}

-- The list names the attempt of the case.
abbrev pub Names : CaseKey → String → List OpenAttempt → Type 0
Names k id [] = ⊥
Names k id (e ∷ es) = ((e.key ≡ k) × (e.attempt_id ≡ id)) ⊎ Names k id es

Names-left :
    (k : CaseKey) (id : String) (xs ys : List OpenAttempt) → Names k id xs → Names k id (xs ++ ys)
Names-left k id [] ys h = absurd h
Names-left k id (x ∷ xs) ys (inl h) = inl h
Names-left k id (x ∷ xs) ys (inr h) = inr (Names-left k id xs ys h)

Names-right :
    (k : CaseKey) (id : String) (xs ys : List OpenAttempt) → Names k id ys → Names k id (xs ++ ys)
Names-right k id [] ys h = h
Names-right k id (x ∷ xs) ys h = inr (Names-right k id xs ys h)

Names-insert_by :
    (at : OpenAttempt → Time) (k : CaseKey) (id : String) (x : OpenAttempt) (ys : List OpenAttempt)
    → Names k id (x ∷ ys)
    → Names k id (insert_by at x ys)
unfolding insert_by
Names-insert_by at k id x [] h = h
Names-insert_by at k id x (y ∷ ys) h = elim (Bool-cases (ltb (at y) (at x))) [
  | inr first ↦ rw (insert_by, first) h
  | inl later ↦ rw (insert_by, later) (deeper (Names-insert_by at k id x ys) h)
]
  where
    deeper :
        (Names k id (x ∷ ys) → Names k id (insert_by at x ys))
        → Names k id (x ∷ y ∷ ys)
        → Names k id (y ∷ insert_by at x ys)
    deeper go (inl here) = inr (go (inl here))
    deeper go (inr (inl here)) = inl here
    deeper go (inr (inr there)) = inr (go (inr there))

pub Names-order_by :
    (at : OpenAttempt → Time) (k : CaseKey) (id : String) (xs : List OpenAttempt)
    → Names k id xs
    → Names k id (order_by at xs)
unfolding order_by
Names-order_by at k id [] h = h
Names-order_by at k id (x ∷ xs) (inl here) = Names-insert_by at k id x (order_by at xs) (inl here)
Names-order_by at k id (x ∷ xs) (inr there) =
    Names-insert_by at k id x (order_by at xs) (inr (Names-order_by at k id xs there))

Names-open_entries :
    (c : Case) (l : List Attempt) (a : Attempt)
    → open_attempt l ≡ some a
    → Names (key_of c) a.id (open_entries c l)
unfolding open_entries open_attempt
Names-open_entries c [] a h = absurd (ground (arith, h))
Names-open_entries c (b ∷ rest) a h = elim (Bool-cases (is_open b)) [
  | inl here ↦ rw (open_entries, here) (inl (refl, ground (arith, h, here)))
  | inr there ↦ rw (open_entries, there) (Names-open_entries c rest a (ground (arith, h, there)))
]

pub Names-all_open :
    (k : CaseKey) (cs : List Case) (s : Case) (a : Attempt)
    → find_case k cs ≡ some s
    → open_attempt s.attempts ≡ some a
    → Names k a.id (all_open cs)
unfolding find_case all_open
Names-all_open k [] s a h found = absurd (ground (arith, h))
Names-all_open k (c ∷ cs) s a h found = elim (Bool-cases (has_key k c)) [
  | inr differs ↦
      Names-right k a.id (open_entries c c.attempts) (all_open cs)
        (Names-all_open k cs s a (ground (arith, h, differs)) found)
  | inl same ↦ Names-left k a.id (open_entries c c.attempts) (all_open cs) (
      subst (λ j. Names j a.id (open_entries c c.attempts)) (has_key_sound k c same)
        (Names-open_entries c c.attempts a (ground (arith, h, same, found))))
]
