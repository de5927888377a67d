-- ===== src/Resolution/Case/Rows.antt =====
-- The rows of runs and outcomes that the changes of a case carry, keyed by ordinal, against the
-- writes to its open attempt.
use autophage.Base.{
  ℕ, suc, ◌+◌, ◌<◌, ◌≤◌, ◌≡◌, refl, Option, none, some, List, [], ◌∷◌, map, length, find, put,
  find-put, arith, ap,
}
use autophage.Resolution.Facts.{Run, Attempt, Outcome}
use autophage.Resolution.Case.Commands.{open_attempt, update_open}
use autophage.Resolution.Case.Attempts.{Numbered, set_run, set_outcome}

-- A new fact covers the old one.
abbrev pub or_else : {A : Type 0} → Option A → Option A → Option A
or_else (some a) old = some a
or_else none old = old

-- The rows that a run and an outcome add to an attempt, looked up by its ordinal.
abbrev pub patch : List (ℕ × Run) → List (ℕ × Outcome) → Attempt → Attempt
patch runs outcomes a = record a {
  run = or_else (find a.ordinal runs) a.run;
  outcome = or_else (find a.ordinal outcomes) a.outcome;
}

-- A write through the pointer to the open attempt is the write of its ordinal's row.
ordinal-patch :
    (n : ℕ) (runs : List (ℕ × Run)) (outcomes : List (ℕ × Outcome)) (l : List Attempt) (a : Attempt)
    → Numbered n l
    → open_attempt (map (patch runs outcomes) l) ≡ some a
    → n ≤ a.ordinal
unfolding open_attempt
ordinal-patch n runs outcomes [] a h found = ground arith
ordinal-patch n runs outcomes (b ∷ rest) a h found =
    ground (arith, ordinal-patch (suc n) runs outcomes rest a h.1)

map-patch_run_above :
    (n k : ℕ) (r : Run) (runs : List (ℕ × Run)) (outcomes : List (ℕ × Outcome)) (l : List Attempt)
    → Numbered n l
    → k < n
    → map (patch (put k r runs) outcomes) l ≡ map (patch runs outcomes) l
map-patch_run_above n k r runs outcomes [] h lt = refl
map-patch_run_above n k r runs outcomes (b ∷ rest) h lt =
    ground
      (arith, find-put k b.ordinal r runs, map-patch_run_above (suc n) k r runs outcomes rest h.1)

pub map-patch_run :
    (n : ℕ) (r : Run) (runs : List (ℕ × Run)) (outcomes : List (ℕ × Outcome)) (l : List Attempt)
    (a : Attempt)
    → Numbered n l
    → open_attempt (map (patch runs outcomes) l) ≡ some a
    → map (patch (put a.ordinal r runs) outcomes) l ≡ set_run r (map (patch runs outcomes) l)
unfolding open_attempt update_open
map-patch_run n r runs outcomes [] a h found = refl
map-patch_run n r runs outcomes (b ∷ rest) a h found = ground (
  arith,
  find-put a.ordinal b.ordinal r runs,
  map-patch_run_above (suc n) a.ordinal r runs outcomes rest h.1,
  map-patch_run (suc n) r runs outcomes rest a h.1,
  ordinal-patch (suc n) runs outcomes rest a h.1,
)

map-patch_outcome_above :
    (n k : ℕ) (o : Outcome) (runs : List (ℕ × Run)) (outcomes : List (ℕ × Outcome))
    (l : List Attempt)
    → Numbered n l
    → k < n
    → map (patch runs (put k o outcomes)) l ≡ map (patch runs outcomes) l
map-patch_outcome_above n k o runs outcomes [] h lt = refl
map-patch_outcome_above n k o runs outcomes (b ∷ rest) h lt = ground (
  arith,
  find-put k b.ordinal o outcomes,
  map-patch_outcome_above (suc n) k o runs outcomes rest h.1,
)

pub map-patch_outcome :
    (n : ℕ) (o : Outcome) (runs : List (ℕ × Run)) (outcomes : List (ℕ × Outcome)) (l : List Attempt)
    (a : Attempt)
    → Numbered n l
    → open_attempt (map (patch runs outcomes) l) ≡ some a
    → map (patch runs (put a.ordinal o outcomes)) l ≡ set_outcome o (map (patch runs outcomes) l)
unfolding open_attempt update_open
map-patch_outcome n o runs outcomes [] a h found = refl
map-patch_outcome n o runs outcomes (b ∷ rest) a h found = ground (
  arith,
  find-put a.ordinal b.ordinal o outcomes,
  map-patch_outcome_above (suc n) a.ordinal o runs outcomes rest h.1,
  map-patch_outcome (suc n) o runs outcomes rest a h.1,
  ordinal-patch (suc n) runs outcomes rest a h.1,
)

-- Rows are written only at ordinals that are in use.
abbrev pub FreshAbove : {V : Type 0} → ℕ → List (ℕ × V) → Type 0
FreshAbove n m = (k : ℕ) → n < k → find k m ≡ none

pub FreshAbove-put :
    {V : Type 0} (n k : ℕ) (v : V) (m : List (ℕ × V))
    → k ≤ n
    → FreshAbove n m
    → FreshAbove n (put k v m)
FreshAbove-put n k v m le h j lt = ground (arith, find-put k j v m, h j)

-- The open attempt is one of the numbered ones.
pub ordinal_bounds :
    (n : ℕ) (l : List Attempt) (a : Attempt)
    → Numbered n l
    → open_attempt l ≡ some a
    → a.ordinal < n + length l
unfolding open_attempt
ordinal_bounds n [] a h found = ground arith
ordinal_bounds n (b ∷ rest) a h found = ground (arith, ordinal_bounds (suc n) rest a h.1)

pub length-patch :
    (rs : List (ℕ × Run)) (os : List (ℕ × Outcome)) (l : List Attempt)
    → length (map (patch rs os) l) ≡ length l
length-patch rs os [] = refl
length-patch rs os (a ∷ rest) = ap suc (length-patch rs os rest)

pub Numbered-patch :
    (n : ℕ) (rs : List (ℕ × Run)) (os : List (ℕ × Outcome)) (l : List Attempt)
    → Numbered n (map (patch rs os) l)
    → Numbered n l
Numbered-patch n rs os [] h = tt
Numbered-patch n rs os (a ∷ rest) h = (h.0, Numbered-patch (suc n) rs os rest h.1)
