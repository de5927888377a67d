-- ===== src/Resolution/Case/Attempts.antt =====
-- The attempts of a case as a list: the open one, the writes to it, the ordinals.
use autophage.Base.{
  ℕ, suc, ◌+◌, ◌-◌, ◌≤◌, ◌<◌, ◌≡◌, refl, none, some, List, [], ◌∷◌, ◌++◌, length, count_if, arith,
  Bool, true, any_if, ◌||◌,
}
use mathlib.Core.Bool.{or_comm}
use autophage.Resolution.Facts.{Attempt, Run, Outcome, is_open}
use autophage.Resolution.Case.Commands.{
  open_attempt, update_open, ended_by_restart, restarted_before,
}

-- How many attempts have no outcome.
abbrev pub opens : List Attempt → ℕ
opens = count_if is_open

-- The writes of `record_run` and `record_outcome`, through the pointer to the open attempt.
abbrev pub set_run : Run → List Attempt → List Attempt
set_run r = update_open (λ x. record x { run = some r })

abbrev pub set_outcome : Outcome → List Attempt → List Attempt
set_outcome o = update_open (λ x. record x { outcome = some o })

-- Ordinals count up from `n`.
abbrev pub Numbered : ℕ → List Attempt → Type 0
Numbered n [] = Unit {0}
Numbered n (a ∷ rest) = (a.ordinal ≡ n) × Numbered (suc n) rest

pub open_attempt-none : (l : List Attempt) → open_attempt l ≡ none → opens l ≡ 0
unfolding open_attempt
open_attempt-none [] h = refl
open_attempt-none (a ∷ rest) h = ground (arith, open_attempt-none rest)

pub open_attempt-some :
    (l : List Attempt) (a : Attempt) → open_attempt l ≡ some a → (0 < opens l) × (a.outcome ≡ none)
unfolding open_attempt
open_attempt-some [] a h = ground arith
open_attempt-some (b ∷ rest) a h = ground (arith, open_attempt-some rest a)

pub opens-set_run : (r : Run) (l : List Attempt) → opens (set_run r l) ≡ opens l
unfolding update_open
opens-set_run r [] = refl
opens-set_run r (a ∷ rest) = ground (arith, opens-set_run r rest)

pub opens-set_outcome : (o : Outcome) (l : List Attempt) → opens (set_outcome o l) ≡ opens l - 1
unfolding update_open
opens-set_outcome o [] = omega arith
opens-set_outcome o (a ∷ rest) = ground (arith, opens-set_outcome o rest)

pub length-set_run : (r : Run) (l : List Attempt) → length (set_run r l) ≡ length l
unfolding update_open
length-set_run r [] = refl
length-set_run r (a ∷ rest) = ground (arith, length-set_run r rest)

pub length-set_outcome : (o : Outcome) (l : List Attempt) → length (set_outcome o l) ≡ length l
unfolding update_open
length-set_outcome o [] = refl
length-set_outcome o (a ∷ rest) = ground (arith, length-set_outcome o rest)

pub Numbered-append :
    (n : ℕ) (l : List Attempt) (a : Attempt)
    → Numbered n l
    → a.ordinal ≡ length l + n
    → Numbered n (l ++ a ∷ [])
Numbered-append n [] a h e = ground arith
Numbered-append n (b ∷ rest) a h e = (h.0, Numbered-append (suc n) rest a h.1 (ground arith))

pub Numbered-set_run :
    (n : ℕ) (r : Run) (l : List Attempt) → Numbered n l → Numbered n (set_run r l)
unfolding update_open
Numbered-set_run n r [] h = tt
Numbered-set_run n r (a ∷ rest) h = ground (arith, Numbered-set_run (suc n) r rest h.1)

pub Numbered-set_outcome :
    (n : ℕ) (o : Outcome) (l : List Attempt) → Numbered n l → Numbered n (set_outcome o l)
unfolding update_open
Numbered-set_outcome n o [] h = tt
Numbered-set_outcome n o (a ∷ rest) h = ground (arith, Numbered-set_outcome (suc n) o rest h.1)

-- Only the last attempt may be without an outcome.
abbrev pub OpenLast : List Attempt → Type 0
OpenLast [] = Unit {0}
OpenLast (a ∷ rest) = (is_open a ≡ true → rest ≡ []) × OpenLast rest

-- Some attempt ended with a daemon-restart abort.
abbrev pub restarts : List Attempt → Bool
restarts = any_if (λ a. ended_by_restart a.outcome)

pub OpenLast-append : (l : List Attempt) (a : Attempt) → opens l ≡ 0 → OpenLast (l ++ a ∷ [])
OpenLast-append [] a h = ground arith
OpenLast-append (b ∷ rest) a h = (ground arith, OpenLast-append rest a (ground arith))

pub OpenLast-set_run : (r : Run) (l : List Attempt) → OpenLast l → OpenLast (set_run r l)
unfolding update_open
OpenLast-set_run r [] h = tt
OpenLast-set_run r (a ∷ rest) h = ground (arith, OpenLast-set_run r rest)

pub OpenLast-set_outcome :
    (o : Outcome) (l : List Attempt) → OpenLast l → OpenLast (set_outcome o l)
unfolding update_open
OpenLast-set_outcome o [] h = tt
OpenLast-set_outcome o (a ∷ rest) h = ground (arith, OpenLast-set_outcome o rest)

pub restarts-set_run : (r : Run) (l : List Attempt) → restarts (set_run r l) ≡ restarts l
unfolding update_open
restarts-set_run r [] = refl
restarts-set_run r (a ∷ rest) = ground (arith, restarts-set_run r rest)

pub restarts-set_outcome :
    (o : Outcome) (l : List Attempt)
    → 0 < opens l
    → restarts (set_outcome o l) ≡ (restarts l || ended_by_restart (some o))
unfolding update_open
restarts-set_outcome o [] h = absurd (omega arith)
restarts-set_outcome o (a ∷ rest) h =
    ground (arith, restarts-set_outcome o rest, or_comm (restarts rest) (ended_by_restart (some o)))

pub restarts-append :
    (l : List Attempt) (a : Attempt) → is_open a ≡ true → restarts (l ++ a ∷ []) ≡ restarts l
restarts-append [] a h = ground arith
restarts-append (b ∷ rest) a h = ground (arith, restarts-append rest a h)

ordinal-open :
    (n : ℕ) (l : List Attempt) (a : Attempt)
    → Numbered n l
    → open_attempt l ≡ some a
    → n ≤ a.ordinal
unfolding open_attempt
ordinal-open n [] a h found = ground arith
ordinal-open n (b ∷ rest) a h found = ground (arith, ordinal-open (suc n) rest a h.1)

-- With the ordinals in order and only the last attempt open, "before the open attempt" is
-- "anywhere".
pub restarted_before-open :
    (n : ℕ) (l : List Attempt) (a : Attempt)
    → Numbered n l
    → OpenLast l
    → open_attempt l ≡ some a
    → restarted_before a.ordinal l ≡ restarts l
unfolding open_attempt restarted_before
restarted_before-open n [] a h last found = refl
restarted_before-open n (b ∷ rest) a h last found = ground (
  arith,
  last.0,
  restarted_before-open (suc n) rest a h.1 last.1,
  ordinal-open (suc n) rest a h.1,
)
