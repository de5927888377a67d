-- ===== src/Upkeep/Bump/Rounds.antt =====
-- The rounds of a bump as a list: the open one, the writes to it, their numbers.
use autophage.Base.{
  ℕ, suc, ◌+◌, ◌-◌, ◌<◌, ◌≡◌, refl, none, some, List, [], ◌∷◌, ◌++◌, length, count_if, arith,
}
use autophage.Resolution.Facts.{Run}
use autophage.Upkeep.Facts.{RepairAttempt, RepairOutcome, is_open}
use autophage.Upkeep.Bump.Commands.{open_repair, update_open}

-- How many rounds have no outcome.
abbrev pub opens : List RepairAttempt → ℕ
opens = count_if is_open

-- The writes of `record_run` and `record_outcome`, through the pointer to the open round.
abbrev pub set_run : Run → List RepairAttempt → List RepairAttempt
set_run r = update_open (λ x. record x { run = some r })

abbrev pub set_outcome : RepairOutcome → List RepairAttempt → List RepairAttempt
set_outcome o = update_open (λ x. record x { outcome = some o })

-- Rounds count up from `n`.
abbrev pub Numbered : ℕ → List RepairAttempt → Type 0
Numbered n [] = Unit {0}
Numbered n (a ∷ rest) = (a.round ≡ n) × Numbered (suc n) rest

pub open_repair-none : (l : List RepairAttempt) → open_repair l ≡ none → opens l ≡ 0
unfolding open_repair
open_repair-none [] h = refl
open_repair-none (a ∷ rest) h = ground (arith, open_repair-none rest)

pub open_repair-some :
    (l : List RepairAttempt) (a : RepairAttempt) → open_repair l ≡ some a → 0 < opens l
unfolding open_repair
open_repair-some [] a h = ground arith
open_repair-some (b ∷ rest) a h = ground (arith, open_repair-some rest a)

pub opens-set_run : (r : Run) (l : List RepairAttempt) → opens (set_run r l) ≡ opens l
unfolding update_open
opens-set_run r [] = refl
opens-set_run r (a ∷ rest) = ground (arith, opens-set_run r rest)

pub opens-set_outcome :
    (o : RepairOutcome) (l : List RepairAttempt) → opens (set_outcome o l) ≡ opens l - 1
unfolding update_open
opens-set_outcome o [] = omega arith
opens-set_outcome o (a ∷ rest) = ground (arith, opens-set_outcome o rest)

pub length-set_run : (r : Run) (l : List RepairAttempt) → length (set_run r l) ≡ length l
unfolding update_open
length-set_run r [] = refl
length-set_run r (a ∷ rest) = ground (arith, length-set_run r rest)

pub length-set_outcome :
    (o : RepairOutcome) (l : List RepairAttempt) → length (set_outcome o l) ≡ length l
unfolding update_open
length-set_outcome o [] = refl
length-set_outcome o (a ∷ rest) = ground (arith, length-set_outcome o rest)

pub Numbered-append :
    (n : ℕ) (l : List RepairAttempt) (a : RepairAttempt)
    → Numbered n l
    → a.round ≡ length l + n
    → Numbered n (l ++ a ∷ [])
Numbered-append n [] a h e = ground arith
Numbered-append n (b ∷ rest) a h e = (h.0, Numbered-append (suc n) rest a h.1 (ground arith))

pub Numbered-set_run :
    (n : ℕ) (r : Run) (l : List RepairAttempt) → Numbered n l → Numbered n (set_run r l)
unfolding update_open
Numbered-set_run n r [] h = tt
Numbered-set_run n r (a ∷ rest) h = ground (arith, Numbered-set_run (suc n) r rest h.1)

pub Numbered-set_outcome :
    (n : ℕ) (o : RepairOutcome) (l : List RepairAttempt)
    → Numbered n l
    → Numbered n (set_outcome o l)
unfolding update_open
Numbered-set_outcome n o [] h = tt
Numbered-set_outcome n o (a ∷ rest) h = ground (arith, Numbered-set_outcome (suc n) o rest h.1)
