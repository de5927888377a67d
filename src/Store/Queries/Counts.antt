-- ===== src/Store/Queries/Counts.antt =====
-- How many rows a query returns.
use autophage.Base.{◌≡◌, refl, ◌+◌, List, [], ◌∷◌, length, length-append, arith}
use autophage.Resolution.Facts.{Time, Attempt}
use autophage.Resolution.Case.State.{Case}
use autophage.Resolution.Case.Attempts.{opens}
use autophage.Store.Rows.{open_total}
use autophage.Store.Queries.{insert_by, order_by, open_entries, all_open}

length-insert_by :
    {A : Type 0} (at : A → Time) (x : A) (ys : List A) → length (insert_by at x ys) ≡ length ys + 1
unfolding insert_by
length-insert_by at x [] = refl
length-insert_by at x (y ∷ ys) = ground (arith, length-insert_by at x ys)

pub length-order_by :
    {A : Type 0} (at : A → Time) (xs : List A) → length (order_by at xs) ≡ length xs
unfolding order_by
length-order_by at [] = refl
length-order_by at (x ∷ xs) =
    ground (arith, length-insert_by at x (order_by at xs), length-order_by at xs)

length-open_entries : (c : Case) (l : List Attempt) → length (open_entries c l) ≡ opens l
unfolding open_entries
length-open_entries c [] = refl
length-open_entries c (a ∷ rest) = ground (arith, length-open_entries c rest)

pub length-all_open : (cs : List Case) → length (all_open cs) ≡ open_total cs
unfolding all_open
length-all_open [] = refl
length-all_open (c ∷ cs) = ground (
  arith,
  length-append (open_entries c c.attempts) (all_open cs),
  length-open_entries c c.attempts,
  length-all_open cs,
)
