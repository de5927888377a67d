-- ===== src/Github/Rollup/Failures.antt =====
-- The names of the failing checks that a rollup reports.
use autophage.Base.{
  ℕ, zero, suc, ◌≡◌, refl, ℤ, pos, eqb_ℤ, true, false, not, Option, Option-cases, Bool-cases, inl,
  inr, none, some, List, [], ◌∷◌, ◌++◌, length, length-append, subst, String, All, is_blank, str_eq,
  is, arith, ◌==◌,
}
use autophage.Upkeep.Bump.Commands.{is_success}
use autophage.Github.Rollup.{
  Rollup, no_rollup, Page, Api, Flow, goes_on, leaves, faults, out_of_fuel, ◌>>=◌, Scan, scan_start,
  named, Reading, passes, fails, unfinished, read_status, read_run, scan_reading, scan_entries,
  scan_pages, conclude, check_rollup,
}

-- What holds of the value that the function goes on with, or else of the rollup that it leaves with.
abbrev Keeps : {A : Type 0} → (A → Type 0) → (Rollup → Type 0) → Flow A → Type 0
Keeps P R (goes_on a) = P a
Keeps P R (leaves r) = R r
Keeps P R faults = Unit {0}
Keeps P R out_of_fuel = Unit {0}

bind-Keeps :
    {A B : Type 0} (P : A → Type 0) (Q : B → Type 0) (R : Rollup → Type 0) (m : Flow A)
    (f : A → Flow B)
    → Keeps P R m
    → ((a : A) → P a → Keeps Q R (f a))
    → Keeps Q R (m >>= f)
bind-Keeps P Q R (goes_on a) f h k = k a h
bind-Keeps P Q R (leaves r) f h k = h
bind-Keeps P Q R faults f h k = tt
bind-Keeps P Q R out_of_fuel f h k = tt

-- Failing contexts are never blank, and there are some exactly for a failure.
pub record NamesFailures (r : Rollup) : Type 0 where
  pub none_blank : All (λ name. is_blank name ≡ false) r.failing_contexts
  pub exactly : r.conclusive ≡ true → is is_success r.conclusion ≡ (length r.failing_contexts == 0)

record IsTidy (s : Scan) : Type 0 where
  none_blank : All (λ name. is_blank name ≡ false) s.roll.failing_contexts
  some_iff : s.failed ≡ not (length s.roll.failing_contexts == 0)

no_rollup-NamesFailures : NamesFailures no_rollup
no_rollup-NamesFailures = record { none_blank = tt; exactly = λ h. ground (arith, h) }

named_not_blank : (label : String) → is_blank (named label) ≡ false
unfolding is_blank str_eq
named_not_blank label = elim (Bool-cases (is_blank label)) [
  | inl blank ↦ rw blank refl
  | inr given ↦ rw given given
]

All-snoc :
    {A : Type 0} (P : A → Type 0) (xs : List A) (x : A) → All P xs → P x → All P (xs ++ x ∷ [])
All-snoc P [] x h p = (p, tt)
All-snoc P (y ∷ ys) x h p = (h.0, All-snoc P ys x h.1 p)

scan_reading-IsTidy :
    (r : Reading) (s : Scan) → IsTidy s → Keeps IsTidy NamesFailures (scan_reading r s)
scan_reading-IsTidy passes s t = ground arith
scan_reading-IsTidy (fails label url) s t = record {
  none_blank =
      All-snoc (λ name. is_blank name ≡ false) s.roll.failing_contexts (named label) t.none_blank
        (named_not_blank label);
  some_iff = ground (arith, length-append s.roll.failing_contexts (named label ∷ []));
}
scan_reading-IsTidy unfinished s t = no_rollup-NamesFailures

scan_entries-IsTidy :
    {A : Type 0} (read : A → Reading) (xs : List A) (s : Scan)
    → IsTidy s
    → Keeps IsTidy NamesFailures (scan_entries read xs s)
unfolding scan_entries
scan_entries-IsTidy read [] s t = t
scan_entries-IsTidy read (x ∷ xs) s t =
    bind-Keeps IsTidy IsTidy NamesFailures (scan_reading (read x) s) (scan_entries read xs)
      (scan_reading-IsTidy (read x) s t) (scan_entries-IsTidy read xs)

scan_pages-IsTidy :
    {A : Type 0} (read : A → Reading) (fetch : ℤ → Option (Page A)) (fuel : ℕ) (page : ℤ) (s : Scan)
    → IsTidy s
    → Keeps (λ (_, s). IsTidy s) NamesFailures (scan_pages read fetch fuel page s)
unfolding scan_pages
scan_pages-IsTidy read fetch zero page s t = tt
scan_pages-IsTidy read fetch (suc fuel) page s t = elim (Option-cases (fetch page)) [
  | inl missing ↦ rw (scan_pages, missing) tt
  | inr (p, found) ↦
      rw (scan_pages, found)
        (bind-Keeps IsTidy (λ (_, s). IsTidy s) NamesFailures (scan_entries read p.entries s) _
          (scan_entries-IsTidy read p.entries s t)
          (λ s t. elim (Bool-cases (eqb_ℤ p.next (pos 0))) [
            | inl end ↦ rw end t
            | inr go ↦ rw go (scan_pages-IsTidy read fetch fuel p.next s t)
          ]))
]

conclude-NamesFailures :
    (m : ℤ) (k : ℕ) (n : ℤ) (s : Scan) → IsTidy s → NamesFailures (conclude m k n s)
unfolding conclude
conclude-NamesFailures m k n s t = ground (arith, t.some_iff, t.none_blank)

start-IsTidy : IsTidy scan_start
start-IsTidy = record { none_blank = tt; some_iff = refl }

check_rollup-Keeps :
    (api : Option Api) (fuel : ℕ) → Keeps (λ _. Unit {0}) NamesFailures (check_rollup fuel api)
unfolding check_rollup
check_rollup-Keeps none fuel = tt
check_rollup-Keeps (some api) fuel =
    bind-Keeps (λ (_, s). IsTidy s) (λ _. Unit {0}) NamesFailures
      (scan_pages read_status api.get_combined_status fuel (pos 0) scan_start) _
      (scan_pages-IsTidy read_status api.get_combined_status fuel (pos 0) scan_start start-IsTidy)
      (λ (m, a) t.
        bind-Keeps (λ (_, s). IsTidy s) (λ _. Unit {0}) NamesFailures
          (scan_pages read_run api.list_check_runs fuel (pos 0) a) _
          (scan_pages-IsTidy read_run api.list_check_runs fuel (pos 0) a t)
          (λ (n, s) u. conclude-NamesFailures m a.seen n s u))

-- Whatever GitHub returns: a rollup that CheckRollup returns names no failing check by an empty
-- text, and if it is conclusive, it is a success exactly if it names no failing check.
pub rollup-NamesFailures :
    (api : Option Api) (fuel : ℕ) {r : Rollup} → check_rollup fuel api ≡ leaves r → NamesFailures r
rollup-NamesFailures api fuel {r} h =
    subst (Keeps (λ (_ : Rollup). Unit {0}) NamesFailures) h (check_rollup-Keeps api fuel)
