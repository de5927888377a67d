-- ===== src/Github/Rollup.antt =====
-- internal/github/rollup.go: `CheckRollup`, which combines the commit statuses and the check runs of
pub mod Summary
pub mod Success
pub mod Failures
-- one head into a verdict.
use autophage.Base.{
  ℕ, zero, suc, ◌+◌, ◌-◌, ℤ, pos, ltb_ℤ, eqb_ℤ, String, Bool, true, false, ◌||◌, not, Option, none,
  some, List, [], ◌∷◌, ◌++◌, if◌then◌else◌, is_blank, str_eq, Spelling, known, blank, ◌==◌,
}
use autophage.Upkeep.Enums.{CheckConclusion, check_success, check_failure}

pub record Rollup : Type 0 where
  pub conclusive : Bool
  pub conclusion : Spelling CheckConclusion
  pub failing_contexts : List String
  pub details_url : String

-- `Rollup{}`: nothing is concluded.
abbrev pub no_rollup : Rollup
no_rollup = record {
  conclusive = false;
  conclusion = blank;
  failing_contexts = [];
  details_url = "";
}

-- What the code reads of go-github's RepoStatus and CheckRun, and of one page of a listing. A
-- response that is nil counts as one whose `next` is 0.
pub record Status : Type 0 where
  pub state : String
  pub context : String
  pub target_url : String

pub record CheckRun : Type 0 where
  pub status : String
  pub conclusion : String
  pub name : String
  pub html_url : String

pub record Page (A : Type 0) : Type 0 where
  pub total : ℤ
  pub entries : List A
  pub next : ℤ

-- go-github's client for the repository and the head: what a request for a page returns, where
-- `none` is an error.
pub record Api : Type 0 where
  pub get_combined_status : ℤ → Option (Page Status)
  pub list_check_runs : ℤ → Option (Page CheckRun)

-- How the function goes on: with a value, by an early `return rollup, nil`, or by returning an
-- error. The loops over the pages run on fuel.
pub data Flow (A : Type 0) : Type 0 where
  goes_on : A → Flow A
  leaves : Rollup → Flow A
  faults : Flow A
  out_of_fuel : Flow A

infixl 5 ◌>>=◌
abbrev pub ◌>>=◌ : {A B : Type 0} → Flow A → (A → Flow B) → Flow B
goes_on a >>= f = f a
leaves r >>= f = leaves r
faults >>= f = faults
out_of_fuel >>= f = out_of_fuel

-- The variables of the function.
pub record Scan : Type 0 where
  pub roll : Rollup
  pub seen : ℕ
  pub failed : Bool

abbrev pub scan_start : Scan
scan_start = record { roll = no_rollup; seen = 0; failed = false }

-- A failing entry without a name gets a placeholder.
abbrev pub named : String → String
named label = if is_blank label then "(unnamed check)" else label

-- The closure `fail`.
abbrev pub fail : String → String → Scan → Scan
fail label url s = record s {
  failed = true;
  roll = record (s.roll) {
    failing_contexts = s.roll.failing_contexts ++ named label ∷ [];
    details_url = if is_blank s.roll.details_url then url else s.roll.details_url;
  };
}

-- The branch of the switches that an entry takes.
pub data Reading : Type 0 where
  passes : Reading
  fails : String → String → Reading
  unfinished : Reading

unfoldable pub read_status : Status → Reading
read_status st =
    if str_eq st.state "success"
    then passes
    else if str_eq st.state "failure" || str_eq st.state "error"
    then fails st.context st.target_url
    else unfinished

unfoldable pub read_run : CheckRun → Reading
read_run r =
    if not (str_eq r.status "completed")
    then unfinished
    else if str_eq r.conclusion "success"
        || str_eq r.conclusion "skipped"
        || str_eq r.conclusion "neutral"
    then passes
    else if str_eq r.conclusion "failure"
        || str_eq r.conclusion "timed_out"
        || str_eq r.conclusion "action_required"
    then fails r.name r.html_url
    else unfinished

-- The body of both inner loops, `seen++` and the switch.
abbrev pub scan_reading : Reading → Scan → Flow Scan
scan_reading passes s = goes_on (record s { seen = s.seen + 1 })
scan_reading (fails label url) s = goes_on (fail label url (record s { seen = s.seen + 1 }))
scan_reading unfinished s = leaves no_rollup

-- The loop over the entries of one page.
unfoldable pub scan_entries : {A : Type 0} → (A → Reading) → List A → Scan → Flow Scan
scan_entries read [] s = goes_on s
scan_entries read (x ∷ xs) s = scan_reading (read x) s >>= scan_entries read xs

-- The loop over the pages; it hands on the count that GitHub reported last.
unfoldable pub scan_pages :
    {A : Type 0} → (A → Reading) → (ℤ → Option (Page A)) → ℕ → ℤ → Scan → Flow (ℤ × Scan)
scan_pages read fetch zero page s = out_of_fuel
scan_pages read fetch (suc fuel) page s = elim (fetch page) [
  | none ↦ faults
  | some p ↦ scan_entries read p.entries s >>= λ s. elim (eqb_ℤ p.next (pos 0)) [
    | true ↦ goes_on (p.total, s)
    | false ↦ scan_pages read fetch fuel p.next s
  ]
]

-- What follows the loops: a partial view, or an empty one, concludes nothing.
unfoldable pub conclude : ℤ → ℕ → ℤ → Scan → Rollup
conclude status_total status_seen run_total s =
    if ltb_ℤ (pos status_seen) status_total || ltb_ℤ (pos (s.seen - status_seen)) run_total
    then no_rollup
    else if s.seen == 0
    then no_rollup
    else record (s.roll) {
      conclusive = true;
      conclusion = known (if s.failed then check_failure else check_success);
    }

-- CheckRollup. `none` is a client that could not be made for the repository.
unfoldable pub check_rollup : ℕ → Option Api → Flow Rollup
check_rollup fuel none = faults
check_rollup fuel (some api) = do
  (status_total, after_statuses) ←
      scan_pages read_status api.get_combined_status fuel (pos 0) scan_start
  (run_total, s) ← scan_pages read_run api.list_check_runs fuel (pos 0) after_statuses
  leaves (conclude status_total after_statuses.seen run_total s)
