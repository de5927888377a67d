-- ===== src/Github/Rollup/Success.antt =====
-- When the check rollup of a head reports success.
use autophage.Base.{
  ℕ, ◌≤◌, ◌<◌, ◌≡◌, suc, refl, ℤ, pos, ◌≤ℤ◌, false, some, List, length, any_if, ◌++◌, known, arith,
  sym, ◌∙◌, ap, All, map, ◌⊎◌, subst, ◌+◌, length-append, [], ◌∷◌, str_eq_iff,
}
use mathlib.Core.List.{append-nil, map-append}
use autophage.Upkeep.Enums.{check_success}
use autophage.Github.Rollup.{
  Rollup, Status, CheckRun, Page, Api, Flow, leaves, read_status, read_run, Reading, check_rollup,
}
use autophage.Github.Rollup.Summary.{
  Listing, readings, last_total, is_unfinished, is_failing, summary, check_rollup-summary,
}

leaves_inj : {r q : Rollup} → ◌≡◌ {A = Flow Rollup} (leaves r) (leaves q) → r ≡ q
leaves_inj h = cc

-- The entries of all pages.
abbrev pub entries : {A : Type 0} → List (Page A) → List A
entries [] = []
entries (p ∷ ps) = p.entries ++ entries ps

-- What a green head shows, in GitHub's words.
abbrev pub IsGreenStatus : Status → Type 0
IsGreenStatus st = st.state ≡ "success"

abbrev pub IsGreenRun : CheckRun → Type 0
IsGreenRun r =
    (r.status ≡ "completed")
    × ((r.conclusion ≡ "success") ⊎ (r.conclusion ≡ "skipped") ⊎ (r.conclusion ≡ "neutral"))

abbrev IsPass : Reading → Type 0
IsPass r = (is_unfinished r ≡ false) × (is_failing r ≡ false)

status_green : (st : Status) → IsPass (read_status st) → IsGreenStatus st
unfolding read_status
status_green st h = ground (arith, h, str_eq_iff st.state "success")

run_green : (r : CheckRun) → IsPass (read_run r) → IsGreenRun r
unfolding read_run
run_green r h = ground (
  arith,
  h,
  str_eq_iff r.status "completed",
  str_eq_iff r.conclusion "success",
  str_eq_iff r.conclusion "skipped",
  str_eq_iff r.conclusion "neutral",
)

readings-entries :
    {A : Type 0} (read : A → Reading) (ps : List (Page A))
    → readings read ps ≡ map read (entries ps)
readings-entries read [] = refl
readings-entries read (p ∷ ps) =
    ap (λ (l : List Reading). map read p.entries ++ l) (readings-entries read ps)
    ∙ sym (map-append read p.entries (entries ps))

split_green :
    {A : Type 0} (Green : A → Type 0) (read : A → Reading)
    → ((a : A) → IsPass (read a) → Green a)
    → (l : List A) (rest : List Reading) → any_if is_unfinished (map read l ++ rest) ≡ false
    → any_if is_failing (map read l ++ rest) ≡ false
    → All Green l × (any_if is_unfinished rest ≡ false) × (any_if is_failing rest ≡ false)
split_green Green read green [] rest h k = (tt, h, k)
split_green Green read green (a ∷ l) rest h k =
    let tail = split_green Green read green l rest (ground (arith, h)) (ground (arith, k)) in
    ((green a (ground (arith, h), ground (arith, k)), tail.0), tail.1, tail.2)

length-map_entries : {A : Type 0} (read : A → Reading) (l : List A) → length (map read l) ≡ length l
length-map_entries read [] = refl
length-map_entries read (a ∷ l) = ap suc (length-map_entries read l)

length-readings :
    {A : Type 0} (read : A → Reading) (ps : List (Page A))
    → length (readings read ps) ≡ length (entries ps)
length-readings read ps =
    ap length (readings-entries read ps) ∙ length-map_entries read (entries ps)

summary-success :
    (m : ℤ) (xs : List Reading) (n : ℤ) (ys : List Reading)
    → (summary m xs n ys).conclusion ≡ known check_success
    → (any_if is_unfinished (xs ++ ys) ≡ false)
      × (any_if is_failing (xs ++ ys) ≡ false)
      × (0 < length xs + length ys)
      × (m ≤ℤ pos (length xs))
      × (n ≤ℤ pos (length ys))
summary-success m xs n ys h =
    let size = length-append xs ys in
    (
      ground (arith, h),
      ground (arith, h),
      ground (arith, h, size),
      ground (arith, h),
      ground (arith, h),
    )

-- What the theorem says of a head whose rollup is success.
pub record IsGreen (ps : List (Page Status)) (qs : List (Page CheckRun)) : Type 0 where
  pub statuses : All IsGreenStatus (entries ps)
  pub runs : All IsGreenRun (entries qs)
  pub some_check : 0 < length (entries ps) + length (entries qs)
  pub all_statuses : last_total ps ≤ℤ pos (length (entries ps))
  pub all_runs : last_total qs ≤ℤ pos (length (entries qs))

-- When the rollup of a head is success, and no request failed: every status that GitHub lists has
-- the state "success", every check run has the status "completed" and one of the conclusions
-- "success", "skipped" and "neutral", there is at least one of either, and as many statuses and as
-- many runs were read as GitHub reports.
pub rollup_success :
    (api : Api) (fuel : ℕ) (ps : List (Page Status)) (qs : List (Page CheckRun)) {r : Rollup}
    → Listing api.get_combined_status (pos 0) ps
    → Listing api.list_check_runs (pos 0) qs
    → length ps ≤ fuel
    → length qs ≤ fuel
    → check_rollup fuel (some api) ≡ leaves r
    → r.conclusion ≡ known check_success
    → IsGreen ps qs
rollup_success api fuel ps qs {r} l k hp hq got success =
    let same = leaves_inj (sym (check_rollup-summary api fuel ps qs l k hp hq) ∙ got) in
    let (finished, sound, some_check, m, n) =
      summary-success (last_total ps) (readings read_status ps) (last_total qs)
        (readings read_run qs) (rw same success) in
    let es = readings-entries read_status ps in
    let er = readings-entries read_run qs ∙ sym (append-nil _) in
    let (statuses, ended, unfailed) =
      split_green IsGreenStatus read_status status_green (entries ps) _
        (subst (λ l. any_if is_unfinished (l ++ readings read_run qs) ≡ false) es finished)
        (subst (λ l. any_if is_failing (l ++ readings read_run qs) ≡ false) es sound) in
    let (runs, _, _) =
      split_green IsGreenRun read_run run_green (entries qs) []
        (subst (λ l. any_if is_unfinished l ≡ false) er ended)
        (subst (λ l. any_if is_failing l ≡ false) er unfailed) in
    let size_s = length-readings read_status ps in
    let size_r = length-readings read_run qs in
    record {
      statuses = statuses;
      runs = runs;
      some_check = omega (arith, some_check, size_s, size_r);
      all_statuses = subst (λ k. last_total ps ≤ℤ pos k) size_s m;
      all_runs = subst (λ k. last_total qs ≤ℤ pos k) size_r n;
    }
