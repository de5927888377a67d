-- ===== src/Github/Rollup/Summary.antt =====
-- What the check rollup of a head says, described without pages and early returns.
use autophage.Base.{
  ℕ, zero, suc, ◌+◌, ◌≤◌, ◌≡◌, refl, inl, inr, ℤ, pos, ltb_ℤ, eqb_ℤ, String, Bool, true, false,
  ◌||◌, Option, some, List, [], ◌∷◌, ◌++◌, map, length, any_if, if◌then◌else◌, is_blank, known,
  ◌==◌, arith, Bool-cases, sym, ◌∙◌, ap, length-append,
}
use mathlib.Core.List.{append-nil, append_assoc}
use autophage.Upkeep.Enums.{check_success, check_failure}
use autophage.Github.Rollup.{
  Rollup, no_rollup, Status, CheckRun, Page, Api, Flow, goes_on, leaves, ◌>>=◌, Scan, scan_start,
  named, fail, Reading, passes, fails, unfinished, read_status, read_run, scan_reading,
  scan_entries, scan_pages, conclude, check_rollup,
}

abbrev pub is_unfinished : Reading → Bool
is_unfinished unfinished = true
is_unfinished _ = false

abbrev pub is_failing : Reading → Bool
is_failing (fails label url) = true
is_failing _ = false

-- The names of the failing entries, in the order of the listings.
abbrev pub failing_names : List Reading → List String
failing_names [] = []
failing_names (passes ∷ rs) = failing_names rs
failing_names (fails label url ∷ rs) = named label ∷ failing_names rs
failing_names (unfinished ∷ rs) = failing_names rs

-- The first address of a failing entry that has one, or `url` if that is set already.
abbrev pub first_url : String → List Reading → String
first_url url [] = url
first_url url (passes ∷ rs) = first_url url rs
first_url url (fails label u ∷ rs) = first_url (if is_blank url then u else url) rs
first_url url (unfinished ∷ rs) = first_url url rs

-- The rollup of the statuses' readings and the runs' readings, with the counts that GitHub reported.
abbrev pub summary : ℤ → List Reading → ℤ → List Reading → Rollup
summary status_total statuses run_total rs =
    if any_if is_unfinished (statuses ++ rs)
    then no_rollup
    else if ltb_ℤ (pos (length statuses)) status_total || ltb_ℤ (pos (length rs)) run_total
    then no_rollup
    else if length (statuses ++ rs) == 0
    then no_rollup
    else record {
      conclusive = true;
      conclusion =
          known (if any_if is_failing (statuses ++ rs) then check_failure else check_success);
      failing_contexts = failing_names (statuses ++ rs);
      details_url = first_url "" (statuses ++ rs);
    }

-- Requesting a page, and then each next one, yields these pages, the last of which has no next.
pub data Listing {A : Type 0} (fetch : ℤ → Option (Page A)) : ℤ → List (Page A) → Type 0 where
  last :
      (page : ℤ) (p : Page A)
      → fetch page ≡ some p
      → eqb_ℤ p.next (pos 0) ≡ true
      → Listing fetch page (p ∷ [])
  more :
      (page : ℤ) (p : Page A) (ps : List (Page A))
      → fetch page ≡ some p
      → eqb_ℤ p.next (pos 0) ≡ false
      → Listing fetch p.next ps
      → Listing fetch page (p ∷ ps)

abbrev pub readings : {A : Type 0} → (A → Reading) → List (Page A) → List Reading
readings read [] = []
readings read (p ∷ ps) = map read p.entries ++ readings read ps

-- The count that the last page reported.
abbrev pub last_total : {A : Type 0} → List (Page A) → ℤ
last_total [] = pos 0
last_total (p ∷ []) = p.total
last_total (p ∷ q ∷ ps) = last_total (q ∷ ps)

-- The variables after reading entries none of which is unfinished.
abbrev after : List Reading → Scan → Scan
after [] s = s
after (passes ∷ rs) s = after rs (record s { seen = s.seen + 1 })
after (fails label url ∷ rs) s = after rs (fail label url (record s { seen = s.seen + 1 }))
after (unfinished ∷ rs) s = after rs s

-- Reading entries, by their readings.
abbrev reads : List Reading → Scan → Flow Scan
reads rs s = if any_if is_unfinished rs then leaves no_rollup else goes_on (after rs s)

step-reads :
    (r : Reading) (rs : List Reading) (s : Scan) (f : Scan → Flow Scan)
    → ((s : Scan) → f s ≡ reads rs s)
    → (scan_reading r s >>= f) ≡ reads (r ∷ rs) s
step-reads passes rs s f h = h _
step-reads (fails label url) rs s f h = h _
step-reads unfinished rs s f h = refl

scan_entries-reads :
    {A : Type 0} (read : A → Reading) (xs : List A) (s : Scan)
    → scan_entries read xs s ≡ reads (map read xs) s
unfolding scan_entries
scan_entries-reads read [] s = refl
scan_entries-reads read (x ∷ xs) s =
    step-reads (read x) (map read xs) s (scan_entries read xs) (scan_entries-reads read xs)

reads-append :
    {B : Type 0} (xs ys : List Reading) (s : Scan) (f g : Scan → Flow B)
    → ((s : Scan) → f s ≡ (reads ys s >>= g))
    → (reads xs s >>= f) ≡ (reads (xs ++ ys) s >>= g)
reads-append [] ys s f g h = h s
reads-append (passes ∷ xs) ys s f g h = reads-append xs ys _ f g h
reads-append (fails label url ∷ xs) ys s f g h = reads-append xs ys _ f g h
reads-append (unfinished ∷ xs) ys s f g h = refl

last_total-more :
    {A : Type 0} (fetch : ℤ → Option (Page A)) (page : ℤ) (p : Page A) (ps : List (Page A))
    → Listing fetch page ps
    → last_total (p ∷ ps) ≡ last_total ps
last_total-more fetch page p _ (last _ q _ _) = refl
last_total-more fetch page p _ (more _ q qs _ _ _) = refl

-- The loop over the pages of a listing reads all their entries in order, whatever the pages are.
scan_pages-reads :
    {A : Type 0} (read : A → Reading) (fetch : ℤ → Option (Page A)) (fuel : ℕ) (page : ℤ)
    (ps : List (Page A)) (s : Scan)
    → Listing fetch page ps
    → length ps ≤ fuel
    → scan_pages read fetch fuel page s
      ≡ (reads (readings read ps) s >>= λ s. goes_on (last_total ps, s))
unfolding scan_pages
scan_pages-reads read fetch zero page _ s (last _ p found end) h = ground (arith, h)
scan_pages-reads read fetch zero page _ s (more _ p ps found go l) h = ground (arith, h)
scan_pages-reads read fetch (suc fuel) page _ s (last _ p found end) h =
    rw (scan_pages, found, end, scan_entries-reads read p.entries s)
      (reads-append (map read p.entries) [] s _ _ (λ s. refl))
scan_pages-reads read fetch (suc fuel) page _ s (more _ p ps found go l) h =
    rw (scan_pages, found, go, scan_entries-reads read p.entries s)
      (reads-append (map read p.entries) (readings read ps) s _ _ (λ s.
        rw (last_total-more fetch p.next p ps l)
          (scan_pages-reads read fetch fuel p.next ps s l (omega (arith, h)))))

after-seen :
    (rs : List Reading) (s : Scan)
    → any_if is_unfinished rs ≡ false
    → (after rs s).seen ≡ s.seen + length rs
after-seen [] s h = omega arith
after-seen (passes ∷ rs) s h = ground (arith, after-seen rs (record s { seen = s.seen + 1 }) h)
after-seen (fails label url ∷ rs) s h =
    ground (arith, after-seen rs (fail label url (record s { seen = s.seen + 1 })) h)
after-seen (unfinished ∷ rs) s h = ground (arith, h)

after-failed :
    (rs : List Reading) (s : Scan)
    → any_if is_unfinished rs ≡ false
    → (after rs s).failed ≡ (s.failed || any_if is_failing rs)
after-failed [] s h = ground arith
after-failed (passes ∷ rs) s h = after-failed rs (record s { seen = s.seen + 1 }) h
after-failed (fails label url ∷ rs) s h =
    ground (arith, after-failed rs (fail label url (record s { seen = s.seen + 1 })) h)
after-failed (unfinished ∷ rs) s h = ground (arith, h)

after-contexts :
    (rs : List Reading) (s : Scan)
    → any_if is_unfinished rs ≡ false
    → (after rs s).roll.failing_contexts ≡ s.roll.failing_contexts ++ failing_names rs
after-contexts [] s h = sym (append-nil s.roll.failing_contexts)
after-contexts (passes ∷ rs) s h = after-contexts rs (record s { seen = s.seen + 1 }) h
after-contexts (fails label url ∷ rs) s h =
    after-contexts rs (fail label url (record s { seen = s.seen + 1 })) h
    ∙ append_assoc s.roll.failing_contexts (named label ∷ []) (failing_names rs)
after-contexts (unfinished ∷ rs) s h = ground (arith, h)

after-url :
    (rs : List Reading) (s : Scan)
    → any_if is_unfinished rs ≡ false
    → (after rs s).roll.details_url ≡ first_url s.roll.details_url rs
after-url [] s h = refl
after-url (passes ∷ rs) s h = after-url rs (record s { seen = s.seen + 1 }) h
after-url (fails label url ∷ rs) s h =
    after-url rs (fail label url (record s { seen = s.seen + 1 })) h
after-url (unfinished ∷ rs) s h = ground (arith, h)

after-append : (xs ys : List Reading) (s : Scan) → after ys (after xs s) ≡ after (xs ++ ys) s
after-append [] ys s = refl
after-append (passes ∷ xs) ys s = after-append xs ys _
after-append (fails label url ∷ xs) ys s = after-append xs ys _
after-append (unfinished ∷ xs) ys s = after-append xs ys s

unfinished-append :
    (xs ys : List Reading)
    → any_if is_unfinished (xs ++ ys) ≡ (any_if is_unfinished xs || any_if is_unfinished ys)
unfinished-append [] ys = refl
unfinished-append (passes ∷ xs) ys = unfinished-append xs ys
unfinished-append (fails label url ∷ xs) ys = unfinished-append xs ys
unfinished-append (unfinished ∷ xs) ys = refl

-- What follows the loops, on entries that have all finished.
conclude-summary :
    (m : ℤ) (xs : List Reading) (n : ℤ) (ys : List Reading)
    → any_if is_unfinished xs ≡ false
    → any_if is_unfinished ys ≡ false
    → conclude m (after xs scan_start).seen n (after ys (after xs scan_start)) ≡ summary m xs n ys
unfolding conclude
conclude-summary m xs n ys hx hy =
    let all : any_if is_unfinished (xs ++ ys) ≡ false = rw (unfinished-append xs ys, hx, hy) refl in
    rw
      (
        after-append xs ys scan_start,
        after-seen xs scan_start hx,
        after-seen (xs ++ ys) scan_start all,
        after-failed (xs ++ ys) scan_start all,
        after-contexts (xs ++ ys) scan_start all,
        after-url (xs ++ ys) scan_start all,
        all,
      )
      (ground (arith, length-append xs ys))

-- With fuel for every page of both listings, and no request that fails: the rollup is the summary of
-- everything that GitHub lists, however it is split into pages.
pub check_rollup-summary :
    (api : Api) (fuel : ℕ) (ps : List (Page Status)) (qs : List (Page CheckRun))
    → Listing api.get_combined_status (pos 0) ps
    → Listing api.list_check_runs (pos 0) qs
    → length ps ≤ fuel
    → length qs ≤ fuel
    → check_rollup fuel (some api)
      ≡ leaves
          (summary (last_total ps) (readings read_status ps) (last_total qs) (readings read_run qs))
unfolding check_rollup
check_rollup-summary api fuel ps qs l k hp hq =
    let xs = readings read_status ps in
    let ys = readings read_run qs in
    let statuses =
      scan_pages-reads read_status api.get_combined_status fuel (pos 0) ps scan_start l hp in
    let runs =
      scan_pages-reads read_run api.list_check_runs fuel (pos 0) qs (after xs scan_start) k hq in
    elim (Bool-cases (any_if is_unfinished xs)) [
      | inl u ↦ rw (statuses, u, unfinished-append xs ys, u) refl
      | inr f ↦ elim (Bool-cases (any_if is_unfinished ys)) [
        | inl u ↦ rw (statuses, f, runs, u, unfinished-append xs ys, f, u) refl
        | inr g ↦
            rw (statuses, f, runs, g)
              (ap leaves (conclude-summary (last_total ps) xs (last_total qs) ys f g))
      ]
    ]
