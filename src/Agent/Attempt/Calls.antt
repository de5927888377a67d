-- ===== src/Agent/Attempt/Calls.antt =====
-- What an attempt does outside of the process, and in which order.
use autophage.Base.{
  All-map, sym, subst, ◌≡◌, refl, inl, inr, ◌⊎◌, String, Bool, true, false, ◌||◌, List, [], ◌∷◌,
  All, All-append, str_eq, is_blank, Bool-cases, arith, if_both,
}
use autophage.Resolution.Repository.{Repository, is_enrolled}
use autophage.Agent.Stop.{Stop, no_stop, turns, wall_clock, diff_lines, cancelled, model_error}
use autophage.Agent.World.{
  enrolls, pushes, closes_tools, runs_agent, at_tools, at_model, dials_tools, Answer, got, lost,
  Moment, World, Call, opens_pull_request, tears_down, Step, goes_on, returns, prepend, ◌>>=◌,
  deferred,
}
use autophage.Agent.Attempt.{
  push_token, attempt, refreshed_by, refresh_default_branch, partial_after, partial_pull_request,
  exhausted_by, exhausted, after_markers, finished, by_stop, shutting_down, reached, in_container,
  with_tools, summary_of,
}

-- What makes a pull request worth opening: the branch reached the remote, with commits beyond its
-- base, and without conflict markers.
pub record IsReviewable (w : World) (head : String) : Type 0 where
  pub pushed : reached w.push ≡ true
  pub same_head : head ≡ w.push.head
  pub committed : (base : String) → w.prepare ≡ got base → str_eq w.push.head base ≡ false
  pub clean : w.markers ≡ got false

-- Pull requests are opened for such heads only; and no container is removed yet.
abbrev pub IsProper : World → Call → Type 0
IsProper w (opens_pull_request head part) = IsReviewable w head
IsProper w tears_down = ⊥
IsProper w _ = Unit {0}

-- All calls of a part of the pipeline.
abbrev pub Calls : {A : Type 0} → (Call → Type 0) → Step A → Type 0
Calls P (goes_on cs a) = All P cs
Calls P (returns cs e) = All P cs

pub prepend-Calls :
    {A : Type 0} (P : Call → Type 0) (cs : List Call) (m : Step A)
    → All P cs
    → Calls P m
    → Calls P (prepend cs m)
prepend-Calls P cs (goes_on ds a) h k = All-append P cs ds h k
prepend-Calls P cs (returns ds e) h k = All-append P cs ds h k

pub deferred-Calls :
    {A : Type 0} (P : Call → Type 0) (c : Call) (m : Step A)
    → P c
    → Calls P m
    → Calls P (deferred c m)
deferred-Calls P c (goes_on ds a) h k = All-append P ds (c ∷ []) k (h, tt)
deferred-Calls P c (returns ds e) h k = All-append P ds (c ∷ []) k (h, tt)

pub bind-Calls :
    {A B : Type 0} (P : Call → Type 0) (m : Step A) (f : A → Step B)
    → Calls P m
    → ((a : A) → Calls P (f a))
    → Calls P (m >>= f)
bind-Calls P (goes_on cs a) f h k = prepend-Calls P cs (f a) h (k a)
bind-Calls P (returns cs e) f h k = h

pub attempt-Calls :
    {A B : Type 0} (P : Call → Type 0) (w : World) (m : Moment) (step : String) (r : Answer A)
    (f : A → Step B)
    → ((a : A) → r ≡ got a → Calls P (f a))
    → Calls P (attempt w m step r >>= f)
attempt-Calls P w m step (got a) f k = prepend-Calls P [] (f a) tt (k a refl)
attempt-Calls P w m step (lost text) f k = tt

-- The facts under which the branches after the push are read.
record HasWork (w : World) (base : String) : Type 0 where
  prepared : w.prepare ≡ got base
  pushed : reached w.push ≡ true
  committed : str_eq w.push.head base ≡ false

reviewable :
    (w : World) (base : String)
    → HasWork w base
    → w.markers ≡ got false
    → IsReviewable w w.push.head
reviewable w base h clean = record {
  pushed = h.pushed;
  same_head = refl;
  committed = λ b e. ground (arith, h.prepared, h.committed, e);
  clean = clean;
}

Answer-cases :
    (m : Answer Bool) → ((text : String) × (m ≡ lost text)) ⊎ (m ≡ got true) ⊎ (m ≡ got false)
Answer-cases (lost text) = inl (text, refl)
Answer-cases (got true) = inr (inl refl)
Answer-cases (got false) = inr (inr refl)

after_markers-Calls :
    (w : World) (base summary : String)
    → HasWork w base
    → Calls (IsProper w) (after_markers w summary w.markers)
after_markers-Calls w base summary h = elim (Answer-cases w.markers) [
  | inl (text, e) ↦ rw e (tt, tt)
  | inr (inl e) ↦ rw e (tt, tt)
  | inr (inr e) ↦
      subst (λ m. Calls (IsProper w) (after_markers w summary m)) (sym e)
        (tt, (reviewable w base h e, tt))
]

partial_after-Calls :
    (w : World) (base : String) → HasWork w base → Calls (IsProper w) (partial_after w w.markers)
partial_after-Calls w base h = elim (Answer-cases w.markers) [
  | inl (text, e) ↦ rw e (tt, tt)
  | inr (inl e) ↦ rw e (tt, tt)
  | inr (inr e) ↦
      subst (λ m. Calls (IsProper w) (partial_after w m)) (sym e) (tt, (reviewable w base h e, tt))
]

module _ (w : World) (base : String) (prepared : w.prepare ≡ got base)
    (pushed : reached w.push ≡ true) where
  finished-Calls : (summary : String) → Calls (IsProper w) (finished w base summary)
  unfolding finished
  finished-Calls summary = elim (Bool-cases (str_eq w.push.head base)) [
    | inl same ↦ rw (finished, same) tt
    | inr differs ↦
        rw (finished, differs)
          (after_markers-Calls w base summary
            (record { prepared = prepared; pushed = pushed; committed = differs }))
  ]

  exhausted-Calls : (summary : String) → Calls (IsProper w) (exhausted w base summary)
  unfolding partial_pull_request
  exhausted-Calls summary =
      bind-Calls (IsProper w) (partial_pull_request w base) (exhausted_by w summary)
        (elim (Bool-cases (str_eq w.push.head base)) [
          | inl same ↦ rw (partial_pull_request, same) tt
          | inr differs ↦
              rw (partial_pull_request, differs)
                (partial_after-Calls w base
                  (record { prepared = prepared; pushed = pushed; committed = differs }))
        ])
        (λ pr. tt)

  by_stop-Calls :
      (summary : String) (stop : Stop) → Calls (IsProper w) (by_stop w base summary stop)
  unfolding by_stop
  by_stop-Calls summary model_error = tt
  by_stop-Calls summary cancelled = tt
  by_stop-Calls summary no_stop = finished-Calls summary
  by_stop-Calls summary turns = exhausted-Calls summary
  by_stop-Calls summary wall_clock = exhausted-Calls summary
  by_stop-Calls summary diff_lines = exhausted-Calls summary

in_container-Calls :
    (w : World) (base token : String)
    → w.prepare ≡ got base
    → Calls (IsProper w) (in_container w base token)
unfolding in_container
in_container-Calls w base token prepared =
    attempt-Calls (IsProper w) w at_model "model" w.model _ (λ _ _.
      prepend-Calls (IsProper w) (runs_agent ∷ pushes (push_token w.fresh_token token) ∷ []) _
        (tt, (tt, tt))
        (if_both (Calls (IsProper w)) (shutting_down w) tt (elim (Bool-cases (reached w.push)) [
          | inl there ↦
              rw there (by_stop-Calls w base prepared there (summary_of w.report) w.report.stop)
          | inr missing ↦ rw missing tt
        ])))

pub with_tools-Calls :
    (w : World) (base token : String)
    → w.prepare ≡ got base
    → Calls (IsProper w) (with_tools w base token)
with_tools-Calls w base token prepared =
    prepend-Calls (IsProper w) (dials_tools ∷ []) _ (tt, tt)
      (attempt-Calls (IsProper w) w at_tools "dial toolbox" w.tools _ (λ _ _.
        deferred-Calls (IsProper w) closes_tools _ tt (in_container-Calls w base token prepared)))

-- A weaker predicate on calls.
pub weaken :
    {A : Type 0} (P Q : Call → Type 0)
    → ((c : Call) → P c → Q c)
    → (m : Step A) → Calls P m
    → Calls Q m
weaken P Q f (goes_on cs a) h = All-map P Q f cs h
weaken P Q f (returns cs e) h = All-map P Q f cs h

pub refreshed-Calls :
    (P : Call → Type 0) (w : World) (repo : Repository)
    → ((b : String) → P (enrolls b))
    → Calls P (refresh_default_branch w repo)
unfolding refresh_default_branch
refreshed-Calls P w repo h = by_branch w.default_branch
  where
    by_branch : (a : Answer String) → Calls P (refreshed_by repo a)
    by_branch (lost text) = tt
    by_branch (got branch) =
        if_both (Calls P) (is_blank branch || str_eq branch repo.default_branch) tt
          (if_both (Calls P) (is_enrolled repo) (h branch, tt) tt)
