-- ===== src/Agent/Attempt/Settled.antt =====
-- Every end of an attempt but a shutdown is an outcome that the domain built.
use autophage.Base.{
  ◌&&◌, ◌||◌, if_both, ◌≡◌, refl, inl, inr, ℤ, String, ◌<>◌, not_blank_left, Bool, true, false,
  Result, ok, is_blank, str_eq, known, arith, Result-cases, List, [], ◌∷◌,
}
use autophage.Resolution.Enums.{FailureClass, failure_infra, failure_agent, failure_model}
use autophage.Resolution.Budget.{Usage}
use autophage.Resolution.Repository.{Repository}
use autophage.Resolution.Facts.{
  Time, Outcome, outcome_pull_request, outcome_exhausted, outcome_exhausted_with_pull_request,
  outcome_failed, outcome_aborted,
}
use autophage.Resolution.Case.Outcomes.{Built, spent, spent_opened, broken, stopped}
use autophage.Agent.Stop.{Stop, no_stop, turns, wall_clock, diff_lines, cancelled, model_error}
use autophage.Agent.World.{
  pushes, starts, prepares, dials_tools, runs_agent, tears_down, at_start, at_prepare, closes_tools,
  at_mint, at_tools, at_model, at_repository, Answer, got, lost, Moment, World, Call, End, ends,
  shuts_down, Step, goes_on, returns, prepend, ◌>>=◌, deferred,
}
use autophage.Agent.Attempt.{
  push_token, is_enrolled, pos, eqb_ℤ, reached, limit_of, not, shutting_down, exhausted_by,
  after_markers, refreshed_by, partial_after, exhausted, with_tools, opened_outcome, settled, setup,
  attempt, is_unset, no_usage, in_container, by_stop, finished, partial_pull_request,
  refresh_default_branch, execute, end_of, summary_of, open_pull_request, failed,
}

-- A failure with a message is built.
failed_total :
    (class : FailureClass) (message : String) (u : Usage) (at : Time)
    → is_blank message ≡ false
    → (o : Outcome) × (outcome_failed (known class) message u at ≡ ok o)
unfolding outcome_failed
failed_total class message u at h =
    elim (Result-cases (outcome_failed (known class) message u at)) [
      | inl found ↦ found
      | inr (e, refusal) ↦ absurd (ground (arith, h, refusal))
    ]

Built-failure :
    (class : FailureClass) (message : String) (u : Usage) (at : Time) (o : Outcome)
    → outcome_failed (known class) message u at ≡ ok o
    → Built o
Built-failure class message u at o e = broken (known class) message u at o e

refusal_not_blank : (text : String) → is_blank ("outcome refused: " <> text) ≡ false
unfolding is_blank str_eq
refusal_not_blank text = not_blank_left "outcome refused: " text refl

settled-Built :
    (w : World) (r : Result Outcome) (u : Usage)
    → ((o : Outcome) → r ≡ ok o → Built o)
    → Built (settled w r u)
settled-Built w r u h = elim (Result-cases r) [
  | inl (o, e) ↦ rw e (h o e)
  | inr (e, refusal) ↦
      let (o, made) =
        failed_total failure_infra ("outcome refused: " <> w.error_text e) u w.now
          (refusal_not_blank (w.error_text e)) in
      rw (refusal, made) (Built-failure failure_infra _ u w.now o made)
]

failed-Built :
    (w : World) (class : FailureClass) (message : String) (u : Usage)
    → Built (failed w class message u)
failed-Built w class message u =
    settled-Built w (outcome_failed (known class) message u w.now) u
      (Built-failure class message u w.now)

-- What a part of the pipeline returns, if it returns an outcome.
abbrev pub IsSettled : End → Type 0
IsSettled (ends o s) = Built o
IsSettled (shuts_down s) = Unit {0}

abbrev Settles : {A : Type 0} → (A → Type 0) → Step A → Type 0
Settles P (goes_on cs a) = P a
Settles P (returns cs e) = IsSettled e

prepend-Settles :
    {A : Type 0} (P : A → Type 0) (cs : List Call) (m : Step A)
    → Settles P m
    → Settles P (prepend cs m)
prepend-Settles P cs (goes_on ds a) h = h
prepend-Settles P cs (returns ds e) h = h

deferred-Settles :
    {A : Type 0} (P : A → Type 0) (c : Call) (m : Step A) → Settles P m → Settles P (deferred c m)
deferred-Settles P c (goes_on ds a) h = h
deferred-Settles P c (returns ds e) h = h

bind-Settles :
    {A B : Type 0} (P : A → Type 0) (Q : B → Type 0) (m : Step A) (f : A → Step B)
    → Settles P m
    → ((a : A) → P a → Settles Q (f a))
    → Settles Q (m >>= f)
bind-Settles P Q (goes_on cs a) f h k = prepend-Settles Q cs (f a) (k a h)
bind-Settles P Q (returns cs e) f h k = h

abbrev Any : {A : Type 0} → A → Type 0
Any a = Unit {0}

setup-IsSettled : (w : World) (m : Moment) (step text : String) → IsSettled (setup w m step text)
setup-IsSettled w m step text =
    let s = w.sees m in
    if_both IsSettled (s.done && not (is_unset s.reason))
      (settled-Built w (outcome_aborted s.reason _ no_usage w.now) no_usage
        (λ o e. stopped s.reason _ no_usage w.now o e))
      (if_both IsSettled (s.done && s.caller_done) tt (failed-Built w failure_infra _ no_usage))

attempt-Settles :
    {A : Type 0} (w : World) (m : Moment) (step : String) (r : Answer A)
    → Settles Any (attempt w m step r)
attempt-Settles w m step (got a) = tt
attempt-Settles w m step (lost text) = setup-IsSettled w m step text

opened-Built : (w : World) (summary : String) (pr : Answer ℤ) → Built (opened_outcome w summary pr)
opened-Built w summary (got n) =
    settled-Built w (outcome_pull_request n w.push.head summary w.report.usage w.now) w.report.usage
      (λ o e. Built.opened n w.push.head summary w.report.usage w.now o e)
opened-Built w summary (lost text) = failed-Built w failure_infra _ w.report.usage

finished-Settles : (w : World) (base summary : String) → Settles IsSettled (finished w base summary)
unfolding finished
finished-Settles w base summary =
    if_both (Settles IsSettled) (str_eq w.push.head base)
      (failed-Built w failure_agent summary w.report.usage) (by_markers w.markers)
  where
    by_markers : (m : Answer Bool) → Settles IsSettled (after_markers w summary m)
    by_markers (lost text) = failed-Built w failure_infra _ w.report.usage
    by_markers (got true) = failed-Built w failure_agent _ w.report.usage
    by_markers (got false) = opened-Built w summary (open_pull_request w)

partial-Settles : (w : World) (base : String) → Settles Any (partial_pull_request w base)
unfolding partial_pull_request
partial-Settles w base = if_both (Settles Any) (str_eq w.push.head base) tt (by_markers w.markers)
  where
    by_markers : (m : Answer Bool) → Settles Any (partial_after w m)
    by_markers (lost text) = tt
    by_markers (got true) = tt
    by_markers (got false) = tt

exhausted-Settles :
    (w : World) (base summary : String) → Settles IsSettled (exhausted w base summary)
exhausted-Settles w base summary =
    bind-Settles Any IsSettled (partial_pull_request w base) (exhausted_by w summary)
      (partial-Settles w base)
      (λ pr _.
        let limit = limit_of w.report.stop in
        let u = w.report.usage in
        if_both (λ r. Built (settled w r u)) (not (eqb_ℤ pr (pos 0)))
          (settled-Built w
            (outcome_exhausted_with_pull_request limit pr w.push.head summary u w.now) u
            (λ o e. spent_opened limit pr w.push.head summary u w.now o e))
          (settled-Built w (outcome_exhausted limit summary u w.now) u
            (λ o e. spent limit summary u w.now o e)))

by_stop-Settles :
    (w : World) (base summary : String) (stop : Stop)
    → Settles IsSettled (by_stop w base summary stop)
unfolding by_stop
by_stop-Settles w base summary model_error = failed-Built w failure_model _ w.report.usage
by_stop-Settles w base summary cancelled =
    settled-Built w (outcome_aborted _ summary w.report.usage w.now) w.report.usage
      (λ o e. stopped _ summary w.report.usage w.now o e)
by_stop-Settles w base summary no_stop = finished-Settles w base summary
by_stop-Settles w base summary turns = exhausted-Settles w base summary
by_stop-Settles w base summary wall_clock = exhausted-Settles w base summary
by_stop-Settles w base summary diff_lines = exhausted-Settles w base summary

in_container-Settles :
    (w : World) (base token : String) → Settles IsSettled (in_container w base token)
unfolding in_container
in_container-Settles w base token =
    bind-Settles Any IsSettled (attempt w at_model "model" w.model) _
      (attempt-Settles w at_model "model" w.model)
      (λ _ _.
        prepend-Settles IsSettled (runs_agent ∷ pushes (push_token w.fresh_token token) ∷ []) _ (
          if_both (Settles IsSettled) (shutting_down w) tt (
            if_both (Settles IsSettled) (not (reached w.push))
              (failed-Built w failure_infra _ w.report.usage)
              (by_stop-Settles w base (summary_of w.report) w.report.stop))))

with_tools-Settles : (w : World) (base token : String) → Settles IsSettled (with_tools w base token)
with_tools-Settles w base token = prepend-Settles IsSettled (dials_tools ∷ []) _ (
    bind-Settles Any IsSettled (attempt w at_tools "dial toolbox" w.tools) _
      (attempt-Settles w at_tools "dial toolbox" w.tools)
      (λ _ _. deferred-Settles IsSettled closes_tools _ (in_container-Settles w base token)))

refresh-Settles : (w : World) (repo : Repository) → Settles Any (refresh_default_branch w repo)
unfolding refresh_default_branch
refresh-Settles w repo = by_branch w.default_branch
  where
    by_branch : (a : Answer String) → Settles Any (refreshed_by repo a)
    by_branch (lost text) = tt
    by_branch (got branch) =
        if_both (Settles Any) (is_blank branch || str_eq branch repo.default_branch) tt
          (if_both (Settles Any) (is_enrolled repo) tt tt)

execute-Settles : (w : World) → Settles IsSettled (execute w)
unfolding execute
execute-Settles w =
    bind-Settles Any IsSettled (attempt w at_repository "repository" w.repository) _
      (attempt-Settles w at_repository "repository" w.repository)
      (λ repo _.
        bind-Settles Any IsSettled (attempt w at_mint "mint token" w.token) _
          (attempt-Settles w at_mint "mint token" w.token)
          (λ token _.
            bind-Settles Any IsSettled (refresh_default_branch w repo) _ (refresh-Settles w repo)
              (λ repo' _. prepend-Settles IsSettled (prepares repo'.default_branch token ∷ []) _ (
                bind-Settles Any IsSettled (attempt w at_prepare "prepare workspace" w.prepare) _
                  (attempt-Settles w at_prepare "prepare workspace" w.prepare)
                  (λ base _. prepend-Settles IsSettled (starts ∷ []) _ (
                    bind-Settles Any IsSettled (attempt w at_start "start container" w.start) _
                      (attempt-Settles w at_start "start container" w.start)
                      (λ _ _.
                        deferred-Settles IsSettled tears_down _
                          (with_tools-Settles w base token))))))))

end_of-Settles : (m : Step End) → Settles IsSettled m → IsSettled (end_of m)
end_of-Settles (goes_on cs e) h = h
end_of-Settles (returns cs e) h = h

-- Whatever the store, GitHub, the sandbox and the model answer, and whenever a stop or a shutdown
-- arrives: the pipeline returns an outcome that a constructor of the domain built, or the error of
-- a shutdown.
pub execute-IsSettled : (w : World) → IsSettled (end_of (execute w))
execute-IsSettled w = end_of-Settles (execute w) (execute-Settles w)
