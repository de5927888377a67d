-- ===== src/Agent/Attempt/Cleanup.antt =====
-- What the pipeline of an attempt does to its container, in which order, and that it cleans up.
pub mod Contract
use autophage.Base.{
  ◌≡◌, refl, inl, inr, ◌⊎◌, String, Option, true, false, not, none, some, Option-cases, List, [],
  ◌∷◌, ◌++◌, All, if_both, str_eq, ◌∙◌, arith,
}
use autophage.Agent.Stop.{Stop, no_stop, turns, wall_clock, diff_lines, cancelled, model_error}
use autophage.Agent.World.{
  reads_markers, at_start, at_prepare, prepares, at_mint, at_repository, enrolls, pushes, at_tools,
  at_model, closes_tools, runs_agent, dials_tools, Answer, got, lost, Moment, World, Call,
  opens_pull_request, tears_down, starts, End, Step, goes_on, returns, prepend, ◌>>=◌, deferred,
}
use autophage.Agent.Attempt.{
  not, Bool, attempt, refresh_default_branch, with_tools, execute, calls_of, partial_after,
  partial_pull_request, exhausted_by, exhausted, after_markers, finished, by_stop, in_container,
  push_token, shutting_down, reached, summary_of,
}
use autophage.Agent.Attempt.Calls.{Calls, bind-Calls, refreshed-Calls}
use autophage.Agent.Attempt.Cleanup.Contract.{
  Phase, idle, running, removed, released, allows, follows, follows-append, one_step, Reaches,
  prepend-Reaches, deferred-Reaches, attempt-Reaches,
}

-- The calls on the branch that was pushed.
abbrev IsAfterPush : Call → Type 0
IsAfterPush reads_markers = Unit {0}
IsAfterPush (opens_pull_request head part) = Unit {0}
IsAfterPush _ = ⊥

after_markers-AfterPush :
    (w : World) (summary : String) (m : Answer Bool) → Calls IsAfterPush (after_markers w summary m)
after_markers-AfterPush w summary (lost text) = (tt, tt)
after_markers-AfterPush w summary (got true) = (tt, tt)
after_markers-AfterPush w summary (got false) = (tt, (tt, tt))

partial_after-AfterPush : (w : World) (m : Answer Bool) → Calls IsAfterPush (partial_after w m)
partial_after-AfterPush w (lost text) = (tt, tt)
partial_after-AfterPush w (got true) = (tt, tt)
partial_after-AfterPush w (got false) = (tt, (tt, tt))

module _ (w : World) (base : String) where
  finished-AfterPush : (summary : String) → Calls IsAfterPush (finished w base summary)
  unfolding finished
  finished-AfterPush summary =
      if_both (Calls IsAfterPush) (str_eq w.push.head base) tt
        (after_markers-AfterPush w summary w.markers)

  exhausted-AfterPush : (summary : String) → Calls IsAfterPush (exhausted w base summary)
  unfolding partial_pull_request
  exhausted-AfterPush summary =
      bind-Calls IsAfterPush (partial_pull_request w base) (exhausted_by w summary)
        (if_both (Calls IsAfterPush) (str_eq w.push.head base) tt
          (partial_after-AfterPush w w.markers))
        (λ pr. tt)

  by_stop-AfterPush :
      (summary : String) (stop : Stop) → Calls IsAfterPush (by_stop w base summary stop)
  unfolding by_stop
  by_stop-AfterPush summary model_error = tt
  by_stop-AfterPush summary cancelled = tt
  by_stop-AfterPush summary no_stop = finished-AfterPush summary
  by_stop-AfterPush summary turns = exhausted-AfterPush summary
  by_stop-AfterPush summary wall_clock = exhausted-AfterPush summary
  by_stop-AfterPush summary diff_lines = exhausted-AfterPush summary

after_push-follows : (cs : List Call) → All IsAfterPush cs → follows removed cs ≡ some removed
after_push-follows [] h = refl
after_push-follows (reads_markers ∷ cs) h = after_push-follows cs h.1
after_push-follows (opens_pull_request head part ∷ cs) h = after_push-follows cs h.1
after_push-follows (enrolls b ∷ cs) h = absurd h.0
after_push-follows (prepares b t ∷ cs) h = absurd h.0
after_push-follows (starts ∷ cs) h = absurd h.0
after_push-follows (tears_down ∷ cs) h = absurd h.0
after_push-follows (dials_tools ∷ cs) h = absurd h.0
after_push-follows (closes_tools ∷ cs) h = absurd h.0
after_push-follows (runs_agent ∷ cs) h = absurd h.0
after_push-follows (pushes t ∷ cs) h = absurd h.0

-- The container was started, and the workspace is not given up yet.
abbrev IsHeld : Phase → Type 0
IsHeld p = (p ≡ running) ⊎ (p ≡ removed)

stays_removed : (m : Step End) → Calls IsAfterPush m → Reaches removed IsHeld m
stays_removed (goes_on cs a) h = record {
  final = removed;
  way = after_push-follows cs h;
  good = inr refl;
}
stays_removed (returns cs e) h = record {
  final = removed;
  way = after_push-follows cs h;
  good = inr refl;
}

in_container-Reaches :
    (w : World) (base token : String) → Reaches running IsHeld (in_container w base token)
unfolding in_container
in_container-Reaches w base token =
    attempt-Reaches running IsHeld w at_model "model" w.model _ (λ _ _. inl refl)
      (λ _.
        prepend-Reaches running removed IsHeld
          (runs_agent ∷ pushes (push_token w.fresh_token token) ∷ []) _ refl
          (stays_removed _ (
            if_both (Calls IsAfterPush) (shutting_down w) tt (
              if_both (Calls IsAfterPush) (not (reached w.push)) tt
                (by_stop-AfterPush w base (summary_of w.report) w.report.stop)))))

closing : (p : Phase) → IsHeld p → (r : Phase) × (allows p closes_tools ≡ some r) × IsHeld r
closing p (inl e) = (running, rw e refl, inl refl)
closing p (inr e) = (removed, rw e refl, inr refl)

with_tools-Reaches :
    (w : World) (base token : String) → Reaches running IsHeld (with_tools w base token)
with_tools-Reaches w base token = prepend-Reaches running running IsHeld (dials_tools ∷ []) _ refl (
    attempt-Reaches running IsHeld w at_tools "dial toolbox" w.tools _ (λ _ _. inl refl)
      (λ _.
        deferred-Reaches running IsHeld IsHeld closes_tools _ closing
          (in_container-Reaches w base token)))

-- Teardown was called last, or the container never ran: it was not started, or its start failed.
abbrev pub IsCleanedUp : World → Phase → Type 0
IsCleanedUp w p =
    (p ≡ released) ⊎ (p ≡ idle) ⊎ ((p ≡ running) × (text : String) × (w.start ≡ lost text))

tearing :
    (w : World) (p : Phase)
    → IsHeld p
    → (r : Phase) × (allows p tears_down ≡ some r) × IsCleanedUp w r
tearing w p (inl e) = (released, rw e refl, inl refl)
tearing w p (inr e) = (released, rw e refl, inl refl)

abbrev IsEnrolment : Call → Type 0
IsEnrolment (enrolls b) = Unit {0}
IsEnrolment _ = ⊥

enrolment-follows : (cs : List Call) → All IsEnrolment cs → follows idle cs ≡ some idle
enrolment-follows [] h = refl
enrolment-follows (enrolls b ∷ cs) h = enrolment-follows cs h.1
enrolment-follows (reads_markers ∷ cs) h = absurd h.0
enrolment-follows (opens_pull_request head part ∷ cs) h = absurd h.0
enrolment-follows (prepares b t ∷ cs) h = absurd h.0
enrolment-follows (starts ∷ cs) h = absurd h.0
enrolment-follows (tears_down ∷ cs) h = absurd h.0
enrolment-follows (dials_tools ∷ cs) h = absurd h.0
enrolment-follows (closes_tools ∷ cs) h = absurd h.0
enrolment-follows (runs_agent ∷ cs) h = absurd h.0
enrolment-follows (pushes t ∷ cs) h = absurd h.0

enrolled-Reaches :
    {A : Type 0} (Q : Phase → Type 0) (m : Step A) (f : A → Step End)
    → Q idle
    → Calls IsEnrolment m
    → ((a : A) → Reaches idle Q (f a))
    → Reaches idle Q (m >>= f)
enrolled-Reaches Q (goes_on cs a) f h c k =
    prepend-Reaches idle idle Q cs (f a) (enrolment-follows cs c) (k a)
enrolled-Reaches Q (returns cs e) f h c k = record {
  final = idle;
  way = enrolment-follows cs c;
  good = h;
}

-- Whatever fails, the calls of the pipeline keep to the contract of the sandbox: the tools are dialled
-- and the agent runs only after Start and before CommitAndPush, which removes the container; conflict
-- markers are read and pull requests opened only after CommitAndPush, which is called at most once;
-- and nothing is called after Teardown.
-- And Teardown is called at the end of every attempt whose container was started: where it is not,
-- the container was not started, or its start failed.
pub execute-CleansUp : (w : World) → Reaches idle (IsCleanedUp w) (execute w)
unfolding execute
execute-CleansUp w =
    let Q = IsCleanedUp w in
    let unstarted : Q idle = inr (inl refl) in
    attempt-Reaches idle Q w at_repository "repository" w.repository _ (λ _ _. unstarted)
      (λ repo.
        attempt-Reaches idle Q w at_mint "mint token" w.token _ (λ _ _. unstarted)
          (λ token.
            enrolled-Reaches Q (refresh_default_branch w repo) _ unstarted
              (refreshed-Calls IsEnrolment w repo (λ _. tt))
              (λ repo'.
                prepend-Reaches idle idle Q (prepares repo'.default_branch token ∷ []) _ refl (
                  attempt-Reaches idle Q w at_prepare "prepare workspace" w.prepare _
                    (λ _ _. unstarted)
                    (λ base. prepend-Reaches idle running Q (starts ∷ []) _ refl (
                      attempt-Reaches running Q w at_start "start container" w.start _
                        (λ text failed. inr (inr (refl, text, failed)))
                        (λ _.
                          deferred-Reaches running IsHeld Q tears_down _ (tearing w)
                            (with_tools-Reaches w base token))))))))
