-- ===== src/Agent/Attempt/Requests.antt =====
-- When the pipeline opens a pull request.
use autophage.Base.{[], ◌∷◌, All}
use autophage.Agent.World.{
  reads_markers, at_start, at_prepare, prepares, at_mint, at_repository, enrolls, pushes,
  closes_tools, runs_agent, dials_tools, World, Call, opens_pull_request, tears_down, starts, End,
  Step, goes_on, returns,
}
use autophage.Agent.Attempt.{refresh_default_branch, execute, calls_of}
use autophage.Agent.Attempt.Calls.{
  Calls, prepend-Calls, deferred-Calls, bind-Calls, attempt-Calls, with_tools-Calls, weaken,
  refreshed-Calls, IsReviewable, IsProper,
}

-- Pull requests are opened for such heads only.
abbrev pub IsSound : World → Call → Type 0
IsSound w (opens_pull_request head part) = IsReviewable w head
IsSound w _ = Unit {0}

proper-IsSound : (w : World) (c : Call) → IsProper w c → IsSound w c
proper-IsSound w (enrolls b) h = tt
proper-IsSound w (prepares b t) h = tt
proper-IsSound w starts h = tt
proper-IsSound w tears_down h = tt
proper-IsSound w dials_tools h = tt
proper-IsSound w closes_tools h = tt
proper-IsSound w runs_agent h = tt
proper-IsSound w (pushes t) h = tt
proper-IsSound w reads_markers h = tt
proper-IsSound w (opens_pull_request head part) h = h

execute-Calls : (w : World) → Calls (IsSound w) (execute w)
unfolding execute
execute-Calls w = attempt-Calls (IsSound w) w at_repository "repository" w.repository _ (λ repo _.
    attempt-Calls (IsSound w) w at_mint "mint token" w.token _ (λ token _.
      bind-Calls (IsSound w) (refresh_default_branch w repo) _
        (refreshed-Calls (IsSound w) w repo (λ _. tt))
        (λ repo'.
          prepend-Calls (IsSound w) (prepares repo'.default_branch token ∷ []) _ (tt, tt)
            (attempt-Calls (IsSound w) w at_prepare "prepare workspace" w.prepare _
              (λ base prepared.
                prepend-Calls (IsSound w) (starts ∷ []) _ (tt, tt)
                  (attempt-Calls (IsSound w) w at_start "start container" w.start _ (λ _ _.
                    deferred-Calls (IsSound w) tears_down _ tt (
                      weaken (IsProper w) (IsSound w) (proper-IsSound w) _
                        (with_tools-Calls w base token prepared)))))))))

calls_of-Calls : (P : Call → Type 0) (m : Step End) → Calls P m → All P (calls_of m)
calls_of-Calls P (goes_on cs e) h = h
calls_of-Calls P (returns cs e) h = h

-- Among all calls of the pipeline, a pull request is opened, partial or not, only for the head that
-- was pushed, and only where the branch reached the remote, holds commits beyond the base it was
-- prepared on, and was read to be free of conflict markers.
pub execute-IsSound : (w : World) → All (IsSound w) (calls_of (execute w))
execute-IsSound w = calls_of-Calls (IsSound w) (execute w) (execute-Calls w)
