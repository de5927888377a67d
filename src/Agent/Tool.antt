-- ===== src/Agent/Tool.antt =====
-- internal/agent/budget_tool.go: the diff budget around a tool call, and the stop flag it sets.
pub mod Laws
use autophage.Base.{
  ℕ, zero, suc, ◌+◌, ℤ, leb_ℤ, pos, Bool, true, false, ◌&&◌, Option, none, some, List, [], ◌∷◌,
  if◌then◌else◌,
}
use autophage.Agent.Stop.{Stop, no_stop, diff_lines, is_no_stop}

-- stopFlag. Its mutex makes each method one step.
pub record Flag : Type 0 where
  pub stop : Stop
  pub lines : ℤ

abbrev pub clear : Flag
clear = record { stop = no_stop; lines = pos 0 }

-- `set` keeps the first reason, and reports whether it was this one.
unfoldable pub set : Stop → Flag → Flag × Bool
set v f = if is_no_stop f.stop then (record f { stop = v }, true) else (f, false)

-- `diff` keeps the last count.
unfoldable pub note_diff : ℤ → Flag → Flag
note_diff n f = record f { lines = n }

-- What a tool call meets: whether the wrapped tool calls it read-only, and the count that follows,
-- where `none` is an error.
pub record Use : Type 0 where
  pub read_only : Bool
  pub counted : Option ℤ

-- The flag, and how often the agent was aborted.
pub record Watch : Type 0 where
  pub flag : Flag
  pub aborts : ℕ

abbrev pub watch_start : Watch
watch_start = record { flag = clear; aborts = 0 }

-- `n >= b.limit && b.stop.set(StopDiffLines)`, and the abort under it.
abbrev pub stop_at : ℤ → ℤ → Watch → Watch
stop_at limit n w =
    if leb_ℤ limit n
    then (let (f, first) = set diff_lines w.flag in
        record { flag = f; aborts = if first then w.aborts + 1 else w.aborts })
    else w

abbrev pub measure : ℤ → Option ℤ → Watch → Watch
measure limit none w = w
measure limit (some n) w = stop_at limit n (record w { flag = note_diff n w.flag })

-- Execute, after the wrapped tool returned.
unfoldable pub execute : ℤ → Use → Watch → Watch
unfolding set note_diff
execute limit u w = if u.read_only then w else measure limit u.counted w

unfoldable pub execute_all : ℤ → List Use → Watch → Watch
execute_all limit [] w = w
execute_all limit (u ∷ us) w = execute_all limit us (execute limit u w)
