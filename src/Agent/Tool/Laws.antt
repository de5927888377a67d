-- ===== src/Agent/Tool/Laws.antt =====
-- When a run's tool calls stop it.
use autophage.Base.{
  ◌≡◌, refl, ℤ, leb_ℤ, Bool, false, ◌&&◌, ◌||◌, not, Option, none, some, List, [], ◌∷◌, any_if,
  if◌then◌else◌, arith,
}
use autophage.Agent.Stop.{no_stop, diff_lines}
use autophage.Agent.Tool.{Use, Watch, watch_start, execute, execute_all}

-- The call changed files, and the count reached the limit.
abbrev reaches : ℤ → Option ℤ → Bool
reaches limit none = false
reaches limit (some n) = leb_ℤ limit n

abbrev pub is_over : ℤ → Use → Bool
is_over limit u = not u.read_only && reaches limit u.counted

-- The flag and the number of aborts, by whether some call was over the limit.
pub record Shows (over : Bool) (w : Watch) : Type 0 where
  pub stop : w.flag.stop ≡ (if over then diff_lines else no_stop)
  pub aborts : w.aborts ≡ (if over then 1 else 0)

execute-Shows :
    (limit : ℤ) (u : Use) (over : Bool) (w : Watch)
    → Shows over w
    → Shows (over || is_over limit u) (execute limit u w)
unfolding execute
execute-Shows limit u over w h = ground arith

execute_all-Shows :
    (limit : ℤ) (us : List Use) (over : Bool) (w : Watch)
    → Shows over w
    → Shows (over || any_if (is_over limit) us) (execute_all limit us w)
unfolding execute_all
execute_all-Shows limit [] over w h = ground arith
execute_all-Shows limit (u ∷ us) over w h = ground (
  arith,
  execute_all-Shows limit us (over || is_over limit u) (execute limit u w)
      (execute-Shows limit u over w h),
)

-- Over any sequence of tool calls: the flag names the diff budget exactly if some call that was not
-- read-only was followed by a count that reached the limit, and the agent is then aborted once,
-- and otherwise not at all.
pub stops_iff :
    (limit : ℤ) (us : List Use)
    → Shows (any_if (is_over limit) us) (execute_all limit us watch_start)
stops_iff limit us =
    execute_all-Shows limit us false watch_start (record { stop = refl; aborts = refl })
