-- ===== src/Resolution/Budget.antt =====
-- internal/resolution/budget.go: the limits on one attempt, and what an attempt consumed.
pub mod Warning
use autophage.Base.{
  ℤ, pos, leb_ℤ, mul_ℕ, quot_ℕ, word_of, of_word, ◌||◌, Option, none, some, Result, ok, err,
  invalid, if◌then◌else◌,
}
use autophage.Resolution.Enums.{Limit, limit_turns, limit_wall_clock, limit_diff_lines}

-- All durations are in nanoseconds, as time.Duration is.
pub record Budget : Type 0 where
  pub max_turns : ℤ
  pub max_wall_clock : ℤ
  pub max_diff_lines : ℤ

pub record Usage : Type 0 where
  pub turns : ℤ
  pub input_tokens : ℤ
  pub output_tokens : ℤ
  pub wall_clock : ℤ
  pub diff_lines : ℤ

-- NewBudget is the only constructor: all three limits are positive.
unfoldable pub new_budget : ℤ → ℤ → ℤ → Result Budget
new_budget turns wall diff =
    if leb_ℤ turns (pos 0) || leb_ℤ wall (pos 0) || leb_ℤ diff (pos 0)
    then err invalid
    else ok (record { max_turns = turns; max_wall_clock = wall; max_diff_lines = diff })

-- `n * 8 / 10` on a 64-bit `int`: the product wraps, the quotient truncates.
abbrev pub eighty_percent : ℤ → ℤ
eighty_percent n = quot_ℕ (of_word (word_of (mul_ℕ n 8))) 10

-- WarnAt is where the agent is told to wrap up.
unfoldable pub warn_at : Budget → ℤ × ℤ
warn_at b = (eighty_percent b.max_turns, eighty_percent b.max_wall_clock)

-- Exceeded is the first limit that the usage has reached: turns, wall clock, then diff lines.
unfoldable pub exceeded : Budget → Usage → Option Limit
exceeded b u =
    if leb_ℤ b.max_turns u.turns
    then some limit_turns
    else if leb_ℤ b.max_wall_clock u.wall_clock
    then some limit_wall_clock
    else if leb_ℤ b.max_diff_lines u.diff_lines
    then some limit_diff_lines
    else none
