-- ===== src/Resolution/Budget/Warning.antt =====
-- The warning of a budget, against its limits.
use Prim.Native.Nat.{◌^◌}
use autophage.Base.{ℕ, ◌*◌, ◌<◌, ◌/◌, ◌≡◌, ℤ, pos, ◌<ℤ◌, mul_ℕ, leb_ℤ, negsuc, false, ok, arith}
use autophage.Resolution.Budget.{Budget, new_budget, eighty_percent, warn_at}

small-warning : (n : ℕ) → n * 8 < 2 ^ 63 → eighty_percent (pos n) ≡ pos (n * 8 / 10)
small-warning n h = ground (arith, h)

small-below : (n : ℕ) → 0 < n → n * 8 < 2 ^ 63 → eighty_percent (pos n) <ℤ pos n
small-below n p h = rw (small-warning n h) (omega (arith, p))

limit-below : (n : ℤ) → leb_ℤ n (pos 0) ≡ false → mul_ℕ n 8 <ℤ pos (2 ^ 63) → eighty_percent n <ℤ n
limit-below (pos n) p h = small-below n (ground (arith, p)) (ground (arith, h))
limit-below (negsuc n) p h = ground (arith, p)

-- For a budget that NewBudget accepts, with less than 2^60 turns and nanoseconds: the agent is warned
-- strictly before either limit is reached.
pub warning_first :
    (turns wall diff : ℤ) {b : Budget}
    → new_budget turns wall diff ≡ ok b
    → mul_ℕ turns 8 <ℤ pos (2 ^ 63)
    → mul_ℕ wall 8 <ℤ pos (2 ^ 63)
    → ((warn_at b).0 <ℤ b.max_turns) × ((warn_at b).1 <ℤ b.max_wall_clock)
unfolding new_budget warn_at
warning_first turns wall diff {b} made t w = (
  let same : b.max_turns ≡ turns = ground (arith, made) in
      rw same (limit-below turns (ground (arith, made)) t),
  let same : b.max_wall_clock ≡ wall = ground (arith, made) in
      rw same (limit-below wall (ground (arith, made)) w),
)
