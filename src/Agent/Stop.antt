-- ===== src/Agent/Stop.antt =====
-- The reasons a run stops for, of internal/agent/run.go, and how the code tells them apart.
use autophage.Base.{Bool, true, false}

pub data Stop : Type 0 where
  no_stop turns wall_clock diff_lines cancelled model_error : Stop

-- `stop == StopNone`, `stop == StopCancelled`, `stop == StopModelErr`.
abbrev pub is_no_stop : Stop → Bool
is_no_stop no_stop = true
is_no_stop _ = false

abbrev pub is_cancelled : Stop → Bool
is_cancelled cancelled = true
is_cancelled _ = false

abbrev pub is_model_error : Stop → Bool
is_model_error model_error = true
is_model_error _ = false
