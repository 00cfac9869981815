-- ===== src/Throttle/Tests.antt =====
-- Runs, and instances of the theorems.
use fann_api.Prelude.{◌≡◌, some, [], ◌∷◌, arith}
use fann_api.Throttle.{Keys, empty}
use fann_api.Throttle.Window.{allowed, allowed_window}

-- two calls a minute, and a block of a second: the third to the fifth call are refused
allowed_window_example : allowed 60_000 2 1000 (0 ∷ 5 ∷ 10 ∷ 5000 ∷ 59_999 ∷ []) empty ≡ 2
allowed_window_example =
    allowed_window 60_000 2 1000 0 (5 ∷ 10 ∷ 5000 ∷ 59_999 ∷ []) (omega arith) (omega arith)
      (omega arith) (omega arith, (omega arith, (omega arith, (omega arith, tt))))

-- blocked until 3000
abbrev blocked : Keys
blocked = record {
  hit = some (record { value = 3; expires_at = some 60_000 });
  block = some (record { value = 1; expires_at = some 3000 });
}
