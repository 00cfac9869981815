-- ===== src/Prelude/Number.antt =====
-- Numbers of the source that are not natural, and times in milliseconds.
use Prim.Native.Nat.{ℕ, ◌+◌, ◌*◌}

-- a fraction
pub record Rate : Type 0 where
  pub num : ℕ
  pub den : ℕ

-- What `Number(x)` gives: NaN or an infinity, a number below zero (by its absolute value), or
-- another number.
pub data JsNumber : Type 0 where
  not_finite : JsNumber
  negative : Rate → JsNumber
  nonnegative : Rate → JsNumber

abbrev pub day_ms : ℕ
day_ms = 86_400_000

-- `now() + interval 'n days'` and `setDate(getDate() + n)`, in UTC
abbrev pub add_days : ℕ → ℕ → ℕ
add_days time days = time + days * day_ms

-- What the database and the process give a request: the database's `now()`, the process's
-- `Date.now()`, and the ids of the rows that it inserts, in order.
pub record Env : Type 0 where
  pub now : ℕ
  pub node_now : ℕ
  pub new_id : ℕ → ℕ
