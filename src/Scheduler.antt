-- ===== src/Scheduler.antt =====
-- src/scheduler/scheduler.service.ts: the key of a job's lock, and what the hourly maintenance tells
-- users. The jobs themselves stand with the services that they call.
mod LockKey
mod Notices
mod Tests
use fann_api.Prelude.{
  ℕ, ◌+◌, ◌*◌, ◌%◌, ◌-◌, Bool, not, Option, none, some, List, [], ◌∷◌, ◌++◌, ◌==◌, ltb, map, Text,
  first, rows, update, any, if◌then◌else◌,
}
use fann_api.Billing.{PlanCode, Subscription}
use Prim.Native.Nat.{bit_xor}

-- the range of an unsigned 32-bit integer
abbrev pub word : ℕ
word = 4_294_967_296

-- one round of the loop; `Math.imul` keeps the lowest 32 bits, which are read without their sign here
abbrev pub mix : ℕ → ℕ → ℕ
mix hash code = bit_xor hash code * 16_777_619 % word

abbrev pub fnv : ℕ → Text → ℕ
fnv hash [] = hash
fnv hash (c ∷ t) = fnv (mix hash c) t

-- a signed integer: minus so many, or so many
pub data Int4 : Type 0 where
  minus plus : ℕ → Int4

-- `hash | 0`
abbrev pub to_signed : ℕ → Int4
to_signed h = if ltb h 2_147_483_648 then plus h else minus (word - h)

unfoldable pub cron_lock_key : Text → Int4
cron_lock_key job = to_signed (fnv 2_166_136_261 job)

pub data NoticeType : Type 0 where
  subscription_expired subscription_rolled_over subscription_started : NoticeType

-- the fields of `data` that a type does not have are none; the title is left out, and a plan that has
-- started has the date it ends, which the column gives as an option
pub record MaintenanceNotification : Type 0 where
  pub user_id : ℕ
  pub type : NoticeType
  pub subscription_id : ℕ
  pub plan_code : PlanCode
  pub expires_at : Option ℕ
  pub previous_subscription_id : Option ℕ
  pub previous_plan_code : Option PlanCode

abbrev pub of_user : ℕ → Subscription → Bool
of_user u s = s.user_id == u

abbrev pub expired_notice : Subscription → MaintenanceNotification
expired_notice ended = record {
  user_id = ended.user_id;
  type = subscription_expired;
  subscription_id = ended.id;
  plan_code = ended.plan_code;
  expires_at = none;
  previous_subscription_id = none;
  previous_plan_code = none;
}

abbrev pub rolled_over_notice : Subscription → Subscription → MaintenanceNotification
rolled_over_notice ended next = record {
  user_id = ended.user_id;
  type = subscription_rolled_over;
  subscription_id = next.id;
  plan_code = next.plan_code;
  expires_at = next.expires_at;
  previous_subscription_id = some (ended.id);
  previous_plan_code = some (ended.plan_code);
}

abbrev pub started_notice : Subscription → MaintenanceNotification
started_notice next = record {
  user_id = next.user_id;
  type = subscription_started;
  subscription_id = next.id;
  plan_code = next.plan_code;
  expires_at = next.expires_at;
  previous_subscription_id = none;
  previous_plan_code = none;
}

-- `new Map(promoted.map((p) => [p.user_id, p]))`: a later row of a user takes the place of an earlier
abbrev pub set_entry : Subscription → List Subscription → List Subscription
set_entry s m =
    if any (of_user s.user_id) m then update (of_user s.user_id) (λ o. s) m else m ++ s ∷ []

abbrev pub to_map : List Subscription → List Subscription → List Subscription
to_map m [] = m
to_map m (s ∷ ss) = to_map (set_entry s m) ss

-- the two loops, over the map of the promotions that are not told yet
unfoldable pub notices : List Subscription → List Subscription → List MaintenanceNotification
notices [] pending = map started_notice pending
notices (ended ∷ expired) pending = elim (first (of_user ended.user_id) pending) [
  | none ↦ expired_notice ended ∷ notices expired pending
  | some next ↦
      rolled_over_notice ended next
      ∷ notices expired (rows (λ p. not (of_user ended.user_id p)) pending)
]

unfoldable pub build_maintenance_notifications :
    (expired promoted : List Subscription) → List MaintenanceNotification
unfolding notices
build_maintenance_notifications expired promoted = notices expired (to_map [] promoted)
