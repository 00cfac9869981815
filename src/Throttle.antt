-- ===== src/Throttle.antt =====
-- src/redis/redis-throttler.storage.ts: the Lua script and its caller. The two Redis keys of one
-- caller are the state; times are in milliseconds. The commands do what the Redis manual says.
pub mod Budget
pub mod Window
mod Tests
use fann_api.Prelude.{
  ℕ, ◌+◌, ◌-◌, ◌/◌, Bool, true, false, Option, none, some, ltb, ◌==◌, if◌then◌else◌,
}

-- A counter, and the time at which it goes (none: never).
pub record Key : Type 0 where
  pub value : ℕ
  pub expires_at : Option ℕ

pub record Keys : Type 0 where
  pub hit : Option Key
  pub block : Option Key

abbrev pub empty : Keys
empty = record { hit = none; block = none }

abbrev is_live : ℕ → Key → Bool
is_live now k = elim (k.expires_at) [ none ↦ true | some e ↦ ltb now e ]

-- the key as a command at time `now` finds it
abbrev pub live : ℕ → Option Key → Option Key
live now none = none
live now (some k) = if is_live now k then some k else none

-- `PTTL`; none is a negative answer: no key, or a key without expiry
abbrev pub pttl : ℕ → Option Key → Option ℕ
pttl now k = elim (live now k) [
  | none ↦ none
  | some k ↦ elim (k.expires_at) [ none ↦ none | some e ↦ some (e - now) ]
]

-- `tonumber(GET or '0')`
abbrev pub get : ℕ → Option Key → ℕ
get now k = elim (live now k) [ none ↦ 0 | some k ↦ k.value ]

-- `INCR` keeps the expiry; a key that is not there starts at 1, without expiry
abbrev pub incr : ℕ → Option Key → Key
incr now k = elim (live now k) [
  | none ↦ record { value = 1; expires_at = none }
  | some k ↦ record k { value = k.value + 1 }
]

-- `PEXPIRE`; a time of zero deletes the key
abbrev pub pexpire : ℕ → ℕ → Key → Option Key
pexpire now ttl k = if ttl == 0 then none else some (record k { expires_at = some (now + ttl) })

-- `math.ceil(ms / 1000)`
abbrev pub seconds : ℕ → ℕ
seconds ms = (ms + 999) / 1000

pub record ThrottlerStorageRecord : Type 0 where
  pub total_hits : ℕ
  pub time_to_expire : ℕ
  pub is_blocked : Bool
  pub time_to_block_expire : ℕ

-- the first PEXPIRE, on the first hit, and the repair of a key without expiry
start_window : ℕ → ℕ → Key → Option Key
start_window now ttl k = if k.value == 1 then pexpire now ttl k else some k

repair_window : ℕ → ℕ → Option Key → Option Key × ℕ
repair_window now ttl hit = elim (pttl now hit) [
  | some ms ↦ (hit, ms)
  | none ↦ (elim hit [ none ↦ none | some k ↦ pexpire now ttl k ], ttl)
]

-- `SET … PX 0` is an error, which ends the script: none.
decide : ℕ → ℕ → ℕ → ℕ → Option Key → ℕ → Option Key → Option ThrottlerStorageRecord × Keys
decide now limit block_duration total hit time_to_expire block =
    if ltb limit total
    then if block_duration == 0 then (none, record { hit = hit; block = block }) else (
      some (record {
        total_hits = total;
        time_to_expire = seconds time_to_expire;
        is_blocked = true;
        time_to_block_expire = seconds block_duration;
      }),
      record {
        hit = hit;
        block = some (record { value = 1; expires_at = some (now + block_duration) });
      },
    )
    else (
      some (record {
        total_hits = total;
        time_to_expire = seconds time_to_expire;
        is_blocked = false;
        time_to_block_expire = 0;
      }),
      record { hit = hit; block = block },
    )

count_hit : ℕ → ℕ → ℕ → ℕ → Keys → Option ThrottlerStorageRecord × Keys
unfolding start_window repair_window decide
count_hit now ttl limit block_duration s =
    let k = incr now s.hit in
    let (hit, time_to_expire) = repair_window now ttl (start_window now ttl k) in
    decide now limit block_duration k.value hit time_to_expire s.block

-- INCREMENT_SCRIPT
pub increment_script : ℕ → ℕ → ℕ → ℕ → Keys → Option ThrottlerStorageRecord × Keys
unfolding count_hit
increment_script now ttl limit block_duration s = elim (pttl now s.block) [
  | none ↦ count_hit now ttl limit block_duration s
  | some ms ↦
      if ltb 0 ms
      then (
        some (record {
          total_hits = get now s.hit;
          time_to_expire = elim (pttl now s.hit) [ none ↦ 0 | some h ↦ seconds h ];
          is_blocked = true;
          time_to_block_expire = seconds ms;
        }),
        s,
      )
      else count_hit now ttl limit block_duration s
]

fail_open : ℕ → ThrottlerStorageRecord
fail_open ttl = record {
  total_hits = 0;
  time_to_expire = seconds ttl;
  is_blocked = false;
  time_to_block_expire = 0;
}

-- `increment`, where `up` says whether Redis answers
pub increment : Bool → ℕ → ℕ → ℕ → ℕ → Keys → ThrottlerStorageRecord × Keys
unfolding increment_script fail_open
increment false now ttl limit block_duration s = (fail_open ttl, s)
increment true now ttl limit block_duration s =
    let (answer, s') = increment_script now ttl limit block_duration s in
    (elim answer [ none ↦ fail_open ttl | some r ↦ r ], s')
