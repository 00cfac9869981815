-- ===== src/Throttle/Budget.antt =====
-- One call: when it is blocked, and what it leaves behind.
use fann_api.Prelude.{ℕ, ◌<◌, ◌+◌, ◌↔◌, is_some, get_or, ◌≡◌, true, none, some, arith}
use fann_api.Throttle.{Keys, get, pttl, increment, seconds}

-- A caller who is blocked is not counted again: the call changes nothing, so it cannot extend the
-- block either, and it is refused.
pub increment_blocked :
    (now ttl limit block_duration ms : ℕ) (s : Keys)
    → pttl now s.block ≡ some ms
    → 0 < ms
    → let (r, s') = increment true now ttl limit block_duration s in
      (r.is_blocked ≡ true) × (r.time_to_block_expire ≡ seconds ms) × (s' ≡ s)
unfolding increment
increment_blocked now ttl limit block_duration ms s b h = ground arith

-- With no block in force the call is counted, and is refused exactly when the count, this call
-- included, is above the limit. Its key then always has an expiry, so no count lasts for ever,
-- and the time that is reported for it is that of the key, in seconds.
pub increment_counts :
    (now ttl limit block_duration : ℕ) (s : Keys)
    → 0 < ttl
    → 0 < block_duration
    → pttl now s.block ≡ none
    → let (r, s') = increment true now ttl limit block_duration s in
      (r.total_hits ≡ get now s.hit + 1)
      × ((r.is_blocked ≡ true) ↔ (limit < get now s.hit + 1))
      × (is_some (pttl now s'.hit) ≡ true)
      × (r.time_to_expire ≡ seconds (get_or (pttl now s'.hit) 0))
unfolding increment
increment_counts now ttl limit block_duration s p b free =
    (ground arith, ground arith, ground arith, ground arith)
