-- ===== src/Limits.antt =====
-- crates/relaykey_app/src/limits/mod.rs: the two limiters, whose Lua scripts Redis runs with no other
-- command in between. The bucket counts thousandths of a token in exact arithmetic, where the script
-- counts tokens in doubles; so a delay in milliseconds times the rate is the refill.
pub mod Quota
pub mod Bucket
pub mod Middleware
pub mod Calendar
use relaykey_backend.Base.{ℕ, Bool, true, false, ◌&&◌, ◌++◌, Option, none, some, if◌then◌else◌}
use relaykey_backend.Base.Int.{ℤ, pos, ◌+ℤ◌, ◌-ℤ◌, ◌*ℤ◌, leb_ℤ}
use relaykey_backend.Text.{Text, text}
use relaykey_backend.Retry.{unwrap_or}

-- Redis as the scripts see it, and the clocks that their arguments are read from: the system's, and
-- the calendar behind `yyyymm_utc` and `seconds_until_next_month_utc`, which Calendar fills in.
pub record Scripts (S : Type 0) : Type 0 where
  -- Whether a script is run; `false` is an error.
  pub reach : S → Bool × S
  pub now_ms : S → ℤ × S
  pub yyyymm_utc : S → Text × S
  pub seconds_until_next_month_utc : S → ℤ × S
  pub hmget : Text → S → Option ℤ × Option ℤ
  pub hmset : Text → ℤ → ℤ → S → S
  pub get : Text → S → Option ℤ
  pub incr : Text → S → ℤ × S
  pub expire : Text → ℤ → S → S
  pub uuid_text : ℕ → Text

unfoldable pub max_ℤ : ℤ → ℤ → ℤ
max_ℤ a b = if leb_ℤ a b then b else a

unfoldable pub min_ℤ : ℤ → ℤ → ℤ
min_ℤ a b = if leb_ℤ a b then a else b

abbrev pub thousand : ℤ
thousand = pos 1000

-- The tokens after the refill.
unfoldable pub refill : ℤ → ℤ → ℤ → Option ℤ → Option ℤ → ℤ
unfolding unwrap_or max_ℤ min_ℤ
refill now_ms rate cap tokens last_ms =
    let delta = max_ℤ (pos 0) (now_ms -ℤ unwrap_or last_ms now_ms) in
    min_ℤ (thousand *ℤ cap) (unwrap_or tokens (thousand *ℤ cap) +ℤ delta *ℤ rate)

-- Whether the request is allowed, and the tokens that are left.
unfoldable pub take_token : ℤ → Bool × ℤ
take_token tokens = if leb_ℤ thousand tokens then (true, tokens -ℤ thousand) else (false, tokens)

unfoldable pub rate_key : (ℕ → Text) → ℕ → Text
rate_key uuid_text vk_id = text "rl:" ++ uuid_text vk_id

unfoldable pub quota_key : (ℕ → Text) → ℕ → Text → Text
quota_key uuid_text vk_id yyyymm = text "quota:" ++ uuid_text vk_id ++ text ":" ++ yyyymm

module _ {S : Type 0} (redis : Scripts S) where
  -- `none` is an error of Redis.
  unfoldable pub token_bucket_allow : ℕ → ℤ → ℤ → S → Option Bool × S
  unfolding refill take_token rate_key
  token_bucket_allow vk_id rate_per_sec capacity s =
      let (now, s1) = redis.now_ms s in
      let (reached, s2) = redis.reach s1 in
      let key = rate_key redis.uuid_text vk_id in
      let (tokens, last_ms) = redis.hmget key s2 in
      let (allowed, left) = take_token (refill now rate_per_sec capacity tokens last_ms) in
      if reached
      then (some allowed, redis.expire key (pos 604_800) (redis.hmset key left now s2))
      else (none, s2)

  -- The second script, on its key.
  unfoldable pub take_quota : Text → ℤ → ℤ → S → Bool × S
  unfolding unwrap_or
  take_quota key limit ttl s =
      if leb_ℤ limit (unwrap_or (redis.get key s) (pos 0))
      then (false, s)
      else (let (nextv, s1) = redis.incr key s in
          (
            true,
            if leb_ℤ (pos 1) nextv && leb_ℤ nextv (pos 1) then redis.expire key ttl s1 else s1,
          ))

  unfoldable pub monthly_quota_allow_and_incr : ℕ → ℤ → S → Option Bool × S
  unfolding take_quota quota_key
  monthly_quota_allow_and_incr vk_id monthly_limit s =
      let (yyyymm, s1) = redis.yyyymm_utc s in
      let (ttl, s2) = redis.seconds_until_next_month_utc s1 in
      let (reached, s3) = redis.reach s2 in
      if reached
      then (let (allowed, s4) =
            take_quota (quota_key redis.uuid_text vk_id yyyymm) monthly_limit ttl s3 in
          (some allowed, s4))
      else (none, s3)
