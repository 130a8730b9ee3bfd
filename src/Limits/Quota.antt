-- ===== src/Limits/Quota.antt =====
-- The monthly quota counts.
use relaykey_backend.Base.{ℕ, zero, suc, ◌+◌, ◌-◌, min, ◌≡◌, true, false, arith, if◌then◌else◌, leb}
use relaykey_backend.Base.Int.{ℤ, pos}
use relaykey_backend.Text.{Text}
use relaykey_backend.Retry.{unwrap_or}
use relaykey_backend.Limits.{Scripts, take_quota}

module _ {S : Type 0} (redis : Scripts S) (key : Text) (counter : S → ℕ) where
  -- What Redis documents of GET, INCR and EXPIRE on one key that does not expire meanwhile.
  pub record IsCounting : Type 0 where
    pub get_value : (s : S) → unwrap_or (redis.get key s) (pos 0) ≡ pos (counter s)
    pub incr_value : (s : S) → (redis.incr key s).0 ≡ pos (counter s + 1)
    pub incr_counts : (s : S) → counter (redis.incr key s).1 ≡ counter s + 1
    pub expire_keeps : (ttl : ℤ) (s : S) → counter (redis.expire key ttl s) ≡ counter s

  module _ (counting : IsCounting) where
    -- One run: allowed below the limit, and then counted; refused without a count.
    take_quota_lem :
        (limit : ℕ) (ttl : ℤ) (s : S)
        → ((take_quota redis key (pos limit) ttl s).0
            ≡ (if leb limit (counter s) then false else true))
          × (counter (take_quota redis key (pos limit) ttl s).1
              ≡ (if leb limit (counter s) then counter s else counter s + 1))
    unfolding take_quota
    take_quota_lem limit ttl s = ground (
      arith,
      counting.get_value s,
      counting.incr_value s,
      counting.incr_counts s,
      counting.expire_keeps ttl (redis.incr key s).1,
    )

    -- How many of `n` runs in a row allow their request.
    pub served : ℕ → ℤ → ℕ → S → ℕ
    served limit ttl zero s = 0
    served limit ttl (suc n) s =
        let (allowed, s') = take_quota redis key (pos limit) ttl s in
        let later = served limit ttl n s' in if allowed then suc later else later

    -- With a Redis that counts, of any number of requests in one month exactly as many are allowed as
    -- the limit has left.
    pub served_lem :
        (limit : ℕ) (ttl : ℤ) (n : ℕ) (s : S) → served limit ttl n s ≡ min n (limit - counter s)
    unfolding served
    served_lem limit ttl zero s = omega arith
    served_lem limit ttl (suc n) s = ground (
      arith,
      take_quota_lem limit ttl s,
      served_lem limit ttl n (take_quota redis key (pos limit) ttl s).1,
    )
