-- ===== src/Examples/Limiting.antt =====
-- The limits at example requests.
use relaykey_backend.Base.{
  ℕ, ◌+◌, ◌-◌, ◌*◌, ◌≤◌, min, ◌≡◌, refl, inl, inr, true, [], ◌∷◌, Option, none, some, arith,
  if◌then◌else◌, leb, Bool-cases,
}
use relaykey_backend.Base.Int.{ℤ, pos, pos_part, ◌+ℤ◌, ◌-ℤ◌, ◌*ℤ◌}
use relaykey_backend.Text.{text}
use relaykey_backend.Http.{get}
use relaykey_backend.Context.{Request, go}
use relaykey_backend.Retry.{unwrap_or}
use relaykey_backend.Limits.{
  Scripts, max_ℤ, min_ℤ, refill, take_token, take_quota, token_bucket_allow,
  monthly_quota_allow_and_incr,
}
use relaykey_backend.Limits.Quota
use relaykey_backend.Limits.Quota.{served, served_lem}
use relaykey_backend.Limits.Bucket
use relaykey_backend.Limits.Bucket.{week_ms, granted, after, passed, granted_bound}
use relaykey_backend.Limits.Middleware.{
  bucket_capacity, clock, heed, run_script, rate_under, check_rate, quota_under, check_quota,
  connect_redis, require_context, check_limits, enforce_limits,
}
use relaykey_backend.Limits.Middleware.Admission.{Admitted, enforce_limits-Admitted}
use relaykey_backend.Examples.Data.{outside, vk, request, world}

-- A Redis whose one counter is the state.
abbrev pub redis : Scripts ℕ
redis = record {
  reach = λ s. (true, s);
  now_ms = λ s. (pos 1000, s);
  yyyymm_utc = λ s. (text "202501", s);
  seconds_until_next_month_utc = λ s. (pos 60, s);
  hmget = λ _ _. (none, none);
  hmset = λ _ _ _ s. s;
  get = λ _ s. some (pos s);
  incr = λ _ s. (pos (s + 1), s + 1);
  expire = λ _ _ s. s;
  uuid_text = λ n. n ∷ [];
}

counting : Quota.IsCounting redis (text "quota:1:202501") (λ s. s)
unfolding unwrap_or
counting = record {
  get_value = λ s. refl;
  incr_value = λ s. refl;
  incr_counts = λ s. refl;
  expire_keeps = λ ttl s. refl;
}

served_lem_example :
    served redis (text "quota:1:202501") (λ s. s) counting 100 (pos 60) 250 30 ≡ min 250 (100 - 30)
served_lem_example = served_lem redis (text "quota:1:202501") (λ s. s) counting 100 (pos 60) 250 30

-- A Redis with one bucket; a week passes before each request, on its clock and on the system's.
record Store : Type 0 where
  time : ℕ
  tokens : Option ℤ × Option ℤ
  until : ℕ

abbrev week_later : Store → Store
week_later s =
    let now = s.time + 604_800_000 in
    if leb s.until now
    then record s { time = now; tokens = (none, none) }
    else record s { time = now }

abbrev weekly : Scripts Store
weekly = record {
  reach = λ s. (true, s);
  now_ms = λ s. (pos (s.time + 604_800_000), week_later s);
  yyyymm_utc = λ s. (text "202501", s);
  seconds_until_next_month_utc = λ s. (pos 60, s);
  hmget = λ _ s. s.tokens;
  hmset = λ _ tokens now s. record s { tokens = (some tokens, some now) };
  get = λ _ s. none;
  incr = λ _ s. (pos 1, s);
  expire = λ _ ttl s. record s { until = s.time + pos_part ttl * 1000 };
  uuid_text = λ n. n ∷ [];
}

abbrev wall : Store → ℕ
wall s = s.time + 604_800_000

abbrev time_of : Store → ℕ
time_of s = s.time

abbrev until_of : Store → ℕ
until_of s = s.until

week_later-Later : (s : Store) → Bucket.Later weekly 1 wall time_of until_of s (week_later s)
week_later-Later s = elim (Bool-cases (leb s.until (s.time + 604_800_000))) [
  | inl e ↦ rw e (omega arith, inr (refl, ground (arith, e)))
  | inr e ↦ rw e (omega arith, inl (refl, refl))
]

storing : Bucket.IsBucketStore weekly 1 wall time_of until_of
storing = record {
  now_ms_value = λ s. refl;
  now_ms_later = week_later-Later;
  reach_later = λ s. (omega arith, inl (refl, refl));
  hmset_value = λ tokens now s. refl;
  hmset_time = λ tokens now s. refl;
  expire_value = λ ttl s h. refl;
  expire_time = λ ttl s. refl;
  expire_until = λ ttl s h. refl;
}

abbrev opening : Store
opening = record { time = 0; tokens = (none, none); until = 0 }

granted_bound_example :
    (expired : ℕ) × (1000 * granted weekly 1 wall time_of until_of 5 2 3 opening
      ≤ 1000 * 2
        + expired * (1000 * 2)
        + passed weekly 1 wall time_of until_of 5 2 (wall opening) 3 opening * 5)
    × (time_of opening + expired * week_ms
        ≤ time_of (after weekly 1 wall time_of until_of 5 2 3 opening))
granted_bound_example = granted_bound weekly 1 wall time_of until_of 5 2 storing 3 opening refl

-- With a rate of nothing and a capacity of one, the expiry after a week without requests allows a second one.
expires_after_a_week : granted weekly 1 wall time_of until_of 0 1 2 opening ≡ 2
unfolding granted token_bucket_allow take_token refill max_ℤ min_ℤ unwrap_or ◌+ℤ◌ ◌-ℤ◌ ◌*ℤ◌
expires_after_a_week = refl

abbrev limited : Request
limited = record (request get []) {
  vk = some (record vk { rps_limit = some (pos 5); monthly_quota = some (pos 100) });
}

passes :
    enforce_limits outside redis limited (world [])
    ≡ (go limited, (enforce_limits outside redis limited (world [])).1)
unfolding enforce_limits clock require_context connect_redis check_limits check_rate rate_under
    check_quota quota_under run_script heed token_bucket_allow monthly_quota_allow_and_incr
    take_quota refill take_token bucket_capacity max_ℤ min_ℤ unwrap_or ◌+ℤ◌ ◌-ℤ◌ ◌*ℤ◌
passes = refl

enforce_limits-Admitted_example :
    Admitted outside redis limited limited
      (world [])
      (enforce_limits outside redis limited (world [])).1
enforce_limits-Admitted_example =
    enforce_limits-Admitted outside redis limited limited (world []) _ passes
