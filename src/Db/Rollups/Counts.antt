-- ===== src/Db/Rollups/Counts.antt =====
-- What the columns of the rollup tables count.
use relaykey_backend.Base.{
  ℕ, ◌+◌, ◌≤◌, Bool, ◌≡◌, refl, inl, inr, List, [], ◌∷◌, Option, none, some, length, arith,
  All-trivial, Option-cases, if◌then◌else◌,
}
use relaykey_backend.Db.{
  Db, UsageColumns, X402Columns, UsageEvent, Stamped, PaymentIntent, Status, pending, verified,
  failed, expired,
}
use relaykey_backend.Db.Grouping.Every.{EveryRow, group_by-EveryRow}
use relaykey_backend.Db.Rollups.{count_if, Joined}
use relaykey_backend.Db.Rollups.Keys.{usage_key, error_key, x402_key}
use relaykey_backend.Db.Rollups.Metrics.{
  between, is_some, usage_in, usage_key_of, usage_columns, usage_daily_rows, rollup_usage_daily,
}
use relaykey_backend.Db.Rollups.X402Metrics.{
  is_verified, is_failed, is_expired, is_pending, intents_in, x402_key_of, x402_columns,
  x402_usage_daily_rows, rollup_x402_usage_daily,
}
use relaykey_backend.World.{Outside, World, ok, statement}

-- The status columns count some of a row's requests, and its other columns no more than all.
pub record UsageBounded (c : UsageColumns) : Type 0 where
  pub forwarded : c.forwarded_requests ≤ c.total_requests
  pub blocked : c.blocked_requests ≤ c.total_requests
  pub statuses : (c.status_2xx + c.status_3xx) + (c.status_4xx + c.status_5xx) ≤ c.total_requests
  pub averaged : c.avg_latency_ms.1 ≡ c.total_requests

-- Every intent is counted under its status.
abbrev pub X402Balanced : X402Columns → Type 0
X402Balanced c =
    (c.verified_count + c.failed_count) + (c.expired_count + c.unpaid_count) ≡ c.intents_created

count_if_le : {A : Type 0} (p : A → Bool) (xs : List A) → count_if p xs ≤ length xs
unfolding count_if
count_if_le p [] = omega arith
count_if_le p (x ∷ xs) = ground (arith, count_if_le p xs)

unfoldable pub one : Bool → ℕ
one b = if b then 1 else 0

pub count_if-step :
    {A : Type 0} (p : A → Bool) (x : A) (xs : List A)
    → count_if p (x ∷ xs) ≡ one (p x) + count_if p xs
unfolding count_if one
count_if-step p x xs = ground arith

one_class :
    (status : Option ℕ)
    → (one (between 200 299 status) + one (between 300 399 status))
        + (one (between 400 499 status) + one (between 500 599 status))
      ≤ 1
unfolding one between
one_class none = omega arith
one_class (some status) = ground arith

statuses_le :
    {A : Type 0} (status : A → Option ℕ) (xs : List A)
    → (count_if (λ x. between 200 299 (status x)) xs
          + count_if (λ x. between 300 399 (status x)) xs)
        + (count_if (λ x. between 400 499 (status x)) xs
            + count_if (λ x. between 500 599 (status x)) xs)
      ≤ length xs
unfolding count_if
statuses_le status [] = omega arith
statuses_le status (x ∷ xs) = omega (
  arith,
  one_class (status x),
  statuses_le status xs,
  count_if-step (λ x. between 200 299 (status x)) x xs,
  count_if-step (λ x. between 300 399 (status x)) x xs,
  count_if-step (λ x. between 400 499 (status x)) x xs,
  count_if-step (λ x. between 500 599 (status x)) x xs,
)

one_status :
    (s : Status)
    → (one (is_verified s) + one (is_failed s)) + (one (is_expired s) + one (is_pending s)) ≡ 1
unfolding one is_verified is_failed is_expired is_pending
one_status pending = omega arith
one_status verified = omega arith
one_status failed = omega arith
one_status expired = omega arith

statuses_add :
    (js : List (Joined PaymentIntent))
    → (count_if (λ j. is_verified j.event.status) js + count_if (λ j. is_failed j.event.status) js)
        + (count_if (λ j. is_expired j.event.status) js
            + count_if (λ j. is_pending j.event.status) js)
      ≡ length js
unfolding count_if
statuses_add [] = omega arith
statuses_add (j ∷ js) = omega (
  arith,
  one_status j.event.status,
  statuses_add js,
  count_if-step (λ j. is_verified j.event.status) j js,
  count_if-step (λ j. is_failed j.event.status) j js,
  count_if-step (λ j. is_expired j.event.status) j js,
  count_if-step (λ j. is_pending j.event.status) j js,
)

pub usage_columns-UsageBounded :
    (js : List (Joined (Stamped UsageEvent))) → UsageBounded (usage_columns js)
unfolding usage_columns
usage_columns-UsageBounded js = record {
  forwarded = count_if_le (λ j. j.event.row.forwarded) js;
  blocked = count_if_le (λ j. is_some j.event.row.blocked_reason) js;
  statuses = statuses_le (λ j. j.event.row.status_code) js;
  averaged = refl;
}

x402_columns-X402Balanced : (js : List (Joined PaymentIntent)) → X402Balanced (x402_columns js)
unfolding x402_columns
x402_columns-X402Balanced js = statuses_add js

module _ {S : Type 0} (o : Outside S) (P : Db → Type 0) where
  -- What a statement keeps, whether it gets through or not.
  pub statement-keeps :
      (f : Db → Db) (w : World S)
      → P w.db
      → P (f w.db)
      → P (statement o (λ db. (ok (tt {0}), f db)) w).1.db
  unfolding statement
  statement-keeps f w h k = elim (Option-cases (o.db_fault w.out).0) [
    | inl e ↦ rw (e, statement) k
    | inr (m, e) ↦ rw (e, statement) h
  ]

module _ {S : Type 0} (o : Outside S) (from to : ℕ) (w : World S) where
  -- `rollup_usage_daily` keeps, whether its statement gets through or not: in every row of
  -- usage_rollup_daily the forwarded and the blocked requests are at most all requests, those
  -- with a status of 2xx, 3xx, 4xx and 5xx together are at most all requests, and the average is
  -- over all requests.
  pub rollup_usage_daily-UsageBounded :
      EveryRow UsageBounded w.db.usage_rollup_daily
      → EveryRow UsageBounded (rollup_usage_daily o from to w).1.db.usage_rollup_daily
  unfolding rollup_usage_daily usage_daily_rows
  rollup_usage_daily-UsageBounded h =
      statement-keeps o (λ db. EveryRow UsageBounded db.usage_rollup_daily)
        (usage_daily_rows from to) w h
        (group_by-EveryRow usage_key_of usage_columns UsageBounded (λ _. Unit {0})
          (λ js _. usage_columns-UsageBounded js) (usage_in from to w.db) w.db.usage_rollup_daily
          (All-trivial (usage_in from to w.db)) h)

  -- `rollup_x402_usage_daily` keeps, whether its statement gets through or not: in every row of
  -- x402_rollup_daily the verified, failed, expired and unpaid intents add up to the intents
  -- created.
  pub rollup_x402_usage_daily-X402Balanced :
      EveryRow X402Balanced w.db.x402_rollup_daily
      → EveryRow X402Balanced (rollup_x402_usage_daily o from to w).1.db.x402_rollup_daily
  unfolding rollup_x402_usage_daily x402_usage_daily_rows
  rollup_x402_usage_daily-X402Balanced h =
      statement-keeps o (λ db. EveryRow X402Balanced db.x402_rollup_daily)
        (x402_usage_daily_rows from to) w h
        (group_by-EveryRow x402_key_of x402_columns X402Balanced (λ _. Unit {0})
          (λ js _. x402_columns-X402Balanced js) (intents_in from to w.db) w.db.x402_rollup_daily
          (All-trivial (intents_in from to w.db)) h)
