-- ===== src/Db/Rollups/Metrics.antt =====
-- crates/relaykey-db/src/queries/metrics.rs: `rollup_usage_daily` and `rollup_error_daily`.
use relaykey_backend.Base.{
  ℕ, ◌+◌, Bool, true, false, ◌&&◌, List, [], ◌∷◌, ◌++◌, Option, none, some, leb, ◌==◌, keep, length,
  if◌then◌else◌,
}
use relaykey_backend.Text.{Text, text}
use relaykey_backend.Db.{Db, Stamped, UsageEvent, UsageKey, UsageColumns, ErrorKey}
use relaykey_backend.Db.Grouping.{group_by}
use relaykey_backend.Db.Rollups.{day_of, in_range, count_if, Joined, join_virtual_keys}
use relaykey_backend.Db.Rollups.Keys.{usage_key, error_key}
use relaykey_backend.World.{Outside, Act, Result, ok, statement}

-- `status_code BETWEEN low AND high`, which no NULL is.
unfoldable pub between : ℕ → ℕ → Option ℕ → Bool
between low high none = false
between low high (some status_code) = leb low status_code && leb status_code high

unfoldable pub is_some : {A : Type 0} → Option A → Bool
is_some none = false
is_some (some _) = true

-- The events of `[from, to)`, joined with their virtual keys.
unfoldable pub usage_in : ℕ → ℕ → Db → List (Joined (Stamped UsageEvent))
unfolding in_range join_virtual_keys
usage_in from to db =
    join_virtual_keys (λ ue. ue.row.virtual_key_id) db.virtual_keys
      (keep (λ ue. in_range from to ue.ts) db.usage_events)

-- The columns day, customer_id, virtual_key_id and partner_name.
unfoldable pub usage_key_of : Joined (Stamped UsageEvent) → UsageKey
unfolding day_of
usage_key_of j = record {
  day = day_of j.event.ts;
  customer_id = j.customer_id;
  virtual_key_id = j.event.row.virtual_key_id;
  partner_name = j.event.row.partner_name;
}

unfoldable pub sum_latency : List (Joined (Stamped UsageEvent)) → ℕ
sum_latency [] = 0
sum_latency (j ∷ js) = j.event.row.latency_ms + sum_latency js

unfoldable pub usage_columns : List (Joined (Stamped UsageEvent)) → UsageColumns
unfolding count_if between is_some sum_latency
usage_columns js = record {
  total_requests = length js;
  forwarded_requests = count_if (λ j. j.event.row.forwarded) js;
  blocked_requests = count_if (λ j. is_some j.event.row.blocked_reason) js;
  avg_latency_ms = (sum_latency js, length js);
  status_2xx = count_if (λ j. between 200 299 j.event.row.status_code) js;
  status_3xx = count_if (λ j. between 300 399 j.event.row.status_code) js;
  status_4xx = count_if (λ j. between 400 499 j.event.row.status_code) js;
  status_5xx = count_if (λ j. between 500 599 j.event.row.status_code) js;
}

-- The `CASE` of `error_bucket`.
unfoldable pub error_bucket : Option Text → Option ℕ → Text
unfolding between
error_bucket (some reason) status_code = text "blocked:" ++ reason
error_bucket none none = text "other"
error_bucket none (some status_code) =
    if status_code == 504
    then text "upstream_timeout"
    else if status_code == 502
    then text "upstream_bad_gateway"
    else if between 500 599 (some status_code)
    then text "upstream_5xx"
    else if between 400 499 (some status_code)
    then text "upstream_4xx"
    else text "other"

-- `blocked_reason IS NOT NULL OR status_code IS NULL OR status_code >= 400`
unfoldable pub is_error : Option Text → Option ℕ → Bool
is_error (some _) status_code = true
is_error none none = true
is_error none (some status_code) = leb 400 status_code

unfoldable pub errors_in : ℕ → ℕ → Db → List (Joined (Stamped UsageEvent))
unfolding usage_in is_error
errors_in from to db =
    keep (λ j. is_error j.event.row.blocked_reason j.event.row.status_code) (usage_in from to db)

unfoldable pub error_key_of : Joined (Stamped UsageEvent) → ErrorKey
unfolding usage_key_of error_bucket
error_key_of j = record {
  usage = usage_key_of j;
  error_bucket = error_bucket j.event.row.blocked_reason j.event.row.status_code;
}

-- What `rollup_usage_daily` makes of the tables.
unfoldable pub usage_daily_rows : ℕ → ℕ → Db → Db
unfolding usage_in usage_key_of usage_columns group_by
usage_daily_rows from to db = record db {
  usage_rollup_daily =
      group_by usage_key_of usage_columns (usage_in from to db) db.usage_rollup_daily;
}

-- What `rollup_error_daily` makes of the tables.
unfoldable pub error_daily_rows : ℕ → ℕ → Db → Db
unfolding errors_in error_key_of group_by
error_daily_rows from to db = record db {
  error_rollup_daily = group_by error_key_of length (errors_in from to db) db.error_rollup_daily;
}

module _ {S : Type 0} (o : Outside S) where
  unfoldable pub rollup_usage_daily : ℕ → ℕ → Act S (Result (Unit {0}))
  unfolding usage_daily_rows
  rollup_usage_daily from to = statement o (λ db. (ok tt, usage_daily_rows from to db))

  unfoldable pub rollup_error_daily : ℕ → ℕ → Act S (Result (Unit {0}))
  unfolding error_daily_rows
  rollup_error_daily from to = statement o (λ db. (ok tt, error_daily_rows from to db))
