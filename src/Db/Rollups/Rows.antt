-- ===== src/Db/Rollups/Rows.antt =====
-- What the four rollups make of each row, over whole days.
use relaykey_backend.Base.{ℕ, ◌≡◌, refl, ap, ◌∙◌, List, Option, keep, length}
use relaykey_backend.Db.{
  Db, Stamped, UsageEvent, PaymentIntent, UsageKey, UsageColumns, ErrorKey, X402Key, X402Columns,
  X402ErrorKey,
}
use relaykey_backend.Db.Grouping.{row_of, group_by}
use relaykey_backend.Db.Rollups.{in_range, Joined, join_virtual_keys}
use relaykey_backend.Db.Rollups.Keys.{usage_key, error_key, x402_key, x402_error_key}
use relaykey_backend.Db.Rollups.Days.{
  midnight, whole_days, daily, row_of-whole_days, join-keep, keep_comm,
}
use relaykey_backend.Db.Rollups.Metrics.{
  usage_in, usage_key_of, usage_columns, is_error, errors_in, error_key_of, usage_daily_rows,
  error_daily_rows,
}
use relaykey_backend.Db.Rollups.X402Metrics.{
  intents_in, x402_key_of, x402_columns, x402_events_in, x402_error_key_of, x402_usage_daily_rows,
  x402_error_daily_rows,
}

-- All the events, of every day.
unfoldable pub all_usage : Db → List (Joined (Stamped UsageEvent))
unfolding join_virtual_keys
all_usage db = join_virtual_keys (λ ue. ue.row.virtual_key_id) db.virtual_keys db.usage_events

unfoldable pub all_errors : Db → List (Joined (Stamped UsageEvent))
unfolding all_usage is_error
all_errors db =
    keep (λ j. is_error j.event.row.blocked_reason j.event.row.status_code) (all_usage db)

unfoldable pub all_intents : Db → List (Joined PaymentIntent)
unfolding join_virtual_keys
all_intents db = join_virtual_keys (λ pi. pi.virtual_key_id) db.virtual_keys db.payment_intents

-- The row under each key, computed from the events of all days.
module _ (from_day to_day : ℕ) (db : Db) where
  unfoldable pub daily_usage : UsageKey → Option UsageColumns → Option UsageColumns
  unfolding daily all_usage usage_key_of usage_columns
  daily_usage = daily usage_key_of usage_columns (λ k. k.day) from_day to_day (all_usage db)

  unfoldable pub daily_errors : ErrorKey → Option ℕ → Option ℕ
  unfolding daily all_errors error_key_of
  daily_errors = daily error_key_of length (λ k. k.usage.day) from_day to_day (all_errors db)

  unfoldable pub daily_x402 : X402Key → Option X402Columns → Option X402Columns
  unfolding daily all_intents x402_key_of x402_columns
  daily_x402 = daily x402_key_of x402_columns (λ k. k.usage.day) from_day to_day (all_intents db)

  unfoldable pub daily_x402_errors : X402ErrorKey → Option ℕ → Option ℕ
  unfolding daily x402_error_key_of
  daily_x402_errors =
      daily x402_error_key_of length (λ k. k.usage.day) from_day to_day db.x402_events

  pub usage_daily_rows_lem :
      (asked : UsageKey)
      → row_of asked
          ((usage_daily_rows (midnight from_day) (midnight to_day) db).usage_rollup_daily)
        ≡ daily_usage asked (row_of asked db.usage_rollup_daily)
  unfolding usage_daily_rows usage_in all_usage daily_usage usage_key_of whole_days
  usage_daily_rows_lem asked =
      ap (λ xs. row_of asked (group_by usage_key_of usage_columns xs db.usage_rollup_daily))
        (join-keep (λ ue. ue.row.virtual_key_id) db.virtual_keys
          (λ ue. in_range (midnight from_day) (midnight to_day) ue.ts) db.usage_events)
      ∙ row_of-whole_days usage_key_of usage_columns (λ j. j.event.ts) (λ k. k.day) (λ j. refl)
          from_day to_day (all_usage db) db.usage_rollup_daily asked

  pub error_daily_rows_lem :
      (asked : ErrorKey)
      → row_of asked
          ((error_daily_rows (midnight from_day) (midnight to_day) db).error_rollup_daily)
        ≡ daily_errors asked (row_of asked db.error_rollup_daily)
  unfolding error_daily_rows errors_in usage_in all_usage all_errors daily_errors error_key_of
      usage_key_of whole_days
  error_daily_rows_lem asked =
      ap (λ xs. row_of asked (group_by error_key_of length xs db.error_rollup_daily))
        (ap (keep (λ j. is_error j.event.row.blocked_reason j.event.row.status_code)) (
            join-keep (λ ue. ue.row.virtual_key_id) db.virtual_keys
              (λ ue. in_range (midnight from_day) (midnight to_day) ue.ts) db.usage_events)
          ∙ keep_comm (λ j. in_range (midnight from_day) (midnight to_day) j.event.ts)
              (λ j. is_error j.event.row.blocked_reason j.event.row.status_code) (all_usage db))
      ∙ row_of-whole_days error_key_of length (λ j. j.event.ts) (λ k. k.usage.day) (λ j. refl)
          from_day to_day (all_errors db) db.error_rollup_daily asked

  pub x402_usage_daily_rows_lem :
      (asked : X402Key)
      → row_of asked
          ((x402_usage_daily_rows (midnight from_day) (midnight to_day) db).x402_rollup_daily)
        ≡ daily_x402 asked (row_of asked db.x402_rollup_daily)
  unfolding x402_usage_daily_rows intents_in all_intents daily_x402 x402_key_of whole_days
  x402_usage_daily_rows_lem asked =
      ap (λ xs. row_of asked (group_by x402_key_of x402_columns xs db.x402_rollup_daily))
        (join-keep (λ pi. pi.virtual_key_id) db.virtual_keys
          (λ pi. in_range (midnight from_day) (midnight to_day) pi.ts) db.payment_intents)
      ∙ row_of-whole_days x402_key_of x402_columns (λ j. j.event.ts) (λ k. k.usage.day) (λ j. refl)
          from_day to_day (all_intents db) db.x402_rollup_daily asked

  pub x402_error_daily_rows_lem :
      (asked : X402ErrorKey)
      → row_of asked
          ((x402_error_daily_rows (midnight from_day) (midnight to_day) db).x402_error_rollup_daily)
        ≡ daily_x402_errors asked (row_of asked db.x402_error_rollup_daily)
  unfolding x402_error_daily_rows x402_events_in daily_x402_errors x402_error_key_of whole_days
  x402_error_daily_rows_lem asked =
      row_of-whole_days x402_error_key_of length (λ xe. xe.ts) (λ k. k.usage.day) (λ xe. refl)
        from_day to_day db.x402_events db.x402_error_rollup_daily asked
