-- ===== src/App/RollupJob/Stages.antt =====
-- The tables after each stage of a rollup job, compared with those before the job.
pub mod Steps
use relaykey_backend.Base.{ℕ, ◌≡◌, refl, ap, ◌∙◌, ◌⊎◌, inl, inr, List, Option, arith, keep, length}
use relaykey_backend.Db.{Db, UsageKey, ErrorKey, X402Key, X402ErrorKey}
use relaykey_backend.Db.Grouping.{KeyEq, row_of}
use relaykey_backend.Db.Rollups.{join_virtual_keys}
use relaykey_backend.Db.Rollups.Keys.{usage_key, error_key, x402_key, x402_error_key}
use relaykey_backend.Db.Rollups.Days.{midnight, daily}
use relaykey_backend.Db.Rollups.Metrics.{
  is_error, usage_key_of, usage_columns, error_key_of, usage_daily_rows, error_daily_rows,
}
use relaykey_backend.Db.Rollups.X402Metrics.{
  x402_key_of, x402_columns, x402_error_key_of, x402_usage_daily_rows, x402_error_daily_rows,
}
use relaykey_backend.Db.Rollups.Rows.{
  all_usage, all_errors, all_intents, daily_usage, daily_errors, daily_x402, daily_x402_errors,
  usage_daily_rows_lem, error_daily_rows_lem, x402_usage_daily_rows_lem, x402_error_daily_rows_lem,
}

-- The tables that the rollups read are the same.
pub record SameSources (before after : Db) : Type 0 where
  pub virtual_keys : after.virtual_keys ≡ before.virtual_keys
  pub usage_events : after.usage_events ≡ before.usage_events
  pub payment_intents : after.payment_intents ≡ before.payment_intents
  pub x402_events : after.x402_events ≡ before.x402_events

module _ (from_day to_day : ℕ) where
  -- Every row of a day in the range is computed from all the events of the day, and every other row
  -- is as it was.
  pub record Rolled (before after : Db) : Type 0 where
    pub sources : SameSources before after
    pub usage :
        (k : UsageKey)
        → row_of k after.usage_rollup_daily
          ≡ daily_usage from_day to_day before k (row_of k before.usage_rollup_daily)
    pub errors :
        (k : ErrorKey)
        → row_of k after.error_rollup_daily
          ≡ daily_errors from_day to_day before k (row_of k before.error_rollup_daily)
    pub x402 :
        (k : X402Key)
        → row_of k after.x402_rollup_daily
          ≡ daily_x402 from_day to_day before k (row_of k before.x402_rollup_daily)
    pub x402_errors :
        (k : X402ErrorKey)
        → row_of k after.x402_error_rollup_daily
          ≡ daily_x402_errors from_day to_day before k (row_of k before.x402_error_rollup_daily)

  -- Every row is either so, or as it was.
  pub record Partly (before after : Db) : Type 0 where
    pub sources : SameSources before after
    pub usage :
        (k : UsageKey)
        → (row_of k after.usage_rollup_daily
            ≡ daily_usage from_day to_day before k (row_of k before.usage_rollup_daily))
          ⊎ (row_of k after.usage_rollup_daily ≡ row_of k before.usage_rollup_daily)
    pub errors :
        (k : ErrorKey)
        → (row_of k after.error_rollup_daily
            ≡ daily_errors from_day to_day before k (row_of k before.error_rollup_daily))
          ⊎ (row_of k after.error_rollup_daily ≡ row_of k before.error_rollup_daily)
    pub x402 :
        (k : X402Key)
        → (row_of k after.x402_rollup_daily
            ≡ daily_x402 from_day to_day before k (row_of k before.x402_rollup_daily))
          ⊎ (row_of k after.x402_rollup_daily ≡ row_of k before.x402_rollup_daily)
    pub x402_errors :
        (k : X402ErrorKey)
        → (row_of k after.x402_error_rollup_daily
            ≡ daily_x402_errors from_day to_day before k (row_of k before.x402_error_rollup_daily))
          ⊎ (row_of k after.x402_error_rollup_daily ≡ row_of k before.x402_error_rollup_daily)

  pub Partly-start : (before : Db) → Partly before before
  Partly-start before = record {
    sources = record {
      virtual_keys = refl;
      usage_events = refl;
      payment_intents = refl;
      x402_events = refl;
    };
    usage = λ k. inr refl;
    errors = λ k. inr refl;
    x402 = λ k. inr refl;
    x402_errors = λ k. inr refl;
  }
