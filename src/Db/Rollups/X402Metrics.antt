-- ===== src/Db/Rollups/X402Metrics.antt =====
-- crates/relaykey-db/src/queries/x402_metrics.rs: `rollup_x402_usage_daily` and
-- `rollup_x402_error_daily`.
use relaykey_backend.Base.{ℕ, Bool, true, false, List, keep, length}
use relaykey_backend.Db.{
  Db, Stamped, PaymentIntent, Status, pending, verified, failed, expired, X402Event, X402Key,
  X402Columns, X402ErrorKey,
}
use relaykey_backend.Db.Grouping.{group_by}
use relaykey_backend.Db.Rollups.{day_of, in_range, count_if, Joined, join_virtual_keys}
use relaykey_backend.Db.Rollups.Keys.{x402_key, x402_error_key}
use relaykey_backend.World.{Outside, Act, Result, ok, statement}

unfoldable pub is_verified : Status → Bool
is_verified verified = true
is_verified _ = false

unfoldable pub is_failed : Status → Bool
is_failed failed = true
is_failed _ = false

unfoldable pub is_expired : Status → Bool
is_expired expired = true
is_expired _ = false

unfoldable pub is_pending : Status → Bool
is_pending pending = true
is_pending _ = false

-- The intents of `[from, to)`, joined with their virtual keys.
unfoldable pub intents_in : ℕ → ℕ → Db → List (Joined PaymentIntent)
unfolding in_range join_virtual_keys
intents_in from to db =
    join_virtual_keys (λ pi. pi.virtual_key_id) db.virtual_keys
      (keep (λ pi. in_range from to pi.ts) db.payment_intents)

unfoldable pub x402_key_of : Joined PaymentIntent → X402Key
unfolding day_of
x402_key_of j = record {
  usage = record {
    day = day_of j.event.ts;
    customer_id = j.customer_id;
    virtual_key_id = j.event.virtual_key_id;
    partner_name = j.event.partner_name;
  };
  provider = j.event.provider;
}

unfoldable pub x402_columns : List (Joined PaymentIntent) → X402Columns
unfolding count_if is_verified is_failed is_expired is_pending
x402_columns js = record {
  intents_created = length js;
  verified_count = count_if (λ j. is_verified j.event.status) js;
  failed_count = count_if (λ j. is_failed j.event.status) js;
  expired_count = count_if (λ j. is_expired j.event.status) js;
  unpaid_count = count_if (λ j. is_pending j.event.status) js;
  revenue_cents = 0;
}

unfoldable pub x402_events_in : ℕ → ℕ → Db → List (Stamped X402Event)
unfolding in_range
x402_events_in from to db = keep (λ xe. in_range from to xe.ts) db.x402_events

unfoldable pub x402_error_key_of : Stamped X402Event → X402ErrorKey
unfolding day_of
x402_error_key_of xe = record {
  usage = record {
    day = day_of xe.ts;
    customer_id = xe.row.customer_id;
    virtual_key_id = xe.row.virtual_key_id;
    partner_name = xe.row.partner_name;
  };
  provider = xe.row.provider;
  error_bucket = xe.row.event_type;
}

-- What `rollup_x402_usage_daily` makes of the tables.
unfoldable pub x402_usage_daily_rows : ℕ → ℕ → Db → Db
unfolding intents_in x402_key_of x402_columns group_by
x402_usage_daily_rows from to db = record db {
  x402_rollup_daily =
      group_by x402_key_of x402_columns (intents_in from to db) db.x402_rollup_daily;
}

-- What `rollup_x402_error_daily` makes of the tables.
unfoldable pub x402_error_daily_rows : ℕ → ℕ → Db → Db
unfolding x402_events_in x402_error_key_of group_by
x402_error_daily_rows from to db = record db {
  x402_error_rollup_daily =
      group_by x402_error_key_of length (x402_events_in from to db) db.x402_error_rollup_daily;
}

module _ {S : Type 0} (o : Outside S) where
  unfoldable pub rollup_x402_usage_daily : ℕ → ℕ → Act S (Result (Unit {0}))
  unfolding x402_usage_daily_rows
  rollup_x402_usage_daily from to = statement o (λ db. (ok tt, x402_usage_daily_rows from to db))

  unfoldable pub rollup_x402_error_daily : ℕ → ℕ → Act S (Result (Unit {0}))
  unfolding x402_error_daily_rows
  rollup_x402_error_daily from to = statement o (λ db. (ok tt, x402_error_daily_rows from to db))
