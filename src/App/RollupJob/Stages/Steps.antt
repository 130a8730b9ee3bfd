-- ===== src/App/RollupJob/Stages/Steps.antt =====
-- What each of the four rollups does to the tables of a job that has come so far.
use relaykey_backend.Base.{ℕ, ◌≡◌, ap, ◌∙◌, ◌⊎◌, inl, inr, List, Option, arith, keep, length}
use relaykey_backend.Db.{Db, UsageKey, ErrorKey, X402Key, X402ErrorKey}
use relaykey_backend.Db.Grouping.{KeyEq, row_of}
use relaykey_backend.Db.Rollups.{join_virtual_keys}
use relaykey_backend.Db.Rollups.Keys.{usage_key, error_key, x402_key, x402_error_key}
use relaykey_backend.Db.Rollups.Days.{midnight, daily}
use relaykey_backend.Db.Rollups.Metrics.{
  is_error, usage_key_of, usage_columns, error_key_of, usage_daily_rows, error_daily_rows,
}
use relaykey_backend.Db.Rollups.X402Metrics.{
  x402_key_of, x402_columns, x402_error_key_of, x402_usage_daily_rows, x402_error_daily_rows,
}
use relaykey_backend.Db.Rollups.Rows.{
  all_usage, all_errors, all_intents, daily_usage, daily_errors, daily_x402, daily_x402_errors,
  usage_daily_rows_lem, error_daily_rows_lem, x402_usage_daily_rows_lem, x402_error_daily_rows_lem,
}
use relaykey_backend.App.RollupJob.Stages.{SameSources, Rolled, Partly}

-- A rollup finds what it has already made as it would make it.
daily-settled :
    {K V E : Type 0} ⦃e : KeyEq K⦄ (key_of : E → K) (aggregate : List E → V) (day : K → ℕ)
    (from_day to_day : ℕ) (before mid : List E) (asked : K) (old new : Option V)
    → mid ≡ before
    → (new ≡ daily key_of aggregate day from_day to_day before asked old) ⊎ (new ≡ old)
    → daily key_of aggregate day from_day to_day mid asked new
      ≡ daily key_of aggregate day from_day to_day before asked old
unfolding daily
daily-settled ⦃e⦄ key_of aggregate day from_day to_day before mid asked old new p h =
    ap (λ xs. daily key_of aggregate day from_day to_day xs asked new) p
    ∙ elim h [ inl a ↦ ground (arith, a) | inr a ↦ ground (arith, a) ]

all_usage-same : (before mid : Db) → SameSources before mid → all_usage mid ≡ all_usage before
unfolding all_usage
all_usage-same before mid h =
    λ i. join_virtual_keys (λ ue. ue.row.virtual_key_id) (h.virtual_keys i) (h.usage_events i)

all_errors-same : (before mid : Db) → SameSources before mid → all_errors mid ≡ all_errors before
unfolding all_errors
all_errors-same before mid h =
    ap (keep (λ j. is_error j.event.row.blocked_reason j.event.row.status_code))
      (all_usage-same before mid h)

all_intents-same : (before mid : Db) → SameSources before mid → all_intents mid ≡ all_intents before
unfolding all_intents
all_intents-same before mid h =
    λ i. join_virtual_keys (λ pi. pi.virtual_key_id) (h.virtual_keys i) (h.payment_intents i)

module _ (from_day to_day : ℕ) where
  module _ (before mid : Db) (h : Partly from_day to_day before mid) where
    usage_daily_rows_row :
        (k : UsageKey)
        → row_of k ((usage_daily_rows (midnight from_day) (midnight to_day) mid).usage_rollup_daily)
          ≡ daily_usage from_day to_day before k (row_of k before.usage_rollup_daily)
    unfolding daily_usage
    usage_daily_rows_row k =
        usage_daily_rows_lem from_day to_day mid k
        ∙ daily-settled usage_key_of usage_columns (λ k. k.day) from_day to_day (all_usage before)
            (all_usage mid) k (row_of k before.usage_rollup_daily) (row_of k mid.usage_rollup_daily)
            (all_usage-same before mid h.sources) (h.usage k)

    error_daily_rows_row :
        (k : ErrorKey)
        → row_of k ((error_daily_rows (midnight from_day) (midnight to_day) mid).error_rollup_daily)
          ≡ daily_errors from_day to_day before k (row_of k before.error_rollup_daily)
    unfolding daily_errors
    error_daily_rows_row k =
        error_daily_rows_lem from_day to_day mid k
        ∙ daily-settled error_key_of length (λ k. k.usage.day) from_day to_day (all_errors before)
            (all_errors mid) k (row_of k before.error_rollup_daily)
            (row_of k mid.error_rollup_daily) (all_errors-same before mid h.sources) (h.errors k)

    x402_usage_daily_rows_row :
        (k : X402Key)
        → row_of k
            ((x402_usage_daily_rows (midnight from_day) (midnight to_day) mid).x402_rollup_daily)
          ≡ daily_x402 from_day to_day before k (row_of k before.x402_rollup_daily)
    unfolding daily_x402
    x402_usage_daily_rows_row k =
        x402_usage_daily_rows_lem from_day to_day mid k
        ∙ daily-settled x402_key_of x402_columns (λ k. k.usage.day) from_day to_day
            (all_intents before) (all_intents mid) k (row_of k before.x402_rollup_daily)
            (row_of k mid.x402_rollup_daily) (all_intents-same before mid h.sources) (h.x402 k)

    x402_error_daily_rows_row :
        (k : X402ErrorKey)
        → row_of k (
            (x402_error_daily_rows
              (midnight from_day)
              (midnight to_day)
              mid).x402_error_rollup_daily)
          ≡ daily_x402_errors from_day to_day before k (row_of k before.x402_error_rollup_daily)
    unfolding daily_x402_errors
    x402_error_daily_rows_row k =
        x402_error_daily_rows_lem from_day to_day mid k
        ∙ daily-settled x402_error_key_of length (λ k. k.usage.day) from_day to_day
            before.x402_events mid.x402_events k (row_of k before.x402_error_rollup_daily)
            (row_of k mid.x402_error_rollup_daily) (h.sources.x402_events) (h.x402_errors k)

    pub usage_daily_rows-Partly :
        Partly from_day to_day before (usage_daily_rows (midnight from_day) (midnight to_day) mid)
    unfolding usage_daily_rows
    usage_daily_rows-Partly = record {
      sources = record {
        virtual_keys = h.sources.virtual_keys;
        usage_events = h.sources.usage_events;
        payment_intents = h.sources.payment_intents;
        x402_events = h.sources.x402_events;
      };
      usage = λ k. inl (usage_daily_rows_row k);
      errors = h.errors;
      x402 = h.x402;
      x402_errors = h.x402_errors;
    }

    pub error_daily_rows-Partly :
        Partly from_day to_day before (error_daily_rows (midnight from_day) (midnight to_day) mid)
    unfolding error_daily_rows
    error_daily_rows-Partly = record {
      sources = record {
        virtual_keys = h.sources.virtual_keys;
        usage_events = h.sources.usage_events;
        payment_intents = h.sources.payment_intents;
        x402_events = h.sources.x402_events;
      };
      usage = h.usage;
      errors = λ k. inl (error_daily_rows_row k);
      x402 = h.x402;
      x402_errors = h.x402_errors;
    }

    pub x402_usage_daily_rows-Partly :
        Partly from_day to_day before
          (x402_usage_daily_rows (midnight from_day) (midnight to_day) mid)
    unfolding x402_usage_daily_rows
    x402_usage_daily_rows-Partly = record {
      sources = record {
        virtual_keys = h.sources.virtual_keys;
        usage_events = h.sources.usage_events;
        payment_intents = h.sources.payment_intents;
        x402_events = h.sources.x402_events;
      };
      usage = h.usage;
      errors = h.errors;
      x402 = λ k. inl (x402_usage_daily_rows_row k);
      x402_errors = h.x402_errors;
    }

    pub x402_error_daily_rows-Partly :
        Partly from_day to_day before
          (x402_error_daily_rows (midnight from_day) (midnight to_day) mid)
    unfolding x402_error_daily_rows
    x402_error_daily_rows-Partly = record {
      sources = record {
        virtual_keys = h.sources.virtual_keys;
        usage_events = h.sources.usage_events;
        payment_intents = h.sources.payment_intents;
        x402_events = h.sources.x402_events;
      };
      usage = h.usage;
      errors = h.errors;
      x402 = h.x402;
      x402_errors = λ k. inl (x402_error_daily_rows_row k);
    }

  -- All four, one after the other.
  unfoldable pub all_rows : Db → Db
  all_rows mid = x402_error_daily_rows (midnight from_day) (midnight to_day) (
      x402_usage_daily_rows (midnight from_day) (midnight to_day) (
        error_daily_rows (midnight from_day) (midnight to_day)
          (usage_daily_rows (midnight from_day) (midnight to_day) mid)))

  pub all_rows-Rolled :
      (before mid : Db)
      → Partly from_day to_day before mid
      → Rolled from_day to_day before (all_rows mid)
  unfolding all_rows usage_daily_rows error_daily_rows x402_usage_daily_rows x402_error_daily_rows
  all_rows-Rolled before mid h0 =
      let h1 = usage_daily_rows-Partly before mid h0 in
      let m1 = usage_daily_rows (midnight from_day) (midnight to_day) mid in
      let h2 = error_daily_rows-Partly before m1 h1 in
      let m2 = error_daily_rows (midnight from_day) (midnight to_day) m1 in
      let h3 = x402_usage_daily_rows-Partly before m2 h2 in
      let m3 = x402_usage_daily_rows (midnight from_day) (midnight to_day) m2 in
      let h4 = x402_error_daily_rows-Partly before m3 h3 in
      record {
        sources = h4.sources;
        usage = usage_daily_rows_row before mid h0;
        errors = error_daily_rows_row before m1 h1;
        x402 = x402_usage_daily_rows_row before m2 h2;
        x402_errors = x402_error_daily_rows_row before m3 h3;
      }
