-- ===== src/Examples/Rolling.antt =====
-- Two days of events, rolled up.
use relaykey_backend.Base.{
  false, ℕ, ◌≡◌, refl, true, ◌+◌, List, [], ◌∷◌, Option, none, some, length, keep, if◌then◌else◌,
}
use relaykey_backend.Text.{Text, text, text_eq}
use relaykey_backend.Db.{Db, VirtualKeyRow, Stamped, UsageEvent}
use relaykey_backend.Db.Grouping.Totals.{total}
use relaykey_backend.Db.Grouping.Every.{EveryRow}
use relaykey_backend.Db.Rollups.Keys.{usage_key}
use relaykey_backend.Db.Rollups.Metrics.{is_error, usage_daily_rows, error_daily_rows}
use relaykey_backend.Db.Rollups.X402Metrics.{rollup_x402_usage_daily}
use relaykey_backend.Db.Rollups.Counts.{X402Balanced, rollup_x402_usage_daily-X402Balanced}
use relaykey_backend.Db.Rollups.Totals.{ranged, rollup_totals}
use relaykey_backend.World.{World, ok}
use relaykey_backend.App.Settings.{Settings}
use relaykey_backend.App.RollupJob.{position, arg_value, main}
use relaykey_backend.App.RollupJob.Stages.{Rolled}
use relaykey_backend.App.RollupJob.Completes.{rollup_completes, rollup_retries}
use relaykey_backend.Examples.Data.{outside, tables, spent}

abbrev key_row : VirtualKeyRow
key_row = record {
  id = 1;
  name = text "ci";
  environment = text "test";
  tags = [];
  customer_id = 9;
  enabled = true;
  rps_limit = none;
  rps_burst = none;
  monthly_quota = none;
  key_hash = text "h";
  policy_id = 4;
  created_at = 0;
}

abbrev usage : ℕ → Option Text → Option ℕ → Stamped UsageEvent
usage ts blocked_reason status_code = record {
  ts = ts;
  row = record {
    virtual_key_id = 1;
    customer_id = 9;
    partner_name = text "acme";
    path = text "/v1/x";
    forwarded = elim blocked_reason [ none ↦ true | some _ ↦ false ];
    blocked_reason = blocked_reason;
    status_code = status_code;
    latency_ms = 20;
  };
}

abbrev logged : Db
logged = record (tables (spent ∷ [])) {
  virtual_keys = key_row ∷ [];
  usage_events =
      usage 86_400_005 none (some 504)
      ∷ usage 30 (some (text "ssrf_blocked")) none
      ∷ usage 20 none (some 200)
      ∷ usage 10 none (some 200)
      ∷ [];
}

abbrev logged_world : World ℕ
logged_world = record { db = logged; out = 0; sent = [] }

abbrev parse_from_str : Text → Option ℕ
parse_from_str s =
    if text_eq s (text "1970-01-01")
    then some 0
    else if text_eq s (text "1970-01-03")
    then some 2
    else none

abbrev connect : Text → ℕ → Option Text × ℕ
connect url s = (none, s + 1)

abbrev settings : Settings ℕ
settings = record {
  bind_addr = 8080;
  database_url = text "postgres://db";
  redis_url = text "redis://redis";
  log_filter = text "info";
  key_salt = text "salt";
}

abbrev args : List Text
args = text "rollup" ∷ text "--from" ∷ text "1970-01-01" ∷ text "--to" ∷ text "1970-01-03" ∷ []

abbrev run : World ℕ → World ℕ
run w = (main outside parse_from_str connect (ok settings) args w).1

rollup_completes_example :
    ((main outside parse_from_str connect (ok settings) args logged_world).0 ≡ ok tt)
    × Rolled 0 2 logged (run logged_world).db
unfolding arg_value position text text_eq
rollup_completes_example =
    rollup_completes outside parse_from_str connect settings args (text "1970-01-01")
      (text "1970-01-03") 0 2 refl refl refl refl (λ s. refl) (λ s. refl) logged_world

rollup_retries_example : Rolled 0 2 logged (run (run logged_world)).db
unfolding arg_value position text text_eq
rollup_retries_example =
    rollup_retries outside parse_from_str connect settings args (text "1970-01-01")
      (text "1970-01-03") 0 2 refl refl refl refl logged_world (run logged_world) refl
      (rollup_completes outside parse_from_str connect settings args (text "1970-01-01")
        (text "1970-01-03") 0 2 refl refl refl refl (λ s. refl) (λ s. refl) (run logged_world)).0

rollup_totals_example :
    (total (λ c. c.total_requests) (usage_daily_rows 0 200_000_000 logged).usage_rollup_daily
      ≡ length (ranged 0 200_000_000 logged))
    × (total (λ n. n) (error_daily_rows 0 200_000_000 logged).error_rollup_daily
        ≡ length (
            keep
              (λ ue. is_error ue.row.blocked_reason ue.row.status_code)
              (ranged 0 200_000_000 logged)))
rollup_totals_example =
    rollup_totals 0 200_000_000 logged (refl, (refl, (refl, (refl, tt)))) refl refl

rollup_x402_usage_daily-X402Balanced_example :
    EveryRow X402Balanced
      (rollup_x402_usage_daily outside 0 200_000_000 logged_world).1.db.x402_rollup_daily
rollup_x402_usage_daily-X402Balanced_example =
    rollup_x402_usage_daily-X402Balanced outside 0 200_000_000 logged_world tt
