-- ===== src/Admin/Errors.antt =====
-- crates/relaykey_app/src/admin/errors.rs. `date_text` prints a day.
use relaykey_backend.Base.{ℕ, map, ◌++◌, List, Option, none, some}
use relaykey_backend.Text.{Text, text}
use relaykey_backend.Db.{ErrorKey, X402ErrorKey}
use relaykey_backend.Db.Rollups.Queries.{query_error_rollup, query_x402_error_rollup}
use relaykey_backend.World.{Outside, Act, query}
use relaykey_backend.Admin.{Answer, json}
use relaykey_backend.Admin.Metrics.{MetricsQuery, with_days, rows_or_500}

pub record ErrorRollupJson : Type 0 where
  pub day : Text
  pub customer_id : ℕ
  pub virtual_key_id : ℕ
  pub partner_name : Text
  pub error_bucket : Text
  pub count : ℕ
  pub source : Text
  pub provider : Option Text

unfoldable pub gateway_json : (ℕ → Text) → ErrorKey × ℕ → ErrorRollupJson
gateway_json date_text (k, count) = record {
  day = date_text k.usage.day;
  customer_id = k.usage.customer_id;
  virtual_key_id = k.usage.virtual_key_id;
  partner_name = k.usage.partner_name;
  error_bucket = k.error_bucket;
  count = count;
  source = text "gateway";
  provider = none;
}

unfoldable pub x402_json : (ℕ → Text) → X402ErrorKey × ℕ → ErrorRollupJson
x402_json date_text (k, count) = record {
  day = date_text k.usage.day;
  customer_id = k.usage.customer_id;
  virtual_key_id = k.usage.virtual_key_id;
  partner_name = k.usage.partner_name;
  error_bucket = k.error_bucket;
  count = count;
  source = text "x402";
  provider = some k.provider;
}

module _ {S : Type 0} (o : Outside S) where
  unfoldable pub admin_errors :
      (parse_from_str : Text → Option ℕ)
      → (date_text : ℕ → Text) → MetricsQuery
      → Act S (Answer (List ErrorRollupJson))
  unfolding with_days rows_or_500 gateway_json x402_json
  admin_errors parse_from_str date_text q = with_days parse_from_str q λ f. λ w.
      rows_or_500
        (λ gateway_rows w1.
          rows_or_500
            (λ x402_rows w2. (
              json 200 (
                  map (gateway_json date_text) gateway_rows ++ map (x402_json date_text) x402_rows),
              w2,
            ))
            (query o (query_x402_error_rollup f) w1))
        (query o (query_error_rollup f) w)
