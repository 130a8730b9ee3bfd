-- ===== src/Admin/Usage.antt =====
-- crates/relaykey_app/src/admin/usage.rs: the usage of each day, with the payments of all providers
-- added up beside it. `date_text` prints a day, `collate` is the collation of partner_name.
pub mod Entries
pub mod Sums
use relaykey_backend.Base.{ℕ, ◌+◌, Bool, ◌&&◌, map, List, [], ◌∷◌, ◌==◌, Option, if◌then◌else◌}
use relaykey_backend.Text.{Text, text_eq}
use relaykey_backend.Db.{UsageKey, UsageColumns, X402Key, X402Columns}
use relaykey_backend.Db.Rollups.Queries.{query_usage_rollup, query_x402_usage_rollup}
use relaykey_backend.World.{Outside, Act, query}
use relaykey_backend.Admin.{Answer, json}
use relaykey_backend.Admin.Metrics.{MetricsQuery, with_days, rows_or_500}

-- The values of `x402_map`.
pub record X402Counts : Type 0 where
  pub intents_created : ℕ
  pub verified_count : ℕ
  pub unpaid_count : ℕ
  pub failed_count : ℕ
  pub expired_count : ℕ

-- The keys of `x402_map`.
pub record MapKey : Type 0 where
  pub day : Text
  pub customer_id : ℕ
  pub virtual_key_id : ℕ
  pub partner_name : Text

-- The JSON of a row, with its columns and its `x402_` counters each grouped.
pub record UsageRollupJson : Type 0 where
  pub day : Text
  pub customer_id : ℕ
  pub virtual_key_id : ℕ
  pub partner_name : Text
  pub columns : UsageColumns
  pub x402 : X402Counts

abbrev pub zero_counts : X402Counts
zero_counts = record {
  intents_created = 0;
  verified_count = 0;
  unpaid_count = 0;
  failed_count = 0;
  expired_count = 0;
}

unfoldable pub map_key_eq : MapKey → MapKey → Bool
map_key_eq a b =
    (text_eq a.day b.day && a.customer_id == b.customer_id)
    && (a.virtual_key_id == b.virtual_key_id && text_eq a.partner_name b.partner_name)

unfoldable pub add_counts : X402Counts → X402Columns → X402Counts
add_counts entry r = record {
  intents_created = entry.intents_created + r.intents_created;
  verified_count = entry.verified_count + r.verified_count;
  unpaid_count = entry.unpaid_count + r.unpaid_count;
  failed_count = entry.failed_count + r.failed_count;
  expired_count = entry.expired_count + r.expired_count;
}

-- `x402_map.entry(key).or_insert((0, 0, 0, 0, 0))`, and the five `+=`.
unfoldable pub add_entry :
    MapKey → X402Columns → List (MapKey × X402Counts) → List (MapKey × X402Counts)
unfolding map_key_eq add_counts
add_entry key r [] = (key, add_counts zero_counts r) ∷ []
add_entry key r ((k, entry) ∷ entries) =
    if map_key_eq k key
    then (k, add_counts entry r) ∷ entries
    else (k, entry) ∷ add_entry key r entries

-- `x402_map.get(&key).copied().unwrap_or((0, 0, 0, 0, 0))`
unfoldable pub get_counts : MapKey → List (MapKey × X402Counts) → X402Counts
unfolding map_key_eq
get_counts key [] = zero_counts
get_counts key ((k, entry) ∷ entries) = if map_key_eq k key then entry else get_counts key entries

module _ (date_text : ℕ → Text) where
  unfoldable pub map_key : UsageKey → MapKey
  map_key k = record {
    day = date_text k.day;
    customer_id = k.customer_id;
    virtual_key_id = k.virtual_key_id;
    partner_name = k.partner_name;
  }

  -- The loop over the x402 rows.
  unfoldable pub fill_map :
      List (X402Key × X402Columns) → List (MapKey × X402Counts) → List (MapKey × X402Counts)
  unfolding map_key add_entry
  fill_map [] entries = entries
  fill_map ((k, r) ∷ rows) entries = fill_map rows (add_entry (map_key k.usage) r entries)

  unfoldable pub usage_json : X402Counts → UsageKey × UsageColumns → UsageRollupJson
  usage_json x402 (k, columns) = record {
    day = date_text k.day;
    customer_id = k.customer_id;
    virtual_key_id = k.virtual_key_id;
    partner_name = k.partner_name;
    columns = columns;
    x402 = x402;
  }

  unfoldable pub with_x402 :
      List (X402Key × X402Columns) → UsageKey × UsageColumns → UsageRollupJson
  unfolding map_key fill_map get_counts usage_json
  with_x402 x402_rows row = usage_json (get_counts (map_key row.0) (fill_map x402_rows [])) row

  module _ {S : Type 0} (o : Outside S) where
    unfoldable pub admin_usage :
        (parse_from_str : Text → Option ℕ)
        → (collate : Text → Text → Bool) → MetricsQuery
        → Act S (Answer (List UsageRollupJson))
    unfolding with_days rows_or_500 with_x402
    admin_usage parse_from_str collate q = with_days parse_from_str q λ f. λ w.
        rows_or_500
          (λ rows w1.
            rows_or_500 (λ x402_rows w2. (json 200 (map (with_x402 x402_rows) rows), w2))
              (query o (query_x402_usage_rollup f) w1))
          (query o (query_usage_rollup collate f) w)
