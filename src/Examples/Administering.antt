-- ===== src/Examples/Administering.antt =====
-- The admin endpoints at example tables.
use relaykey_backend.Base.{
  ℕ, ◌≡◌, refl, map, [], ◌∷◌, Option, none, some, false, if◌then◌else◌, Bool,
}
use relaykey_backend.Text.{Text, text, text_eq, is_space}
use relaykey_backend.Http.{get, get_header}
use relaykey_backend.Context.{Request, go}
use relaykey_backend.Db.{UsageKey, UsageColumns, X402Columns}
use relaykey_backend.Db.Keys.{get_policy_by_id, first}
use relaykey_backend.Db.Keys.Insert.{admits}
use relaykey_backend.Db.Rollups.Queries.{
  Filter, query_usage_rollup, query_x402_usage_rollup, query_error_rollup, query_x402_error_rollup,
}
use relaykey_backend.Db.Rollups.Queries.Answers.{
  Answers, ByPartner, Wanted, Falling, query_rollups_lem,
}
use relaykey_backend.World.{World}
use relaykey_backend.Retry.{unwrap_or}
use relaykey_backend.Auth.{readable_header, attach, require_virtual_key}
use relaykey_backend.Policies.Cache.Loading.{held}
use relaykey_backend.Admin.{json}
use relaykey_backend.Admin.VirtualKeys.{
  CreateVirtualKeyRequest, new_raw_key, new_key_of, create_virtual_key,
}
use relaykey_backend.Admin.VirtualKeys.RoundTrip.{fresh_row, created_key_authenticates}
use relaykey_backend.Admin.Metrics.{MetricsQuery}
use relaykey_backend.Admin.Usage.{usage_json, admin_usage}
use relaykey_backend.Admin.Usage.Sums.{x402_sums, admin_usage_lem}
use relaykey_backend.Examples.Data.{outside, policy, request, tables, world}
use relaykey_backend.Examples.Access.{codec, state}

abbrev body : CreateVirtualKeyRequest
body = record {
  name = text "ci";
  environment = text "test";
  tags = [];
  policy_id = 4;
  customer_id = 9;
}

abbrev new_v4 : ℕ → Text × ℕ
new_v4 s = (text "u1", s)

abbrev violation : Text
violation = text "constraint"

abbrev created_world : World ℕ
created_world = (create_virtual_key outside state new_v4 violation body (world [])).1

abbrev shown : Request
shown = request get ((text "x-relaykey", text "rk_test_u1") ∷ [])

created_key_authenticates_example :
    ((create_virtual_key outside state new_v4 violation body (world [])).0
      ≡ json 201 (record { id = 7; key = text "rk_test_u1" }))
    × ((require_virtual_key outside codec state shown created_world).0
        ≡ go (
            attach shown
              (fresh_row outside (λ s. refl) codec state new_v4 violation body (world []))
              (unwrap_or (held outside codec 4 (outside.db_fault created_world.out).1) policy)))
unfolding new_raw_key new_key_of admits get_policy_by_id first readable_header get_header text
    text_eq is_space
created_key_authenticates_example =
    created_key_authenticates outside (λ s. refl) codec state new_v4 violation body (world [])
      (117 ∷ []) 49 policy shown created_world refl refl refl refl refl refl

abbrev key : UsageKey
key = record { day = 1; customer_id = 9; virtual_key_id = 1; partner_name = text "acme" }

abbrev columns : UsageColumns
columns = record {
  total_requests = 3;
  forwarded_requests = 2;
  blocked_requests = 1;
  avg_latency_ms = (60, 3);
  status_2xx = 2;
  status_3xx = 0;
  status_4xx = 0;
  status_5xx = 0;
}

abbrev payments : ℕ → X402Columns
payments n = record {
  intents_created = n;
  verified_count = n;
  failed_count = 0;
  expired_count = 0;
  unpaid_count = 0;
  revenue_cents = 0;
}

abbrev rolled : World ℕ
rolled = record {
  db = record (tables []) {
    usage_rollup_daily = (key, columns) ∷ [];
    x402_rollup_daily =
        (record { usage = key; provider = text "noop" }, payments 2)
        ∷ (record { usage = key; provider = text "stub" }, payments 5)
        ∷ [];
  };
  out = 0;
  sent = [];
}

abbrev parse_from_str : Text → Option ℕ
parse_from_str s = if text_eq s (text "1970-01-02") then some 1 else some 2

abbrev date_text : ℕ → Text
date_text n = n ∷ []

abbrev collate : Text → Text → Bool
collate s t = false

abbrev asked : MetricsQuery
asked = record {
  from = text "1970-01-02";
  to = text "1970-01-03";
  customer_id = none;
  virtual_key_id = none;
  partner_name = none;
}

abbrev second_day : Filter
second_day = record {
  from_day = 1;
  to_day = 2;
  customer_id = some 9;
  virtual_key_id = none;
  partner_name = some (text "acme");
}

query_rollups_lem_example :
    Answers
      (ByPartner collate)
      (λ x. Wanted second_day x.0)
      ((key, columns) ∷ [])
      (query_usage_rollup collate second_day rolled.db)
    × Answers
        (Falling (λ x. x.0.usage.day) (λ x. x.1))
        (λ x. Wanted second_day x.0.usage)
        []
        (query_error_rollup second_day rolled.db)
    × Answers
        (Falling (λ x. x.0.usage.day) (λ x. x.1.intents_created))
        (λ x. Wanted second_day x.0.usage)
        rolled.db.x402_rollup_daily
        (query_x402_usage_rollup second_day rolled.db)
    × Answers
        (Falling (λ x. x.0.usage.day) (λ x. x.1))
        (λ x. Wanted second_day x.0.usage)
        []
        (query_x402_error_rollup second_day rolled.db)
query_rollups_lem_example = query_rollups_lem collate second_day rolled.db (λ s t e. refl)

admin_usage_lem_example :
    (admin_usage date_text outside parse_from_str collate asked rolled).0
    ≡ json 200 (
        map
          (λ row.
            usage_json date_text
              (x402_sums row.0 (
                query_x402_usage_rollup
                  (record {
                    from_day = 1;
                    to_day = 2;
                    customer_id = none;
                    virtual_key_id = none;
                    partner_name = none;
                  })
                  rolled.db))
              row)
          (query_usage_rollup collate
            (record {
              from_day = 1;
              to_day = 2;
              customer_id = none;
              virtual_key_id = none;
              partner_name = none;
            })
            rolled.db))
unfolding text text_eq
admin_usage_lem_example =
    admin_usage_lem date_text (λ a b e. cc) outside parse_from_str collate asked rolled 1 2 refl
      refl (λ s. refl)
