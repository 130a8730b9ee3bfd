-- ===== src/Examples/Reaching.antt =====
-- A request that passes every middleware.
use relaykey_backend.App.Serve.{serve}
use relaykey_backend.Usage.Metering.{Entered}
use relaykey_backend.App.Serve.Ledger.{Traffic, quiet, between, traffic_rollup-UsageBalanced}
use relaykey_backend.Db.Grouping.Every.{EveryRow}
use relaykey_backend.Db.Rollups.Metrics.{rollup_usage_daily}
use relaykey_backend.Db.Rollups.Balance.{UsageBalanced}
use relaykey_backend.App.Serve.Metering.{serve-Entered}
use relaykey_backend.App.Serve.Upstreams.{Answered, serve-Answered}
use relaykey_backend.Base.{ℕ, ◌≡◌, refl, [], ◌∷◌}
use relaykey_backend.Text.{
  Text, text, text_eq, is_empty, trim, trim_start, is_space, split, push_front, split_rest,
  starts_with, strip_suffix,
}
use relaykey_backend.Http.{get, get_header, Response, respond}
use relaykey_backend.Context.{Request, Outcome, go, parse_partner_from_path}
use relaykey_backend.Db.Keys.{first, latest, get_virtual_key_by_hash, get_policy_by_id}
use relaykey_backend.Db.PaymentIntents.{
  expire_stale_payment_intents, find_verified_intent_by_payment_id,
  find_latest_pending_intent_by_request_hash,
}
use relaykey_backend.World.{World, statement, query}
use relaykey_backend.Retry.{unwrap_or}
use relaykey_backend.Policies.Allowlist.{matches, upstream_path, enforce_allowlist}
use relaykey_backend.Policies.Cache.{
  cache_key, cached_json, decode, cache_fill, from_database, load_policy_bundle,
}
use relaykey_backend.Auth.{
  hash_virtual_key, readable_header, raw_key, context_of, attach, require_raw_key, lookup_key,
  lookup_policy, require_virtual_key,
}
use relaykey_backend.Limits.Middleware.{
  clock, connect_redis, require_context, check_limits, check_rate, rate_under, check_quota,
  quota_under, enforce_limits,
}
use relaykey_backend.X402.Config.{
  is_nil, finalize_config, is_true, overlay, env_bool, parse_override_map, global_default,
  resolve_x402_config,
}
use relaykey_backend.X402.Provider
use relaykey_backend.X402.Provider.{
  noop_provider, noop_verify, stub_provider, register, require, is_some,
}
use relaykey_backend.X402.Intents.{expire_intents, find_pending, find_by_payment_id}
use relaykey_backend.X402.Checks.{
  trimmed, payment_header, extract_payment_headers, require_provider, read_request_body,
  check_payment_id, check_payment_token, block_replay, is_replay,
}
use relaykey_backend.X402.Enforce.{
  config_for, enforce_x402, charge, check_proof, or_db_error, verify, conclude, accept,
}
use relaykey_backend.App.{provider_registry, extension_vk, allowlist_layer, x402_layer, protected}
use relaykey_backend.App.Gate.{Passed, protected-Passed}
use relaykey_backend.Examples.Data.{outside, policy, request, crates, urls}
use relaykey_backend.Examples.Access.{codec, state, row, keyed}
use relaykey_backend.Examples.Limiting.{redis}

abbrev missing : Response
missing = respond 500 "missing extension"

abbrev paying : Request
paying = request get ((text "x-relaykey", text "k1") ∷ (text "x-payment-id", text "p1") ∷ [])

passes : protected outside codec state redis crates missing paying keyed ≡ (
  go (attach paying row policy),
  (protected outside codec state redis crates missing paying keyed).1,
)
unfolding protected provider_registry extension_vk allowlist_layer x402_layer register
    require_virtual_key require_raw_key raw_key readable_header get_header lookup_key lookup_policy
    hash_virtual_key load_policy_bundle cached_json cache_key decode from_database cache_fill query
    statement get_virtual_key_by_hash get_policy_by_id first latest attach context_of text text_eq
    trim trim_start is_space is_empty unwrap_or enforce_allowlist matches upstream_path split_rest
    starts_with strip_suffix enforce_limits clock require_context connect_redis check_limits
    check_rate rate_under check_quota quota_under enforce_x402 charge require_provider
    read_request_body check_proof check_payment_id check_payment_token block_replay is_replay
    or_db_error verify conclude accept expire_intents expire_stale_payment_intents
    find_by_payment_id find_pending find_verified_intent_by_payment_id
    find_latest_pending_intent_by_request_hash is_some noop_provider noop_verify config_for
    resolve_x402_config global_default env_bool is_true overlay parse_override_map finalize_config
    is_nil parse_partner_from_path split push_front require Provider.get extract_payment_headers
    payment_header trimmed
passes = refl

protected-Passed_example :
    Passed outside codec state redis crates missing paying
      (attach paying row policy)
      keyed
      (protected outside codec state redis crates missing paying keyed).1
protected-Passed_example =
    protected-Passed outside codec state redis crates missing paying (attach paying row policy)
      keyed _ passes

abbrev path_of : Request → Outcome (Text × Text)
path_of req = go (text "acme", text "v1/x")

serve-Answered_example :
    Answered outside codec state redis crates missing urls path_of paying keyed
      (serve outside codec state redis crates missing urls path_of paying keyed)
serve-Answered_example =
    serve-Answered outside codec state redis crates missing urls path_of paying keyed

serve-Entered_example :
    Entered keyed.db.usage_events
      (serve outside codec state redis crates missing urls path_of paying keyed).1
serve-Entered_example =
    serve-Entered outside codec state redis crates missing urls path_of paying keyed

-- A request has been served, and the rollup table is still empty.
abbrev served : World ℕ
served =
    let w = (serve outside codec state redis crates missing urls path_of paying keyed).1 in
    record w { db = record w.db { usage_rollup_daily = [] } }

traffic_rollup-UsageBalanced_example :
    EveryRow UsageBalanced (rollup_usage_daily outside 0 86_400_000 served).1.db.usage_rollup_daily
traffic_rollup-UsageBalanced_example =
    traffic_rollup-UsageBalanced outside codec state redis crates missing urls path_of 0 86_400_000
      keyed served tt (between (Traffic.request quiet paying) refl) tt
