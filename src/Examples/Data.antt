-- ===== src/Examples/Data.antt =====
-- The test data: a world, a virtual key, requests, and the crates as concrete functions.
use relaykey_backend.Base.{
  ℕ, ◌+◌, true, false, List, [], ◌∷◌, ◌++◌, Option, none, some, if◌then◌else◌,
}
use relaykey_backend.Base.Int.{pos}
use relaykey_backend.Text.{Text, text, text_eq}
use relaykey_backend.Http.{Method, Headers}
use relaykey_backend.Context.{VirtualKeyCtx, Request}
use relaykey_backend.Policies.{PolicyRow}
use relaykey_backend.Db.{Db, PartnerRow, CredentialRow, PaymentIntent, verified}
use relaykey_backend.World.{Outside, World, responded}
use relaykey_backend.Proxy.Steps.{Urls}
use relaykey_backend.X402.Config.{X402Config}
use relaykey_backend.X402.Checks.{Crates}

-- A clock in milliseconds, with a database, a Redis and an upstream that answer.
abbrev pub outside : Outside ℕ
outside = record {
  now = λ s. (s, s + 1);
  sleep = λ ms s. s + ms;
  db_fault = λ s. (none, s + 1);
  db_now = λ s. s + 1000;
  new_id = λ s. s + 7;
  connect = λ s. (true, s);
  get = λ _ s. (some none, s);
  set_ex = λ _ _ _ s. (true, s);
  incr = λ _ s. (some (pos 1), s);
  expire = λ _ _ s. (true, s);
  read_body = λ s. (true, s);
  send = λ _ _ s. (responded 503 [] (text "busy"), s + 5);
}

abbrev pub urls : Urls Text
urls = record {
  parse = λ s. some s;
  join = λ base path. some (base ++ path);
  scheme = λ _. text "https";
  host_str = λ _. some (text "api.acme.dev");
  port_or_known_default = λ _. some 443;
  as_str = λ u. u;
  header_name = λ s. some s;
  header_value = λ s. some s;
  uuid_text = λ n. n ∷ [];
}

abbrev pub policy : PolicyRow
policy = record {
  id = 4;
  name = text "default";
  endpoint_allowlist = text "/v1/*" ∷ [];
  rps_limit = none;
  rps_burst = none;
  monthly_quota = none;
  timeout_ms = pos 30_000;
}

abbrev pub vk : VirtualKeyCtx
vk = record {
  id = 1;
  name = text "ci";
  environment = text "test";
  tags = [];
  rps_limit = none;
  rps_burst = none;
  monthly_quota = none;
  policy_id = 4;
  policy = policy;
  customer_id = 9;
}

abbrev pub request : Method → Headers → Request
request method headers = record {
  method = method;
  path = text "/proxy/acme/v1/x";
  query = none;
  headers = headers;
  body = text "hi";
  policy = some policy;
  vk = some vk;
}

abbrev pub acme : PartnerRow
acme = record { id = 2; name = text "acme"; base_url = text "https://api.acme.dev" }

abbrev pub credential : CredentialRow
credential = record { header_name = text "x-api-key"; header_value = text "secret" }

abbrev pub tables : List PaymentIntent → Db
tables rows = record {
  virtual_keys = [];
  partners = acme ∷ [];
  upstream_credentials = (record { partner_id = 2; created_at = 0; credential = credential }) ∷ [];
  policies = policy ∷ [];
  payment_intents = rows;
  customers = 9 ∷ [];
  usage_events = [];
  x402_events = [];
  usage_rollup_daily = [];
  error_rollup_daily = [];
  x402_rollup_daily = [];
  x402_error_rollup_daily = [];
}

abbrev pub world : List PaymentIntent → World ℕ
world rows = record { db = tables rows; out = 0; sent = [] }

abbrev pub terms : X402Config
terms = record {
  enabled = true;
  amount = text "5";
  currency = text "USDC";
  facilitator_url = text "https://pay";
  recipient = text "0x1";
  provider = text "noop";
  is_free = false;
  is_internal = false;
  requires_payment = true;
  path_prefixes = [];
}

-- An environment with a global default, and nothing else.
abbrev pub env : Text → Option Text
env name =
    if text_eq name (text "X402_ENABLED")
    then some (text "1")
    else if text_eq name (text "X402_AMOUNT")
    then some (text "5")
    else if text_eq name (text "X402_CURRENCY")
    then some (text "USDC")
    else if text_eq name (text "X402_FACILITATOR_URL")
    then some (text "https://pay")
    else if text_eq name (text "X402_RECIPIENT")
    then some (text "0x1")
    else none

abbrev pub crates : Crates
crates = record {
  env = env;
  from_str = λ _. none;
  digest = λ s. s;
  to_str = λ s. some s;
  uuid_text = λ n. n ∷ [];
  unique_violation = text "duplicate key";
}

-- A verified intent that holds the payment id "p1" for another request.
abbrev pub spent : PaymentIntent
spent = record {
  id = 3;
  ts = 10;
  virtual_key_id = 1;
  partner_name = text "acme";
  path = text "/proxy/acme/v1/y";
  request_hash = text "other";
  amount = text "5";
  currency = text "USDC";
  facilitator_url = text "https://pay";
  recipient = text "0x1";
  provider = text "noop";
  status = verified;
  expires_at = none;
  payment_id = some (text "p1");
  payment_token = none;
}
