-- ===== src/X402/Checks.antt =====
-- crates/relaykey_app/src/x402/middleware.rs: the payment headers, the response that asks for payment,
-- and the parts of `enforce_x402` up to its replay checks.
use relaykey_backend.Base.{ℕ, Bool, false, not, [], ◌∷◌, ◌++◌, Option, none, some, if◌then◌else◌}
use relaykey_backend.Text.{Text, text, text_eq, is_empty, trim}
use relaykey_backend.Http.{Headers, get_header, instructions, Response, respond}
use relaykey_backend.Context.{VirtualKeyCtx, Request, reply, go, parse_partner_from_path}
use relaykey_backend.Db.{PaymentIntent}
use relaykey_backend.World.{Outside, Exec, Result, ok, err, ◌>>=◌, lift, return, stop}
use relaykey_backend.X402.Config.{X402Config, OverrideMap}
use relaykey_backend.X402.Provider.{PaymentProvider, Registry, require}
use relaykey_backend.X402.Intents.{insert_x402_event, find_by_payment_id, find_by_payment_token}

-- What the middleware uses of the environment and of other crates: `std::env::var`, `serde_json`,
-- SHA-256 with base64, `HeaderValue::to_str`, `Uuid::to_string`, and the message of a unique index.
pub record Crates : Type 0 where
  pub env : Text → Option Text
  pub from_str : Text → Option OverrideMap
  pub digest : Text → Text
  pub to_str : Text → Option Text
  pub uuid_text : ℕ → Text
  pub unique_violation : Text

-- `.filter(|s| !s.is_empty())` after `.map(|s| s.trim().to_string())`
unfoldable pub trimmed : Option Text → Option Text
trimmed none = none
trimmed (some s) = if is_empty (trim s) then none else some (trim s)

-- One payment header: present, readable, trimmed, not empty.
unfoldable pub payment_header : (Text → Option Text) → Text → Headers → Option Text
unfolding trimmed
payment_header to_str name headers = elim (get_header name headers) [
  | some v ↦ trimmed (to_str v)
  | none ↦ none
]

unfoldable pub extract_payment_headers : (Text → Option Text) → Headers → Option Text × Option Text
extract_payment_headers to_str headers = (
  payment_header to_str (text "x-payment-id") headers,
  payment_header to_str (text "x-payment-token") headers,
)

-- `uri.path_and_query()`
unfoldable pub path_and_query : Request → Text
path_and_query req = elim req.query [ none ↦ req.path | some q ↦ req.path ++ (text "?" ++ q) ]

-- The response that asks for payment, with its headers.
unfoldable pub payment_required : X402Config → Text → Response
payment_required cfg intent_id = record {
  status = 402;
  headers =
      (text "x-payment-required", text "x402")
      ∷ (text "x-payment-amount", cfg.amount)
      ∷ (text "x-payment-currency", cfg.currency)
      ∷ (text "x-payment-facilitator", cfg.facilitator_url)
      ∷ (text "x-payment-provider", cfg.provider)
      ∷ (text "x-payment-intent-id", intent_id)
      ∷ [];
  body = instructions (text "x402") cfg.amount cfg.currency cfg.facilitator_url cfg.recipient;
}

module _ {S : Type 0} (o : Outside S) (crates : Crates) where
  -- An event of the request; a failure to insert it is ignored.
  unfoldable pub event :
      VirtualKeyCtx → Request → X402Config → Text → Option Text → Exec S (Result (Unit {0}))
  event vk req cfg event_type detail = lift (
      insert_x402_event o (record {
        customer_id = vk.customer_id;
        virtual_key_id = vk.id;
        partner_name = parse_partner_from_path req.path;
        provider = cfg.provider;
        path = req.path;
        event_type = event_type;
        detail = detail;
      }))

  unfoldable pub require_provider :
      Registry S → VirtualKeyCtx → Request → X402Config → Exec S (PaymentProvider S)
  require_provider registry vk req cfg = elim (require registry cfg.provider) [
    | ok provider ↦ return provider
    | err e ↦ do
      _ ← event vk req cfg (text "x402_config_missing") (some (text "provider not registered"))
      stop (respond 500 "x402 provider not configured")
  ]

  unfoldable pub read_request_body : Request → Exec S Text
  read_request_body req w =
      let (done, s) = o.read_body w.out in
      if done
      then (go req.body, record w { out = s })
      else (reply (respond 500 "failed to read request body"), record w { out = s })

  -- What the replay check finds: nothing in the way, or a proof that was used for another request.
  unfoldable pub is_replay : Text → Option PaymentIntent → Bool
  is_replay request_hash none = false
  is_replay request_hash (some existing) = not (text_eq existing.request_hash request_hash)

  unfoldable pub block_replay :
      VirtualKeyCtx
      → Request
      → X402Config
      → Text
      → Text
      → Result (Option PaymentIntent)
      → Exec S (Unit {0})
  block_replay vk req cfg request_hash detail (err e) = stop (respond 500 "db error")
  block_replay vk req cfg request_hash detail (ok found) =
      if is_replay request_hash found
      then (do
        _ ← event vk req cfg (text "x402_replay_blocked") (some detail)
        stop (respond 402 "payment replay blocked"))
      else return tt

  unfoldable pub check_payment_id :
      VirtualKeyCtx → Request → X402Config → Text → Option Text → Exec S (Unit {0})
  check_payment_id vk req cfg request_hash none = return tt
  check_payment_id vk req cfg request_hash (some pid) = do
    found ← lift (find_by_payment_id o pid)
    block_replay vk req cfg request_hash (text "payment_id already used for different request_hash")
        found

  unfoldable pub check_payment_token :
      VirtualKeyCtx → Request → X402Config → Text → Option Text → Exec S (Unit {0})
  check_payment_token vk req cfg request_hash none = return tt
  check_payment_token vk req cfg request_hash (some ptok) = do
    found ← lift (find_by_payment_token o ptok)
    block_replay vk req cfg request_hash
        (text "payment_token already used for different request_hash") found
