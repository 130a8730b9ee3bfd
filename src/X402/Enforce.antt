-- ===== src/X402/Enforce.antt =====
-- crates/relaykey_app/src/x402/middleware.rs: the middleware `enforce_x402` from the provider's word
-- on, and as a whole. It ends with a response, or goes on with the request.
pub mod Paid
pub mod Table
pub mod Replay
pub mod Recorded
pub mod Late
pub mod Unmatched
pub mod Settled
pub mod Challenge
use relaykey_backend.Base.{
  ℕ, Bool, true, false, not, ◌||◌, List, [], ◌∷◌, ◌++◌, Option, none, some, if◌then◌else◌,
}
use Prim.Native.String.{String}
use relaykey_backend.Text.{Text, text, text_eq, is_empty, trim}
use relaykey_backend.Http.{Headers, get_header, Body, instructions, Response, respond}
use relaykey_backend.Context.{VirtualKeyCtx, Request, Outcome, reply, go, parse_partner_from_path}
use relaykey_backend.Db.{PaymentIntent, X402Event}
use relaykey_backend.Db.PaymentIntents.{NewIntent}
use relaykey_backend.World.{Outside, World, Act, Exec, Result, ok, err, ◌>>=◌, lift, return, stop}
use relaykey_backend.X402.Config.{X402Config, OverrideMap, resolve_x402_config}
use relaykey_backend.X402.Provider.{
  VerifyInput, VerifyOutput, PaymentProvider, Registry, require, is_some,
}
use relaykey_backend.X402.Hash.{compute_request_hash}
use relaykey_backend.X402.Intents.{
  insert_x402_event, insert_intent, expire_intents, mark_verified, mark_failed, find_pending,
  find_by_payment_id, find_by_payment_token,
}
use relaykey_backend.X402.Checks.{
  Crates, trimmed, payment_header, extract_payment_headers, path_and_query, payment_required, event,
  require_provider, read_request_body, is_replay, block_replay, check_payment_id,
  check_payment_token,
}

module _ {S : Type 0} (o : Outside S) (crates : Crates) where
  -- A failed statement ends the request.
  unfoldable pub or_db_error : {A : Type 0} → Result A → Exec S A
  or_db_error (ok a) = return a
  or_db_error (err e) = stop (respond 500 "db error")

  unfoldable pub verify : PaymentProvider S → VerifyInput → Act S (Result VerifyOutput)
  verify provider input w =
      let (out, s) = provider.verify input w.out in (out, record w { out = s })

  -- `Ok(out) if out.verified`
  unfoldable pub accept :
      Request → Option PaymentIntent → Option Text → Option Text → Exec S Request
  accept req none payment_id payment_token = return req
  accept req (some intent) payment_id payment_token = do
    marked ← lift (mark_verified o crates.unique_violation intent.id payment_id payment_token)
    _ ← or_db_error marked
    return req

  -- `Ok(out)`
  unfoldable pub refuse :
      VirtualKeyCtx
      → Request
      → X402Config
      → Option PaymentIntent
      → Option Text
      → Option Text
      → VerifyOutput
      → Exec S Request
  refuse vk req cfg none payment_id payment_token out = do
    _ ← event o crates vk req cfg (text "x402_verify_failed") out.reason
    stop (respond 402 "payment not verified")
  refuse vk req cfg (some intent) payment_id payment_token out = do
    marked ← lift (mark_failed o crates.unique_violation intent.id payment_id payment_token)
    _ ← or_db_error marked
    _ ← event o crates vk req cfg (text "x402_verify_failed") out.reason
    stop (respond 402 "payment not verified")

  -- `Err(e)`
  unfoldable pub provider_error :
      VirtualKeyCtx
      → Request
      → X402Config
      → Option PaymentIntent
      → Option Text
      → Option Text
      → Text
      → Exec S Request
  provider_error vk req cfg none payment_id payment_token e = do
    _ ← event o crates vk req cfg (text "x402_provider_error") (some e)
    stop (respond 500 "x402 verify failed")
  provider_error vk req cfg (some intent) payment_id payment_token e = do
    _ ← lift (mark_failed o crates.unique_violation intent.id payment_id payment_token)
    _ ← event o crates vk req cfg (text "x402_provider_error") (some e)
    stop (respond 500 "x402 verify failed")

  unfoldable pub conclude :
      VirtualKeyCtx
      → Request
      → X402Config
      → Option PaymentIntent
      → Option Text
      → Option Text
      → Result VerifyOutput
      → Exec S Request
  conclude vk req cfg pending payment_id payment_token (ok out) =
      if out.verified
      then accept req pending payment_id payment_token
      else refuse vk req cfg pending payment_id payment_token out
  conclude vk req cfg pending payment_id payment_token (err e) =
      provider_error vk req cfg pending payment_id payment_token e

  -- With a payment proof: the replay checks, the pending intent, the provider's word.
  unfoldable pub check_proof :
      PaymentProvider S
      → VirtualKeyCtx
      → Request
      → X402Config
      → Text
      → Option Text
      → Option Text
      → Exec S Request
  check_proof provider vk req cfg request_hash payment_id payment_token = do
    _ ← check_payment_id o crates vk req cfg request_hash payment_id
    _ ← check_payment_token o crates vk req cfg request_hash payment_token
    found ← lift (find_pending o vk.id (parse_partner_from_path req.path) req.path request_hash)
    pending ← or_db_error found
    out ← lift (
        verify provider (record {
          payment_id = payment_id;
          payment_token = payment_token;
          amount = cfg.amount;
          currency = cfg.currency;
          recipient = cfg.recipient;
          facilitator_url = cfg.facilitator_url;
        }))
    conclude vk req cfg pending payment_id payment_token out

  unfoldable pub new_intent : VirtualKeyCtx → Request → X402Config → Text → NewIntent
  new_intent vk req cfg request_hash = record {
    virtual_key_id = vk.id;
    partner_name = parse_partner_from_path req.path;
    path = req.path;
    request_hash = request_hash;
    amount = cfg.amount;
    currency = cfg.currency;
    facilitator_url = cfg.facilitator_url;
    recipient = cfg.recipient;
    provider = cfg.provider;
  }

  unfoldable pub challenge : VirtualKeyCtx → Request → X402Config → Result ℕ → Exec S Request
  challenge vk req cfg (ok intent_id) = stop (payment_required cfg (crates.uuid_text intent_id))
  challenge vk req cfg (err e) = do
    _ ← event o crates vk req cfg (text "x402_intent_insert_failed") (some e)
    stop (respond 500 "db error")

  -- With no payment proof: a pending intent, and the request for payment.
  unfoldable pub ask_payment : VirtualKeyCtx → Request → X402Config → Text → Exec S Request
  ask_payment vk req cfg request_hash = do
    inserted ← lift (insert_intent o crates.unique_violation (new_intent vk req cfg request_hash))
    challenge vk req cfg inserted

  unfoldable pub request_hash_of : Request → Text → Text
  request_hash_of req body = compute_request_hash crates.digest req.method (path_and_query req) body

  -- The middleware under a configuration.
  unfoldable pub charge : Registry S → VirtualKeyCtx → Request → X402Config → Exec S Request
  charge registry vk req cfg = do
    provider ← require_provider o crates registry vk req cfg
    _ ← lift (expire_intents o)
    let proofs = extract_payment_headers crates.to_str req.headers
    body ← read_request_body o crates req
    let request_hash = request_hash_of req body
    if is_some proofs.0 || is_some proofs.1
        then check_proof provider vk req cfg request_hash proofs.0 proofs.1
        else ask_payment vk req cfg request_hash

  unfoldable pub config_for : VirtualKeyCtx → Request → Option X402Config
  config_for vk req =
      resolve_x402_config crates.env crates.from_str (crates.uuid_text vk.customer_id)
        (crates.uuid_text vk.id) (parse_partner_from_path req.path) req.path

  unfoldable pub enforce_x402 : Registry S → VirtualKeyCtx → Request → Exec S Request
  enforce_x402 registry vk req = elim (config_for vk req) [
    | none ↦ return req
    | some cfg ↦ charge registry vk req cfg
  ]
