-- ===== src/Examples/Payments.antt =====
-- The payment middleware at example requests.
use relaykey_backend.Base.{
  ℕ, ◌≤◌, ◌≡◌, refl, ◌⊎◌, true, false, any, ◌==◌, List, [], ◌∷◌, none, some, All, arith,
}
use relaykey_backend.Text.{text, text_eq, is_empty, trim, trim_start, is_space, split, push_front}
use relaykey_backend.Http.{get, Headers, get_header}
use relaykey_backend.Context.{Request, reply, go, parse_partner_from_path}
use relaykey_backend.Db.{PaymentIntent, pending, verified}
use relaykey_backend.Db.Keys.{first, latest}
use relaykey_backend.Db.PaymentIntents.{
  is_past, is_pending_for, same_text, mark_payment_intent_verified, checked, conflict, settle,
  coalesce, unique_rows, expire_stale_payment_intents, expire_row, status_eq,
  find_verified_intent_by_payment_id, find_latest_pending_intent_by_request_hash,
}
use relaykey_backend.Db.PaymentIntents.History.{Reach}
use relaykey_backend.World.{statement, query, ok}
use relaykey_backend.Retry.{unwrap_or}
use relaykey_backend.X402.Config.{
  X402Config, is_nil, finalize_config, is_true, overlay, env_bool, parse_override_map,
  global_default, resolve_x402_config,
}
use relaykey_backend.X402.Provider
use relaykey_backend.X402.Provider.{
  PaymentProvider, VerifyInput, noop_provider, noop_verify, Registry, require, is_some,
}
use relaykey_backend.X402.Hash.{method_text, hash_input, compute_request_hash}
use relaykey_backend.X402.Intents.{expire_intents, find_pending, find_by_payment_id}
use relaykey_backend.X402.Checks.{
  trimmed, payment_header, extract_payment_headers, path_and_query, require_provider,
  read_request_body, check_payment_id, check_payment_token, block_replay, is_replay,
}
use relaykey_backend.X402.Enforce.{
  request_hash_of, config_for, enforce_x402, charge, check_proof, or_db_error, verify, conclude,
  accept,
}
use relaykey_backend.X402.Enforce.Paid.{Paid, enforce_x402-Paid}
use relaykey_backend.X402.Enforce.Table.{enforce_x402-Reach}
use relaykey_backend.X402.Enforce.Replay.{IsServing}
use relaykey_backend.X402.Enforce.Challenge.{
  IsUnpaid, terms_reply, asked_intent, enforce_x402-challenges,
}
use relaykey_backend.X402.Enforce.Settled.{IsMatched, matched_proof_recorded}
use relaykey_backend.X402.Enforce.Unmatched.{IsUnmatched, unmatched_proof_unrecorded}
use relaykey_backend.Examples.Data.{outside, vk, request, world, terms, crates, spent}

abbrev pub registry : Registry ℕ
registry = (text "noop", noop_provider) ∷ []

abbrev pub proven : Request
proven = request get ((text "x-payment-id", text " p1 ") ∷ [])

abbrev pub bare : Request
bare = request get []

pub serving : IsServing outside crates
serving = record { db_answers = λ s. refl; body_reads = λ s. refl }

pub charged : (headers : Headers) → config_for outside crates vk (request get headers) ≡ some terms
unfolding config_for resolve_x402_config global_default env_bool is_true text text_eq unwrap_or
    overlay parse_override_map finalize_config is_nil parse_partner_from_path split push_front
charged headers = refl

pub registered : require registry terms.provider ≡ ok noop_provider
unfolding require Provider.get text text_eq
registered = refl

pub shown : (extract_payment_headers crates.to_str proven.headers).0 ≡ some (text "p1")
unfolding extract_payment_headers payment_header trimmed trim trim_start is_space is_empty
    get_header text text_eq
shown = refl

no_token : (extract_payment_headers crates.to_str proven.headers).1 ≡ none
unfolding extract_payment_headers payment_header get_header text text_eq
no_token = refl

passes_on :
    enforce_x402 outside crates registry vk proven (world [])
    ≡ (go proven, (enforce_x402 outside crates registry vk proven (world [])).1)
unfolding enforce_x402 charge require_provider read_request_body check_proof check_payment_id
    check_payment_token block_replay is_replay or_db_error verify conclude accept expire_intents
    expire_stale_payment_intents find_by_payment_id find_pending statement query
    find_verified_intent_by_payment_id find_latest_pending_intent_by_request_hash first latest
    is_some noop_provider noop_verify config_for resolve_x402_config global_default env_bool is_true
    text text_eq unwrap_or overlay parse_override_map finalize_config is_nil parse_partner_from_path
    split push_front require Provider.get extract_payment_headers payment_header trimmed trim
    trim_start is_space is_empty get_header
passes_on = refl

enforce_x402-Paid_example :
    (proven ≡ proven)
    × ((config_for outside crates vk proven ≡ none)
        ⊎ ((cfg : X402Config) × (config_for outside crates vk proven ≡ some cfg)
            × Paid outside crates registry proven cfg))
enforce_x402-Paid_example =
    enforce_x402-Paid outside crates registry vk proven proven (world []) _ passes_on

pub one_row : unique_rows (spent ∷ []) ≡ true
unfolding unique_rows
one_row = refl

enforce_x402-Reach_example :
    let after =
      (enforce_x402 outside crates registry vk bare (world (spent ∷ []))).1.db.payment_intents in
    Reach (spent ∷ []) after × (unique_rows after ≡ true)
enforce_x402-Reach_example =
    enforce_x402-Reach outside crates registry vk bare (world (spent ∷ [])) one_row

unpaid : IsUnpaid outside crates serving vk bare terms registry
unfolding extract_payment_headers payment_header get_header
unpaid = record {
  charged = charged [];
  provider = noop_provider;
  registered = registered;
  no_id = refl;
  no_token = refl;
}

unused_id : any (λ row. row.id == 8) (expire_stale_payment_intents 1000 (spent ∷ [])) ≡ false
unfolding expire_stale_payment_intents expire_row status_eq
unused_id = refl

older : All (λ row. row.ts ≤ 1001) (expire_stale_payment_intents 1000 (spent ∷ []))
unfolding expire_stale_payment_intents expire_row status_eq
older = (omega arith, tt)

enforce_x402-challenges_example :
    let row = asked_intent outside crates serving vk bare terms 1001 8 in
    let (outcome, after) = enforce_x402 outside crates registry vk bare (world (spent ∷ [])) in
    (outcome ≡ reply (terms_reply outside crates serving vk bare terms (8 ∷ [])))
    × (after.db.payment_intents ≡ row ∷ expire_stale_payment_intents 1000 (spent ∷ []))
    × (find_latest_pending_intent_by_request_hash 1
          (parse_partner_from_path bare.path)
          bare.path
          (request_hash_of outside crates bare bare.body)
          after.db.payment_intents
        ≡ some row)
unfolding expire_intents statement
enforce_x402-challenges_example =
    enforce_x402-challenges outside crates serving vk bare terms registry (world (spent ∷ []))
      unpaid one_row unused_id older

noop_accepts :
    (i : VerifyInput) (s : ℕ)
    → i.payment_id ≡ some (text "p1")
    → (noop_provider.verify i s).0 ≡ ok (record { verified = true; reason = none })
unfolding noop_provider noop_verify is_some
noop_accepts i s h = rw (h, noop_verify) refl

unmatched : IsUnmatched outside crates serving vk proven terms registry (world []) (text "p1")
unfolding expire_stale_payment_intents find_verified_intent_by_payment_id
    find_latest_pending_intent_by_request_hash first latest noop_provider noop_verify is_some
unmatched = record {
  charged = charged _;
  provider = noop_provider;
  registered = registered;
  shown = shown;
  no_token = no_token;
  unused = refl;
  unmatched = refl;
  reason = none;
  accepts = noop_accepts;
}

unmatched_proof_unrecorded_example :
    let (outcome, after) = enforce_x402 outside crates registry vk proven (world []) in
    (outcome ≡ go proven)
    × (after.db.payment_intents ≡ expire_stale_payment_intents 1000 [])
    × (find_verified_intent_by_payment_id (text "p1") after.db.payment_intents ≡ none)
unmatched_proof_unrecorded_example =
    unmatched_proof_unrecorded outside crates serving vk proven terms registry (world [])
      (text "p1") unmatched

abbrev awaited : PaymentIntent
awaited = record spent {
  path = proven.path;
  request_hash = request_hash_of outside crates proven proven.body;
  status = pending;
  expires_at = some 900_000;
  payment_id = none;
}

abbrev settled_rows : List PaymentIntent
settled_rows = (record awaited { status = verified; payment_id = some (text "p1") }) ∷ []

matched :
    IsMatched outside crates serving vk proven terms registry
      (world (awaited ∷ []))
      (text "p1")
      awaited
      settled_rows
unfolding expire_stale_payment_intents expire_row is_past status_eq
    find_verified_intent_by_payment_id find_latest_pending_intent_by_request_hash is_pending_for
    same_text mark_payment_intent_verified checked unique_rows conflict settle coalesce first latest
    noop_provider noop_verify is_some parse_partner_from_path split push_front text text_eq
    request_hash_of compute_request_hash hash_input method_text path_and_query
matched = record {
  charged = charged _;
  provider = noop_provider;
  registered = registered;
  shown = shown;
  no_token = no_token;
  unused = refl;
  matched = refl;
  marked = refl;
  reason = none;
  accepts = noop_accepts;
}

matched_proof_recorded_example :
    let (outcome, after) = enforce_x402 outside crates registry vk proven (world (awaited ∷ [])) in
    (outcome ≡ go proven)
    × (after.db.payment_intents ≡ settled_rows)
    × (find_verified_intent_by_payment_id (text "p1") after.db.payment_intents
        ≡ some (settle verified 3 (some (text "p1")) none awaited))
matched_proof_recorded_example =
    matched_proof_recorded outside crates serving vk proven terms registry (world (awaited ∷ []))
      (text "p1") awaited settled_rows matched
