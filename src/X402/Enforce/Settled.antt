-- ===== src/X402/Enforce/Settled.antt =====
-- A verified payment for a pending intent.
use relaykey_backend.Base.{◌≡◌, refl, true, List, Option, none, some, arith}
use relaykey_backend.Text.{Text}
use relaykey_backend.Context.{VirtualKeyCtx, Request, go, parse_partner_from_path}
use relaykey_backend.Db.{Db, PaymentIntent, verified}
use relaykey_backend.Db.PaymentIntents.{
  expire_stale_payment_intents, find_verified_intent_by_payment_id,
  find_latest_pending_intent_by_request_hash, mark_payment_intent_verified, settle,
}
use relaykey_backend.Db.PaymentIntents.Settling.{settled_found}
use relaykey_backend.World.{Outside, World, ok}
use relaykey_backend.X402.Config.{X402Config}
use relaykey_backend.X402.Intents.{
  put_rows, expire_intents, mark_verified, find_by_payment_id, find_pending,
}
use relaykey_backend.X402.Provider.{PaymentProvider, VerifyInput, Registry, require, is_some}
use relaykey_backend.X402.Checks.{
  Crates, require_provider, read_request_body, block_replay, is_replay, check_payment_id,
  check_payment_token, extract_payment_headers,
}
use relaykey_backend.X402.Enforce.{
  or_db_error, verify, accept, conclude, check_proof, request_hash_of, charge, config_for,
  enforce_x402,
}
use relaykey_backend.X402.Enforce.Replay.{IsServing, statement_lem, expire_lem}
use relaykey_backend.X402.Enforce.Unmatched.{query_lem}

module _ {S : Type 0} (o : Outside S) (crates : Crates) (up : IsServing o crates)
    (vk : VirtualKeyCtx) (req : Request) (cfg : X402Config) where
  -- The request is charged for and shows the payment id `pid` alone, which no verified intent holds;
  -- `intent` is pending for the request, the unique indexes accept its mark, which leaves `rows`, and
  -- the provider accepts the payment id whenever it is asked.
  pub record IsMatched (registry : Registry S) (w : World S) (pid : Text) (intent : PaymentIntent)
      (rows : List PaymentIntent) : Type 0 where
    pub charged : config_for o crates vk req ≡ some cfg
    pub provider : PaymentProvider S
    pub registered : require registry cfg.provider ≡ ok provider
    pub shown : (extract_payment_headers crates.to_str req.headers).0 ≡ some pid
    pub no_token : (extract_payment_headers crates.to_str req.headers).1 ≡ none
    pub unused :
        find_verified_intent_by_payment_id pid
          (expire_stale_payment_intents (o.db_now w.out) w.db.payment_intents)
        ≡ none
    pub matched :
        find_latest_pending_intent_by_request_hash vk.id
          (parse_partner_from_path req.path)
          req.path
          (request_hash_of o crates req req.body)
          (expire_stale_payment_intents (o.db_now w.out) w.db.payment_intents)
        ≡ some intent
    pub marked :
        mark_payment_intent_verified intent.id
          (some pid)
          none
          (expire_stale_payment_intents (o.db_now w.out) w.db.payment_intents)
        ≡ some rows
    pub reason : Option Text
    pub accepts :
        (i : VerifyInput) (s : S)
        → i.payment_id ≡ some pid
        → (provider.verify i s).0 ≡ ok (record { verified = true; reason = reason })

  pub put_rows-some :
      (message : Text) (db : Db) (found : Option (List PaymentIntent)) (rows : List PaymentIntent)
      → found ≡ some rows
      → put_rows message db found ≡ (ok tt, record db { payment_intents = rows })
  unfolding put_rows
  put_rows-some message db found rows h = rw (h, put_rows) refl

  -- Where statements get through and bodies can be read: a request that is charged for by a
  -- registered provider, for which an intent is pending, and that shows a payment id alone, which no
  -- verified intent holds, goes on if the provider accepts the payment id and the unique indexes
  -- its mark. The table is then the one with the intent marked verified, in which the search
  -- for a verified intent by the payment id finds it.
  pub matched_proof_recorded :
      (registry : Registry S) (w : World S) (pid : Text) (intent : PaymentIntent)
      (rows : List PaymentIntent)
      → IsMatched registry w pid intent rows
      → let (outcome, after) = enforce_x402 o crates registry vk req w in
        (outcome ≡ go req)
        × (after.db.payment_intents ≡ rows)
        × (find_verified_intent_by_payment_id pid after.db.payment_intents
            ≡ some (settle verified intent.id (some pid) none intent))
  unfolding enforce_x402 charge require_provider read_request_body check_proof is_some
      check_payment_id check_payment_token find_by_payment_id find_pending block_replay is_replay
      or_db_error verify conclude accept mark_verified
  matched_proof_recorded registry w pid intent rows u =
      let w1 : World S = (expire_intents o w).1 in
      let w2 : World S = record w1 { out = (o.read_body w1.out).1 } in
      let hash : Text = request_hash_of o crates req req.body in
      let partner : Text = parse_partner_from_path req.path in
      let first =
        query_lem o crates up vk req cfg
          (λ (db : Db). find_verified_intent_by_payment_id pid db.payment_intents) w2 in
      let w3 : World S = record w2 { out = (o.db_fault w2.out).1 } in
      let second =
        query_lem o crates up vk req cfg
          (λ (db : Db).
            find_latest_pending_intent_by_request_hash vk.id partner req.path hash
              db.payment_intents)
          w3 in
      let w4 : World S = record w3 { out = (o.db_fault w3.out).1 } in
      let input : VerifyInput = record {
        payment_id = some pid;
        payment_token = none;
        amount = cfg.amount;
        currency = cfg.currency;
        recipient = cfg.recipient;
        facilitator_url = cfg.facilitator_url;
      } in
      let w5 : World S = record w4 { out = (u.provider.verify input w4.out).1 } in
      let expired = expire_lem o crates up vk req cfg w in
      let unused : find_verified_intent_by_payment_id pid w1.db.payment_intents ≡ none =
        rw expired u.unused in
      let matched : find_latest_pending_intent_by_request_hash vk.id partner req.path hash
            w1.db.payment_intents
          ≡ some intent =
        rw expired u.matched in
      let marked : mark_payment_intent_verified intent.id (some pid) none w1.db.payment_intents
          ≡ some rows =
        rw expired u.marked in
      let put =
        statement_lem o crates up
          (λ (db : Db).
            put_rows crates.unique_violation db
              (mark_payment_intent_verified intent.id (some pid) none db.payment_intents))
          w5 in
      let kept = put_rows-some crates.unique_violation w5.db _ rows marked in
      let found =
        settled_found vk.id partner req.path hash pid intent w1.db.payment_intents rows matched
          marked in
      ground (
        arith,
        u.charged,
        u.registered,
        u.shown,
        u.no_token,
        up.body_reads w1.out,
        first,
        second,
        unused,
        matched,
        put,
        kept,
        found,
        u.accepts input w4.out refl,
      )
