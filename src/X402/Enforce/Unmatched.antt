-- ===== src/X402/Enforce/Unmatched.antt =====
-- A verified payment for which no intent is pending.
use relaykey_backend.Base.{◌≡◌, refl, true, Option, none, some, arith}
use relaykey_backend.Text.{Text}
use relaykey_backend.Context.{VirtualKeyCtx, Request, go, parse_partner_from_path}
use relaykey_backend.Db.{Db}
use relaykey_backend.Db.PaymentIntents.{
  expire_stale_payment_intents, find_verified_intent_by_payment_id,
  find_latest_pending_intent_by_request_hash,
}
use relaykey_backend.World.{Outside, World, ok, query}
use relaykey_backend.X402.Config.{X402Config}
use relaykey_backend.X402.Intents.{expire_intents, find_by_payment_id, find_pending}
use relaykey_backend.X402.Provider.{PaymentProvider, VerifyInput, Registry, require, is_some}
use relaykey_backend.X402.Checks.{
  Crates, require_provider, read_request_body, block_replay, is_replay, check_payment_id,
  check_payment_token, extract_payment_headers,
}
use relaykey_backend.X402.Enforce.{
  or_db_error, verify, accept, conclude, check_proof, request_hash_of, charge, config_for,
  enforce_x402,
}
use relaykey_backend.X402.Enforce.Replay.{IsServing, statement_lem, expire_lem}

module _ {S : Type 0} (o : Outside S) (crates : Crates) (up : IsServing o crates)
    (vk : VirtualKeyCtx) (req : Request) (cfg : X402Config) where
  -- A read: the answer, and a world in which only the outside has moved.
  pub query_lem :
      {A : Type 0} (f : Db → A) (w : World S)
      → query o f w ≡ (ok (f w.db), record w { out = (o.db_fault w.out).1 })
  unfolding query
  query_lem f w = statement_lem o crates up (λ db. (ok (f db), db)) w

  -- The request is charged for and shows the payment id `pid` alone; no verified intent holds it, no
  -- intent is pending for the request, and the provider accepts the payment id whenever it is asked.
  pub record IsUnmatched (registry : Registry S) (w : World S) (pid : Text) : Type 0 where
    pub charged : config_for o crates vk req ≡ some cfg
    pub provider : PaymentProvider S
    pub registered : require registry cfg.provider ≡ ok provider
    pub shown : (extract_payment_headers crates.to_str req.headers).0 ≡ some pid
    pub no_token : (extract_payment_headers crates.to_str req.headers).1 ≡ none
    pub unused :
        find_verified_intent_by_payment_id pid
          (expire_stale_payment_intents (o.db_now w.out) w.db.payment_intents)
        ≡ none
    pub unmatched :
        find_latest_pending_intent_by_request_hash vk.id
          (parse_partner_from_path req.path)
          req.path
          (request_hash_of o crates req req.body)
          (expire_stale_payment_intents (o.db_now w.out) w.db.payment_intents)
        ≡ none
    pub reason : Option Text
    pub accepts :
        (i : VerifyInput) (s : S)
        → i.payment_id ≡ some pid
        → (provider.verify i s).0 ≡ ok (record { verified = true; reason = reason })

  -- Where statements get through and bodies can be read: a request that is charged for by a
  -- registered provider and shows a payment id alone, which no verified intent holds, with no intent
  -- pending for the request, goes on if the provider accepts the payment id. The table changes by
  -- expiry only, and afterwards still no verified intent holds the payment id.
  pub unmatched_proof_unrecorded :
      (registry : Registry S) (w : World S) (pid : Text)
      → IsUnmatched registry w pid
      → let (outcome, after) = enforce_x402 o crates registry vk req w in
        (outcome ≡ go req)
        × (after.db.payment_intents
            ≡ expire_stale_payment_intents (o.db_now w.out) w.db.payment_intents)
        × (find_verified_intent_by_payment_id pid after.db.payment_intents ≡ none)
  unfolding enforce_x402 charge require_provider read_request_body check_proof is_some
      check_payment_id check_payment_token find_by_payment_id find_pending block_replay is_replay
      or_db_error verify conclude accept
  unmatched_proof_unrecorded registry w pid u =
      let w1 : World S = (expire_intents o w).1 in
      let w2 : World S = record w1 { out = (o.read_body w1.out).1 } in
      let hash : Text = request_hash_of o crates req req.body in
      let partner : Text = parse_partner_from_path req.path in
      let first =
        query_lem (λ (db : Db). find_verified_intent_by_payment_id pid db.payment_intents) w2 in
      let w3 : World S = record w2 { out = (o.db_fault w2.out).1 } in
      let second =
        query_lem
          (λ (db : Db).
            find_latest_pending_intent_by_request_hash vk.id partner req.path hash
              db.payment_intents)
          w3 in
      let w4 : World S = record w3 { out = (o.db_fault w3.out).1 } in
      let input : VerifyInput = record {
        payment_id = some pid;
        payment_token = none;
        amount = cfg.amount;
        currency = cfg.currency;
        recipient = cfg.recipient;
        facilitator_url = cfg.facilitator_url;
      } in
      let expired = expire_lem o crates up vk req cfg w in
      let unused : find_verified_intent_by_payment_id pid w1.db.payment_intents ≡ none =
        rw expired u.unused in
      let unmatched : find_latest_pending_intent_by_request_hash vk.id partner req.path hash
            w1.db.payment_intents
          ≡ none =
        rw expired u.unmatched in
      ground (
        arith,
        u.charged,
        u.registered,
        u.shown,
        u.no_token,
        up.body_reads w1.out,
        first,
        second,
        unused,
        unmatched,
        expired,
        u.accepts input w4.out refl,
      )
