-- ===== src/X402/Enforce/Replay.antt =====
-- A payment proof that a verified intent holds is not accepted for another request.
use relaykey_backend.Base.{◌≡◌, ◌≢◌, true, List, none, some, arith}
use relaykey_backend.Text.{Text}
use relaykey_backend.Text.Laws.{text_eq_ne}
use relaykey_backend.Http.{respond}
use relaykey_backend.Context.{VirtualKeyCtx, Request, Outcome, reply}
use relaykey_backend.Db.{Db, PaymentIntent, verified}
use relaykey_backend.Db.PaymentIntents.{
  unique_rows, expire_stale_payment_intents, find_verified_intent_by_payment_id,
}
use relaykey_backend.Db.PaymentIntents.Indexes.{
  In, In-expire, expire_unique, find_verified_complete,
}
use relaykey_backend.World.{Outside, World, Result, ok, statement, query}
use relaykey_backend.X402.Config.{X402Config}
use relaykey_backend.X402.Intents.{insert_x402_event, expire_intents, find_by_payment_id}
use relaykey_backend.X402.Provider.{PaymentProvider, Registry, require, is_some}
use relaykey_backend.X402.Checks.{
  Crates, event, require_provider, read_request_body, block_replay, is_replay, check_payment_id,
  extract_payment_headers,
}
use relaykey_backend.X402.Enforce.{check_proof, request_hash_of, charge, config_for, enforce_x402}

module _ {S : Type 0} (o : Outside S) (crates : Crates) where
  -- Statements get through to the database, and bodies can be read.
  pub record IsServing : Type 0 where
    pub db_answers : (s : S) → (o.db_fault s).0 ≡ none
    pub body_reads : (s : S) → (o.read_body s).0 ≡ true

  pub statement_lem :
      {A : Type 0} (up : IsServing) (f : Db → Result A × Db) (w : World S)
      → statement o f w ≡ ((f w.db).0, record w { db = (f w.db).1; out = (o.db_fault w.out).1 })
  unfolding statement
  statement_lem up f w = rw (up.db_answers w.out, statement)

  module _ (up : IsServing) (vk : VirtualKeyCtx) (req : Request) (cfg : X402Config) where
    -- What a blocked replay leaves: the answer 402, and the table as it was.
    abbrev pub Blocked : List PaymentIntent → Outcome (Unit {0}) × World S → Type 0
    Blocked rows m =
        (m.0 ≡ reply (respond 402 "payment replay blocked")) × (m.1.db.payment_intents ≡ rows)

    check_payment_id_blocks :
        (hash pid : Text) (row : PaymentIntent) (w : World S)
        → find_verified_intent_by_payment_id pid w.db.payment_intents ≡ some row
        → row.request_hash ≢ hash
        → Blocked w.db.payment_intents (check_payment_id o crates vk req cfg hash (some pid) w)
    unfolding check_payment_id find_by_payment_id query block_replay is_replay event
        insert_x402_event
    check_payment_id_blocks hash pid row w found other = ground (
      arith,
      statement_lem up
          (λ (db : Db). (ok (find_verified_intent_by_payment_id pid db.payment_intents), db)) w,
      text_eq_ne row.request_hash hash other,
    )

    pub expire_lem :
        (w : World S)
        → (expire_intents o w).1.db.payment_intents
          ≡ expire_stale_payment_intents (o.db_now w.out) w.db.payment_intents
    unfolding expire_intents
    expire_lem w = rw (statement_lem up _ w)

    -- The request is charged for, shows the proof `pid`, and is not the one of `row`.
    pub record IsReused (registry : Registry S) (pid : Text) (row : PaymentIntent) : Type 0 where
      pub charged : config_for o crates vk req ≡ some cfg
      pub provider : PaymentProvider S
      pub registered : require registry cfg.provider ≡ ok provider
      pub shown : (extract_payment_headers crates.to_str req.headers).0 ≡ some pid
      pub other : row.request_hash ≢ request_hash_of o crates req req.body

    -- The answer 402, after which the table is as expiry leaves it.
    abbrev pub Refused : World S → Outcome Request × World S → Type 0
    Refused w m =
        (m.0 ≡ reply (respond 402 "payment replay blocked"))
        × (m.1.db.payment_intents
            ≡ expire_stale_payment_intents (o.db_now w.out) w.db.payment_intents)

    -- A payment id that a verified row holds is refused for another request.
    pub enforce_x402-blocks-replay :
        (registry : Registry S) (w : World S) (pid : Text) (row : PaymentIntent)
        → unique_rows w.db.payment_intents ≡ true
        → In row w.db.payment_intents
        → row.status ≡ verified
        → row.payment_id ≡ some pid
        → IsReused registry pid row
        → Refused w (enforce_x402 o crates registry vk req w)
    unfolding enforce_x402 charge require_provider read_request_body check_proof is_some
    enforce_x402-blocks-replay registry w pid row unique held settled proof r =
        let rows : List PaymentIntent =
          expire_stale_payment_intents (o.db_now w.out) w.db.payment_intents in
        let w1 : World S = (expire_intents o w).1 in
        let w2 : World S = record w1 { out = (o.read_body w1.out).1 } in
        let found : find_verified_intent_by_payment_id pid rows ≡ some row =
          find_verified_complete pid row rows
            (expire_unique (o.db_now w.out) w.db.payment_intents unique)
            (In-expire (o.db_now w.out) row w.db.payment_intents settled held) settled proof in
        let found' : find_verified_intent_by_payment_id pid w2.db.payment_intents ≡ some row =
          rw (expire_lem w) found in
        let blocked =
          check_payment_id_blocks (request_hash_of o crates req req.body) pid row w2 found'
            r.other in
        ground
          (arith, r.charged, r.registered, r.shown, up.body_reads w1.out, blocked, expire_lem w)
