-- ===== src/X402/Enforce/Challenge.antt =====
-- A request without a payment proof is answered by a request for payment.
use relaykey_backend.Base.{
  ℕ, ◌+◌, ◌*◌, ◌≤◌, ◌≡◌, refl, ap, ◌∙◌, Bool, true, false, any, ◌==◌, List, [], ◌∷◌, Option, none,
  some, arith, All, keep, keep_front,
}
use relaykey_backend.Text.{Text, text}
use relaykey_backend.Text.Laws.{text_eq_refl}
use relaykey_backend.Context.{VirtualKeyCtx, Request, reply, parse_partner_from_path}
use relaykey_backend.Db.{Db, PaymentIntent, pending}
use relaykey_backend.Http.{Response, instructions}
use relaykey_backend.Db.Keys.{latest}
use relaykey_backend.Db.Keys.Latest.{latest_front, All-keep}
use relaykey_backend.Db.PaymentIntents.{
  NewIntent, new_row, insert_payment_intent, expire_stale_payment_intents,
  find_latest_pending_intent_by_request_hash, is_pending_for, status_eq, conflict, same_text,
  unique_rows, checked,
}
use relaykey_backend.Db.PaymentIntents.Indexes.{expire_unique}
use relaykey_backend.World.{Outside, World, ok}
use relaykey_backend.X402.Config.{X402Config}
use relaykey_backend.X402.Intents.{put_new, expire_intents, insert_intent}
use relaykey_backend.X402.Provider.{PaymentProvider, Registry, require, is_some}
use relaykey_backend.X402.Checks.{
  Crates, require_provider, read_request_body, payment_required, extract_payment_headers,
}
use relaykey_backend.X402.Enforce.{
  challenge, ask_payment, new_intent, request_hash_of, charge, config_for, enforce_x402,
}
use relaykey_backend.X402.Enforce.Replay.{IsServing, statement_lem, expire_lem}

-- A fresh row shares no payment proof and is not verified.
new_row-conflict :
    (now id : ℕ) (n : NewIntent) (b : PaymentIntent)
    → (b.id == id) ≡ false
    → conflict (new_row now id n) b ≡ false
unfolding conflict new_row same_text status_eq
new_row-conflict now id n b h = ground (arith, h)

new_row_fits :
    (now id : ℕ) (n : NewIntent)
    → is_pending_for n.virtual_key_id n.partner_name n.path n.request_hash (new_row now id n) ≡ true
unfolding is_pending_for new_row status_eq
new_row_fits now id n =
    ground (arith, text_eq_refl n.partner_name, text_eq_refl n.path, text_eq_refl n.request_hash)

-- A row with a new id breaks no unique index.
insert_lem :
    (now id : ℕ) (n : NewIntent) (rows : List PaymentIntent)
    → unique_rows rows ≡ true
    → any (λ row. row.id == id) rows ≡ false
    → insert_payment_intent now id n rows ≡ some (new_row now id n ∷ rows)
unfolding insert_payment_intent checked unique_rows
insert_lem now id n rows u fresh =
    let apart : any (conflict (new_row now id n)) rows ≡ false = none_conflicts rows fresh in
    ground (arith, u, apart)
  where
    one_conflict :
        (b : PaymentIntent) → (b.id == id) ≡ false → conflict (new_row now id n) b ≡ false
    one_conflict b h = new_row-conflict now id n b h

    none_conflicts :
        (xs : List PaymentIntent)
        → any (λ row. row.id == id) xs ≡ false
        → any (conflict (new_row now id n)) xs ≡ false
    none_conflicts [] h = refl
    none_conflicts (b ∷ xs) h = ground (arith, one_conflict b, none_conflicts xs)

new_row_ts : (now id : ℕ) (n : NewIntent) → (new_row now id n).ts ≡ now
unfolding new_row
new_row_ts now id n = refl

-- A fresh intent answers the search for its own key, partner, path and hash, if no row is newer.
new_row_found :
    (now id : ℕ) (n : NewIntent) (rows : List PaymentIntent)
    → All (λ row. row.ts ≤ now) rows
    → find_latest_pending_intent_by_request_hash n.virtual_key_id n.partner_name n.path
        n.request_hash
        (new_row now id n ∷ rows)
      ≡ some (new_row now id n)
unfolding find_latest_pending_intent_by_request_hash
new_row_found now id n rows older =
    ap (latest (λ (row : PaymentIntent). row.ts))
      (keep_front fits (new_row now id n) rows (new_row_fits now id n))
    ∙ latest_front (λ row. row.ts) (new_row now id n) (keep fits rows)
        (rw (new_row_ts now id n) (All-keep (λ row. row.ts ≤ now) fits rows older))
  where
    fits : PaymentIntent → Bool
    fits = is_pending_for n.virtual_key_id n.partner_name n.path n.request_hash

put_new-some :
    (message : Text) (id : ℕ) (db : Db) (found : Option (List PaymentIntent))
    (rows : List PaymentIntent)
    → found ≡ some rows
    → put_new message id db found ≡ (ok id, record db { payment_intents = rows })
unfolding put_new
put_new-some message id db found rows h = rw (h, put_new) refl

module _ {S : Type 0} (o : Outside S) (crates : Crates) (up : IsServing o crates)
    (vk : VirtualKeyCtx) (req : Request) (cfg : X402Config) where
  -- The request is charged for and shows no payment proof.
  pub record IsUnpaid (registry : Registry S) : Type 0 where
    pub charged : config_for o crates vk req ≡ some cfg
    pub provider : PaymentProvider S
    pub registered : require registry cfg.provider ≡ ok provider
    pub no_id : (extract_payment_headers crates.to_str req.headers).0 ≡ none
    pub no_token : (extract_payment_headers crates.to_str req.headers).1 ≡ none

  -- The reply that shows the terms of the configuration and the id of the intent, and no other
  -- header, such as a time at which the terms expire.
  abbrev pub terms_reply : Text → Response
  terms_reply id = record {
    status = 402;
    headers =
        (text "x-payment-required", text "x402")
        ∷ (text "x-payment-amount", cfg.amount)
        ∷ (text "x-payment-currency", cfg.currency)
        ∷ (text "x-payment-facilitator", cfg.facilitator_url)
        ∷ (text "x-payment-provider", cfg.provider)
        ∷ (text "x-payment-intent-id", id)
        ∷ [];
    body = instructions (text "x402") cfg.amount cfg.currency cfg.facilitator_url cfg.recipient;
  }

  -- The intent of the request at a time: pending for 15 minutes, on the terms of the configuration.
  abbrev pub asked_intent : ℕ → ℕ → PaymentIntent
  asked_intent now id = record {
    id = id;
    ts = now;
    virtual_key_id = vk.id;
    partner_name = parse_partner_from_path req.path;
    path = req.path;
    request_hash = request_hash_of o crates req req.body;
    amount = cfg.amount;
    currency = cfg.currency;
    facilitator_url = cfg.facilitator_url;
    recipient = cfg.recipient;
    provider = cfg.provider;
    status = pending;
    expires_at = some (now + 15 * 60 * 1000);
    payment_id = none;
    payment_token = none;
  }

  -- The world when the intent is inserted.
  abbrev pub asked : World S → World S
  asked w = let w1 = (expire_intents o w).1 in record w1 { out = (o.read_body w1.out).1 }

  -- Where statements get through, bodies can be read, the keys of the table are unique and the new
  -- id is on no row of it: a request that is charged for by a registered provider, and shows no
  -- payment proof, is answered by 402 with the terms of the configuration and the id of the intent,
  -- but no expiry time; and after the expiries one intent is inserted: pending, for 15 minutes, on
  -- those terms, under the hash of the request. If no row of the
  -- table is newer than the database's clock, the search for a pending intent of the request finds
  -- it.
  pub enforce_x402-challenges :
      (registry : Registry S) (w : World S)
      → IsUnpaid registry
      → unique_rows w.db.payment_intents ≡ true
      → any
          (λ row. row.id == o.new_id (asked w).out)
          (expire_stale_payment_intents (o.db_now w.out) w.db.payment_intents)
        ≡ false
      → All
          (λ row. row.ts ≤ o.db_now (asked w).out)
          (expire_stale_payment_intents (o.db_now w.out) w.db.payment_intents)
      → let id = o.new_id (asked w).out in
        let row = asked_intent (o.db_now (asked w).out) id in
        let (outcome, after) = enforce_x402 o crates registry vk req w in
        (outcome ≡ reply (terms_reply (crates.uuid_text id)))
        × (after.db.payment_intents
            ≡ row ∷ expire_stale_payment_intents (o.db_now w.out) w.db.payment_intents)
        × (find_latest_pending_intent_by_request_hash vk.id
              (parse_partner_from_path req.path)
              req.path
              (request_hash_of o crates req req.body)
              after.db.payment_intents
            ≡ some row)
  unfolding enforce_x402 charge require_provider read_request_body is_some ask_payment insert_intent
      challenge new_intent new_row payment_required
  enforce_x402-challenges registry w u unique fresh older =
      let w1 : World S = (expire_intents o w).1 in
      let w2 : World S = asked w in
      let hash : Text = request_hash_of o crates req req.body in
      let n : NewIntent = new_intent o crates vk req cfg hash in
      let id : ℕ = o.new_id w2.out in
      let rows : List PaymentIntent =
        expire_stale_payment_intents (o.db_now w.out) w.db.payment_intents in
      let expired = expire_lem o crates up vk req cfg w in
      let put =
        statement_lem o crates up
          (λ (db : Db).
            put_new crates.unique_violation id db
              (insert_payment_intent (o.db_now w2.out) id n db.payment_intents))
          w2 in
      let inserted =
        insert_lem (o.db_now w2.out) id n rows
          (expire_unique (o.db_now w.out) w.db.payment_intents unique) fresh in
      let inserted' : insert_payment_intent (o.db_now w2.out) id n w2.db.payment_intents
          ≡ some (new_row (o.db_now w2.out) id n ∷ rows) =
        rw expired inserted in
      let kept = put_new-some crates.unique_violation id w2.db _ _ inserted' in
      let found = new_row_found (o.db_now w2.out) id n rows older in
      ground (
        arith,
        u.charged,
        u.registered,
        u.no_id,
        u.no_token,
        up.body_reads w1.out,
        put,
        kept,
        expired,
        found,
      )
