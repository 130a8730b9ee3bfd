-- ===== src/X402/Intents.antt =====
-- The statements of payment_intents.rs and x402_metrics.rs as actions on the world.
use relaykey_backend.Base.{ℕ, List, ◌∷◌, Option, none, some}
use relaykey_backend.Text.{Text}
use relaykey_backend.Db.{Db, PaymentIntent, X402Event}
use relaykey_backend.Db.PaymentIntents.{
  NewIntent, insert_payment_intent, mark_payment_intent_verified, mark_payment_intent_failed,
  expire_stale_payment_intents, find_latest_pending_intent_by_request_hash,
  find_verified_intent_by_payment_id, find_verified_intent_by_payment_token,
}
use relaykey_backend.World.{Outside, Act, Result, ok, err, statement, query}

-- An update of the table; `none` is a broken unique index, reported by the given message.
unfoldable pub put_rows : Text → Db → Option (List PaymentIntent) → Result (Unit {0}) × Db
put_rows message db none = (err message, db)
put_rows message db (some rows) = (ok tt, record db { payment_intents = rows })

-- An insertion, which answers the id of the new row.
unfoldable pub put_new : Text → ℕ → Db → Option (List PaymentIntent) → Result ℕ × Db
put_new message id db none = (err message, db)
put_new message id db (some rows) = (ok id, record db { payment_intents = rows })

module _ {S : Type 0} (o : Outside S) where
  unfoldable pub insert_x402_event : X402Event → Act S (Result (Unit {0}))
  insert_x402_event event w =
      statement o
        (λ db. (
          ok tt,
          record db {
            x402_events = (record { ts = o.db_now w.out; row = event }) ∷ db.x402_events;
          },
        ))
        w

  unfoldable pub insert_intent : Text → NewIntent → Act S (Result ℕ)
  unfolding put_new
  insert_intent message n w =
      let id = o.new_id w.out in
      statement o
        (λ db.
          put_new message id db (insert_payment_intent (o.db_now w.out) id n db.payment_intents))
        w

  unfoldable pub expire_intents : Act S (Result (Unit {0}))
  expire_intents w =
      statement o
        (λ db. (
          ok tt,
          record db {
            payment_intents = expire_stale_payment_intents (o.db_now w.out) db.payment_intents;
          },
        ))
        w

  unfoldable pub mark_verified : Text → ℕ → Option Text → Option Text → Act S (Result (Unit {0}))
  unfolding put_rows
  mark_verified message id payment_id payment_token = statement o (λ db.
      put_rows message db
        (mark_payment_intent_verified id payment_id payment_token db.payment_intents))

  unfoldable pub mark_failed : Text → ℕ → Option Text → Option Text → Act S (Result (Unit {0}))
  unfolding put_rows
  mark_failed message id payment_id payment_token = statement o (λ db.
      put_rows message db
        (mark_payment_intent_failed id payment_id payment_token db.payment_intents))

  unfoldable pub find_pending : ℕ → Text → Text → Text → Act S (Result (Option PaymentIntent))
  find_pending vk_id partner_name path request_hash = query o (λ db.
      find_latest_pending_intent_by_request_hash vk_id partner_name path request_hash
        db.payment_intents)

  unfoldable pub find_by_payment_id : Text → Act S (Result (Option PaymentIntent))
  find_by_payment_id pid = query o (λ db. find_verified_intent_by_payment_id pid db.payment_intents)

  unfoldable pub find_by_payment_token : Text → Act S (Result (Option PaymentIntent))
  find_by_payment_token token =
      query o (λ db. find_verified_intent_by_payment_token token db.payment_intents)
