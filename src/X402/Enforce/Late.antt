-- ===== src/X402/Enforce/Late.antt =====
-- A request whose intent another request has settled while the provider was asked.
use relaykey_backend.Base.{ℕ, ◌≡◌, refl, true, false, List, Option, none, some, arith}
use relaykey_backend.Text.{Text, text}
use relaykey_backend.Context.{VirtualKeyCtx, Request}
use relaykey_backend.Db.{Db, PaymentIntent, verified, failed}
use relaykey_backend.Db.PaymentIntents.{
  unique_rows, coalesce, mark_payment_intent_failed, find_verified_intent_by_payment_id,
}
use relaykey_backend.Db.PaymentIntents.Indexes.{In, find_verified_complete}
use relaykey_backend.Db.PaymentIntents.Overwriting.{failed_unfound, failed-In}
use relaykey_backend.World.{Outside, World, Result, ok, err}
use relaykey_backend.X402.Config.{X402Config}
use relaykey_backend.X402.Intents.{put_rows, insert_x402_event, mark_failed}
use relaykey_backend.X402.Provider.{VerifyOutput}
use relaykey_backend.X402.Checks.{Crates, event}
use relaykey_backend.X402.Enforce.{or_db_error, refuse, provider_error, conclude}
use relaykey_backend.X402.Enforce.Replay.{IsServing, statement_lem}
use relaykey_backend.X402.Enforce.Settled.{put_rows-some}

-- The provider does not verify the payment, or fails.
abbrev pub NotVerified : Result VerifyOutput → Type 0
NotVerified (ok out) = out.verified ≡ false
NotVerified (err e) = Unit

module _ {S : Type 0} (o : Outside S) (crates : Crates) (up : IsServing o crates)
    (vk : VirtualKeyCtx) (req : Request) (cfg : X402Config) where
  -- The world after an accepted mark.
  abbrev after_mark : List PaymentIntent → World S → World S
  after_mark rows w = record w {
    db = record w.db { payment_intents = rows };
    out = (o.db_fault w.out).1;
  }

  mark_failed_lem :
      (id : ℕ) (p t : Option Text) (w : World S) (rows : List PaymentIntent)
      → mark_payment_intent_failed id p t w.db.payment_intents ≡ some rows
      → mark_failed o crates.unique_violation id p t w ≡ (ok tt, after_mark rows w)
  unfolding mark_failed
  mark_failed_lem id p t w rows marked =
      let put =
        statement_lem o crates up
          (λ (db : Db).
            put_rows crates.unique_violation db
              (mark_payment_intent_failed id p t db.payment_intents))
          w in
      let kept = put_rows-some o crates up vk req cfg crates.unique_violation w.db _ rows marked in
      rw (put, kept) refl

  event_lem :
      (kind : Text) (detail : Option Text) (w : World S)
      → (event o crates vk req cfg kind detail w).1.db.payment_intents ≡ w.db.payment_intents
  unfolding event insert_x402_event
  event_lem kind detail w = rw (statement_lem o crates up _ w) refl

  concluded :
      (intent : PaymentIntent) (p t : Option Text) (verdict : Result VerifyOutput) (w : World S)
      (rows : List PaymentIntent)
      → NotVerified verdict
      → mark_payment_intent_failed intent.id p t w.db.payment_intents ≡ some rows
      → (conclude o crates vk req cfg (some intent) p t verdict w).1.db.payment_intents ≡ rows
  unfolding conclude refuse provider_error or_db_error event
  concluded intent p t (ok out) w rows refused marked = ground (
    arith,
    refused,
    mark_failed_lem intent.id p t w rows marked,
    event_lem (text "x402_verify_failed") out.reason (after_mark rows w),
  )
  concluded intent p t (err e) w rows refused marked = ground (
    arith,
    mark_failed_lem intent.id p t w rows marked,
    event_lem (text "x402_provider_error") (some e) (after_mark rows w),
  )

  -- Where statements get through and the unique keys of the table hold: if the intent that a request
  -- found pending has been marked verified with a payment id by the time the provider refuses the
  -- proof of this request, or fails, the search for a verified intent finds the payment id before,
  -- and finds none when the request is done, if the unique indexes accept its mark.
  pub late_refusal_unrecords :
      (intent row : PaymentIntent) (p t : Option Text) (verdict : Result VerifyOutput) (w : World S)
      (pid : Text) (rows : List PaymentIntent)
      → unique_rows w.db.payment_intents ≡ true
      → In row w.db.payment_intents
      → row.status ≡ verified
      → row.payment_id ≡ some pid
      → row.id ≡ intent.id
      → NotVerified verdict
      → mark_payment_intent_failed intent.id p t w.db.payment_intents ≡ some rows
      → let after = (conclude o crates vk req cfg (some intent) p t verdict w).1 in
        (find_verified_intent_by_payment_id pid w.db.payment_intents ≡ some row)
        × (find_verified_intent_by_payment_id pid after.db.payment_intents ≡ none)
        × In
            (record row {
              status = failed;
              payment_id = coalesce p row.payment_id;
              payment_token = coalesce t row.payment_token;
            })
            after.db.payment_intents
  late_refusal_unrecords intent row p t verdict w pid rows unique held settled proof same refused
        marked =
      let late : mark_payment_intent_failed row.id p t w.db.payment_intents ≡ some rows =
        rw same marked in
      (
        find_verified_complete pid row w.db.payment_intents unique held settled proof,
        rw (concluded intent p t verdict w rows refused marked)
            (failed_unfound pid row p t w.db.payment_intents rows unique held proof late),
        rw (concluded intent p t verdict w rows refused marked)
            (failed-In row p t w.db.payment_intents rows held late),
      )
