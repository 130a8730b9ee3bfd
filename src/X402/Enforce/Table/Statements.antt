-- ===== src/X402/Enforce/Table/Statements.antt =====
-- The statements of the middleware, and what each does to the table of payment intents.
use relaykey_backend.Base.{ℕ, ◌≡◌, refl, ◌∙◌, inl, inr, List, Option, none, some, Option-cases}
use relaykey_backend.Text.{Text}
use relaykey_backend.Context.{VirtualKeyCtx, Request}
use relaykey_backend.Db.{Db, PaymentIntent, Stamped, UsageEvent}
use relaykey_backend.Db.PaymentIntents.{
  NewIntent, insert_payment_intent, find_latest_pending_intent_by_request_hash,
}
use relaykey_backend.Db.PaymentIntents.History.{
  Change, inserted, marked_verified, marked_failed, expiry, Reach, next, IsAwaited, found-IsAwaited,
}
use relaykey_backend.World.{
  Outside, Upstream, World, Exec, Result, ok, err, statement, query, lift, ◌>>=◌,
}
use relaykey_backend.World.Flow.{Leaves}
use relaykey_backend.X402.Config.{X402Config}
use relaykey_backend.X402.Intents.{
  put_rows, put_new, insert_x402_event, insert_intent, expire_intents, mark_verified, mark_failed,
  find_pending,
}
use relaykey_backend.X402.Checks.{Crates, event}
use relaykey_backend.X402.Enforce.{or_db_error}

module _ {S : Type 0} (o : Outside S) (crates : Crates) (start : List PaymentIntent)
    (before : List Upstream × List (Stamped UsageEvent)) where
  -- The table can be reached from the one at the start, nothing has been sent since, and no usage
  -- event has been added.
  pub record Kept (w : World S) : Type 0 where
    pub reached : Reach start w.db.payment_intents
    pub unsent : w.sent ≡ before.0
    pub unmetered : w.db.usage_events ≡ before.1

  pub statement_keeps :
      {A : Type 0} (f : Db → Result A × Db) (w : World S)
      → Kept w
      → Reach start (f w.db).1.payment_intents
      → (f w.db).1.usage_events ≡ w.db.usage_events
      → Kept (statement o f w).1
  unfolding statement
  statement_keeps f w h k l = elim (Option-cases (o.db_fault w.out).0) [
    | inl e ↦
        rw (e, statement) (record { reached = k; unsent = h.unsent; unmetered = l ∙ h.unmetered })
    | inr (m, e) ↦
        rw (e, statement)
          (record { reached = h.reached; unsent = h.unsent; unmetered = h.unmetered })
  ]

  pub event_keeps :
      (vk : VirtualKeyCtx) (req : Request) (cfg : X402Config) (t : Text) (d : Option Text)
      (w : World S)
      → Kept w
      → Leaves Kept (event o crates vk req cfg t d w)
  unfolding event insert_x402_event
  event_keeps vk req cfg t d w h = record { left = statement_keeps _ w h h.reached refl }

  pub query_keeps : {A : Type 0} (f : Db → A) (w : World S) → Kept w → Kept (query o f w).1
  unfolding query
  query_keeps f w h = statement_keeps (λ db. (ok (f db), db)) w h h.reached refl

  pub put_rows_keeps :
      (m : Text) (db : Db) (rows : Option (List PaymentIntent))
      → Reach start db.payment_intents
      → ((after : List PaymentIntent) → rows ≡ some after → Change db.payment_intents after)
      → Reach start (put_rows m db rows).1.payment_intents
  unfolding put_rows
  put_rows_keeps m db none h c = h
  put_rows_keeps m db (some after) h c = next h (c after refl)

  put_rows-usage :
      (m : Text) (db : Db) (rows : Option (List PaymentIntent))
      → (put_rows m db rows).1.usage_events ≡ db.usage_events
  unfolding put_rows
  put_rows-usage m db none = refl
  put_rows-usage m db (some rows) = refl

  put_new-usage :
      (m : Text) (id : ℕ) (db : Db) (rows : Option (List PaymentIntent))
      → (put_new m id db rows).1.usage_events ≡ db.usage_events
  unfolding put_new
  put_new-usage m id db none = refl
  put_new-usage m id db (some rows) = refl

  pub mark_verified_keeps :
      (m : Text) (id : ℕ) (p t : Option Text) (w : World S)
      → Kept w
      → IsAwaited id w.db.payment_intents
      → Kept (mark_verified o m id p t w).1
  unfolding mark_verified
  mark_verified_keeps m id p t w h k =
      statement_keeps _ w h
        (put_rows_keeps m w.db _ h.reached (λ after e. marked_verified id p t k e))
        (put_rows-usage m w.db _)

  pub mark_failed_keeps :
      (m : Text) (id : ℕ) (p t : Option Text) (w : World S)
      → Kept w
      → IsAwaited id w.db.payment_intents
      → Kept (mark_failed o m id p t w).1
  unfolding mark_failed
  mark_failed_keeps m id p t w h k =
      statement_keeps _ w h
        (put_rows_keeps m w.db _ h.reached (λ after e. marked_failed id p t k e))
        (put_rows-usage m w.db _)

  put_new_keeps :
      (m : Text) (id : ℕ) (db : Db) (rows : Option (List PaymentIntent))
      → Reach start db.payment_intents
      → ((after : List PaymentIntent) → rows ≡ some after → Change db.payment_intents after)
      → Reach start (put_new m id db rows).1.payment_intents
  unfolding put_new
  put_new_keeps m id db none h c = h
  put_new_keeps m id db (some after) h c = next h (c after refl)

  pub insert_keeps :
      (m : Text) (n : NewIntent) (w : World S) → Kept w → Kept (insert_intent o m n w).1
  unfolding insert_intent
  insert_keeps m n w h =
      statement_keeps _ w h
        (put_new_keeps m (o.new_id w.out) w.db
          (insert_payment_intent (o.db_now w.out) (o.new_id w.out) n w.db.payment_intents) h.reached
          (λ after e. inserted (o.db_now w.out) (o.new_id w.out) n e))
        (put_new-usage m (o.new_id w.out) w.db _)

  pub expire_keeps : (w : World S) → Kept w → Kept (expire_intents o w).1
  unfolding expire_intents
  expire_keeps w h = statement_keeps _ w h (next h.reached (expiry _)) refl

  pub or_db_error_keeps :
      {A : Type 0} (r : Result A) (w : World S) → Kept w → Leaves Kept (or_db_error o crates r w)
  unfolding or_db_error
  or_db_error_keeps (ok a) w h = record { left = h }
  or_db_error_keeps (err e) w h = record { left = h }

  -- What was found pending is pending still.
  abbrev pub Awaits : Option PaymentIntent → World S → Type 0
  Awaits none w = Unit
  Awaits (some intent) w = IsAwaited intent.id w.db.payment_intents

  found-Awaits :
      (id : ℕ) (partner path hash : Text) (found : Option PaymentIntent) (w : World S)
      → find_latest_pending_intent_by_request_hash id partner path hash w.db.payment_intents ≡ found
      → Awaits found w
  found-Awaits id partner path hash none w e = tt
  found-Awaits id partner path hash (some intent) w e =
      found-IsAwaited id partner path hash intent w.db.payment_intents e

  -- The search for the pending intent, and what follows it.
  pub pending_keeps :
      {A : Type 0} (id : ℕ) (partner path hash : Text) (f : Option PaymentIntent → Exec S A)
      (w : World S)
      → Kept w
      → ((found : Option PaymentIntent) (v : World S)
          → Kept v
          → Awaits found v
          → Leaves Kept (f found v))
      → Leaves Kept
          (((lift (find_pending o id partner path hash) >>= or_db_error o crates) >>= f) w)
  unfolding find_pending query statement or_db_error
  pending_keeps id partner path hash f w h k = elim (Option-cases (o.db_fault w.out).0) [
    | inl e ↦
        rw (e, statement, query, find_pending)
          (k (find_latest_pending_intent_by_request_hash id partner path hash w.db.payment_intents)
            (record w { out = (o.db_fault w.out).1 })
            (record { reached = h.reached; unsent = h.unsent; unmetered = h.unmetered })
            (found-Awaits id partner path hash _ _ refl))
    | inr (m, e) ↦
        rw (e, statement, query, find_pending)
          (record {
            left = record { reached = h.reached; unsent = h.unsent; unmetered = h.unmetered };
          })
  ]
