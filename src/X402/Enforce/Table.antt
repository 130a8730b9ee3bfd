-- ===== src/X402/Enforce/Table.antt =====
-- What the middleware does to the table of payment intents: a sequence of the four changes.
pub mod Statements
pub mod Verdicts
use relaykey_backend.Base.{
  ℕ, ◌≡◌, refl, inl, inr, true, List, Option, none, some, Bool-cases, Option-cases,
}
use relaykey_backend.Text.{Text}
use relaykey_backend.Context.{VirtualKeyCtx, Request}
use relaykey_backend.Db.{Db, PaymentIntent, Stamped, UsageEvent}
use relaykey_backend.Db.PaymentIntents.{NewIntent, unique_rows}
use relaykey_backend.Db.PaymentIntents.History.{Reach, here, Reach-unique}
use relaykey_backend.World.{
  Outside, Upstream, World, Result, Result-cases, ok, err, return, statement, query,
}
use relaykey_backend.World.Flow.{Leaves, Leaves-bind, Leaves-if}
use relaykey_backend.X402.Config.{X402Config}
use relaykey_backend.X402.Intents.{
  put_rows, insert_x402_event, insert_intent, expire_intents, mark_verified, mark_failed,
  find_pending, find_by_payment_id, find_by_payment_token,
}
use relaykey_backend.X402.Provider.{VerifyOutput, PaymentProvider, Registry, require}
use relaykey_backend.X402.Checks.{
  Crates, event, require_provider, read_request_body, block_replay, is_replay, check_payment_id,
  check_payment_token,
}
use relaykey_backend.X402.Enforce.{
  or_db_error, verify, accept, refuse, provider_error, conclude, check_proof, challenge,
  ask_payment, request_hash_of, charge, config_for, enforce_x402,
}
use relaykey_backend.X402.Enforce.Table.Statements.{
  Kept, statement_keeps, event_keeps, query_keeps, mark_verified_keeps, mark_failed_keeps,
  insert_keeps, expire_keeps, or_db_error_keeps, Awaits, pending_keeps,
}
use relaykey_backend.X402.Enforce.Table.Verdicts.{conclude_keeps, Awaits-on}

module _ {S : Type 0} (o : Outside S) (crates : Crates) (start : List PaymentIntent)
    (before : List Upstream × List (Stamped UsageEvent)) where
  module _ (vk : VirtualKeyCtx) (req : Request) (cfg : X402Config) where
    block_replay_keeps :
        (hash detail : Text) (found : Result (Option PaymentIntent)) (w : World S)
        → Kept o crates start before w
        → Leaves (Kept o crates start before) (block_replay o crates vk req cfg hash detail found w)
    unfolding block_replay
    block_replay_keeps hash detail (err e) w h = record { left = h }
    block_replay_keeps hash detail (ok found) w h =
        Leaves-if (is_replay o crates hash found) _ (return tt) w
          (Leaves-bind _ _ (event_keeps o crates start before vk req cfg _ _ w h)
            (λ _ v k. record { left = k }))
          (record { left = h })

    check_payment_id_keeps :
        (hash : Text) (pid : Option Text) (w : World S)
        → Kept o crates start before w
        → Leaves (Kept o crates start before) (check_payment_id o crates vk req cfg hash pid w)
    unfolding check_payment_id find_by_payment_id
    check_payment_id_keeps hash none w h = record { left = h }
    check_payment_id_keeps hash (some p) w h =
        block_replay_keeps hash _ _ _ (query_keeps o crates start before _ w h)

    check_payment_token_keeps :
        (hash : Text) (token : Option Text) (w : World S)
        → Kept o crates start before w
        → Leaves (Kept o crates start before) (check_payment_token o crates vk req cfg hash token w)
    unfolding check_payment_token find_by_payment_token
    check_payment_token_keeps hash none w h = record { left = h }
    check_payment_token_keeps hash (some p) w h =
        block_replay_keeps hash _ _ _ (query_keeps o crates start before _ w h)

    challenge_keeps :
        (r : Result ℕ) (w : World S)
        → Kept o crates start before w
        → Leaves (Kept o crates start before) (challenge o crates vk req cfg r w)
    unfolding challenge
    challenge_keeps (ok id) w h = record { left = h }
    challenge_keeps (err e) w h =
        Leaves-bind _ _ (event_keeps o crates start before vk req cfg _ _ w h)
          (λ _ v k. record { left = k })

    ask_payment_keeps :
        (hash : Text) (w : World S)
        → Kept o crates start before w
        → Leaves (Kept o crates start before) (ask_payment o crates vk req cfg hash w)
    unfolding ask_payment
    ask_payment_keeps hash w h = challenge_keeps _ _ (insert_keeps o crates start before _ _ w h)

    read_request_body_keeps :
        (w : World S)
        → Kept o crates start before w
        → Leaves (Kept o crates start before) (read_request_body o crates req w)
    unfolding read_request_body
    read_request_body_keeps w h = elim (Bool-cases (o.read_body w.out).0) [
      | inl e ↦
          rw (e, read_request_body)
            (record {
              left = record { reached = h.reached; unsent = h.unsent; unmetered = h.unmetered };
            })
      | inr e ↦
          rw (e, read_request_body)
            (record {
              left = record { reached = h.reached; unsent = h.unsent; unmetered = h.unmetered };
            })
    ]

    check_proof_keeps :
        (provider : PaymentProvider S) (hash : Text) (p t : Option Text) (w : World S)
        → Kept o crates start before w
        → Leaves (Kept o crates start before) (check_proof o crates provider vk req cfg hash p t w)
    unfolding check_proof verify
    check_proof_keeps provider hash p t w h =
        Leaves-bind _ _ (check_payment_id_keeps hash p w h) λ _ w1 h1.
          Leaves-bind _ _ (check_payment_token_keeps hash t w1 h1) λ _ w2 h2.
            pending_keeps o crates start before _ _ _ hash _ w2 h2 λ pending w3 h3 a.
              conclude_keeps o crates start before vk req cfg pending p t _ _
                (record { reached = h3.reached; unsent = h3.unsent; unmetered = h3.unmetered })
                (Awaits-on o crates start before vk req cfg pending w3 _ a)

    charge_keeps :
        (registry : Registry S) (w : World S)
        → Kept o crates start before w
        → Leaves (Kept o crates start before) (charge o crates registry vk req cfg w)
    unfolding charge require_provider event
    charge_keeps registry w h = elim (Result-cases (require registry cfg.provider)) [
      | inl (provider, e) ↦
          rw (e, charge, require_provider)
            (Leaves-bind _ _ (read_request_body_keeps _ (expire_keeps o crates start before w h))
              λ body v k.
                Leaves-if _
                  (check_proof o crates provider vk req cfg (request_hash_of o crates req body) _ _)
                  (ask_payment o crates vk req cfg (request_hash_of o crates req body)) v
                  (check_proof_keeps provider _ _ _ v k) (ask_payment_keeps _ v k))
      | inr (m, e) ↦
          rw (e, charge, require_provider)
            (record { left = (event_keeps o crates start before vk req cfg _ _ w h).left })
    ]

  enforce_keeps :
      (registry : Registry S) (vk : VirtualKeyCtx) (req : Request) (w : World S)
      → Kept o crates start before w
      → Leaves (Kept o crates start before) (enforce_x402 o crates registry vk req w)
  unfolding enforce_x402
  enforce_keeps registry vk req w h = elim (Option-cases (config_for o crates vk req)) [
    | inl off ↦ rw (off, enforce_x402) (record { left = h })
    | inr (cfg, on) ↦ rw (on, enforce_x402) (charge_keeps vk req cfg registry w h)
  ]

kept :
    {S : Type 0} (o : Outside S) (crates : Crates) (registry : Registry S) (vk : VirtualKeyCtx)
    (req : Request) (w : World S)
    → Leaves
        (Kept o crates w.db.payment_intents (w.sent, w.db.usage_events))
        (enforce_x402 o crates registry vk req w)
kept o crates registry vk req w =
    enforce_keeps o crates w.db.payment_intents (w.sent, w.db.usage_events) registry vk req w
      (record { reached = here; unsent = refl; unmetered = refl })

-- On every path of the middleware, with any failures, the table of payment intents changes only by
-- insertions of pending intents and marks of pending intents that its unique keys accept, and by
-- expiries; so the unique keys hold afterwards if they held before.
pub enforce_x402-Reach :
    {S : Type 0} (o : Outside S) (crates : Crates) (registry : Registry S) (vk : VirtualKeyCtx)
    (req : Request) (w : World S)
    → unique_rows w.db.payment_intents ≡ true
    → let after = (enforce_x402 o crates registry vk req w).1.db.payment_intents in
      Reach w.db.payment_intents after × (unique_rows after ≡ true)
enforce_x402-Reach o crates registry vk req w h =
    let reached = (kept o crates registry vk req w).left.reached in
    (reached, Reach-unique h reached)

-- The middleware sends nothing upstream, and adds no usage event.
pub enforce_x402-quiet :
    {S : Type 0} (o : Outside S) (crates : Crates) (registry : Registry S) (vk : VirtualKeyCtx)
    (req : Request) (w : World S)
    → let after = (enforce_x402 o crates registry vk req w).1 in
      (after.sent ≡ w.sent) × (after.db.usage_events ≡ w.db.usage_events)
enforce_x402-quiet o crates registry vk req w =
    let k = (kept o crates registry vk req w).left in (k.unsent, k.unmetered)
