-- ===== src/Examples/Replaying.antt =====
-- Payment proofs that come twice, at example requests.
use relaykey_backend.Base.{ℕ, ◌≡◌, ◌≢◌, refl, ap, get_or, inl, [], ◌∷◌, none, some, arith}
use relaykey_backend.Text.{Text, text}
use relaykey_backend.Http.{respond}
use relaykey_backend.Context.{reply}
use relaykey_backend.Db.{PaymentIntent, pending, failed}
use relaykey_backend.Db.PaymentIntents.{
  unique_rows, expire_stale_payment_intents, mark_payment_intent_failed, checked, settle, coalesce,
  find_verified_intent_by_payment_id,
}
use relaykey_backend.Db.PaymentIntents.Indexes.{In}
use relaykey_backend.World.{World, err}
use relaykey_backend.X402.Provider.{noop_provider}
use relaykey_backend.X402.Hash.{method_text, hash_input, compute_request_hash}
use relaykey_backend.X402.Checks.{path_and_query}
use relaykey_backend.X402.Enforce.{request_hash_of, enforce_x402, conclude}
use relaykey_backend.X402.Enforce.Replay.{IsReused}
use relaykey_backend.X402.Enforce.Recorded.{
  History, initial, served, recorded_payment_blocks_replay,
}
use relaykey_backend.X402.Enforce.Late.{late_refusal_unrecords}
use relaykey_backend.Examples.Data.{outside, vk, world, terms, crates, spent}
use relaykey_backend.Examples.Payments.{
  registry, proven, bare, serving, charged, registered, shown, one_row,
}

other_hash : text "other" ≢ request_hash_of outside crates proven proven.body
unfolding request_hash_of compute_request_hash hash_input method_text path_and_query text
other_hash e =
    let letter : ◌≡◌ {A = ℕ} b'o' b'G' = ap (λ (s : Text). get_or s 0 0) e in absurd (omega arith)

reused : IsReused outside crates serving vk proven terms registry (text "p1") spent
reused = record {
  charged = charged _;
  provider = noop_provider;
  registered = registered;
  shown = shown;
  other = other_hash;
}

-- A request without a proof has come in between.
abbrev later : World ℕ
later = (enforce_x402 outside crates registry vk bare (world (spent ∷ []))).1

asked_before : History outside crates (world (spent ∷ [])) later
asked_before = served initial registry vk bare

recorded_payment_blocks_replay_example :
    ((enforce_x402 outside crates registry vk proven later).0
      ≡ reply (respond 402 "payment replay blocked"))
    × ((enforce_x402 outside crates registry vk proven later).1.db.payment_intents
        ≡ expire_stale_payment_intents (outside.db_now later.out) later.db.payment_intents)
recorded_payment_blocks_replay_example =
    recorded_payment_blocks_replay outside crates serving vk proven terms registry
      (world (spent ∷ [])) later (text "p1") spent one_row (inl refl) refl refl asked_before reused

-- The intent as the request found it.
abbrev awaiting : PaymentIntent
awaiting = record spent { status = pending; payment_id = none }

marked_failed_late :
    mark_payment_intent_failed 3 none (some (text "t")) (spent ∷ [])
    ≡ some ((record spent { status = failed; payment_token = some (text "t") }) ∷ [])
unfolding mark_payment_intent_failed checked unique_rows settle coalesce
marked_failed_late = refl

late_refusal_unrecords_example :
    let after =
      (conclude outside crates vk proven terms
        (some awaiting)
        none
        (some (text "t"))
        (err (text "down"))
        (world (spent ∷ []))).1 in
    (find_verified_intent_by_payment_id (text "p1") (spent ∷ []) ≡ some spent)
    × (find_verified_intent_by_payment_id (text "p1") after.db.payment_intents ≡ none)
    × In
        (record spent { status = failed; payment_token = some (text "t") })
        after.db.payment_intents
unfolding coalesce
late_refusal_unrecords_example =
    late_refusal_unrecords outside crates serving vk proven terms awaiting spent none
      (some (text "t")) (err (text "down")) (world (spent ∷ [])) (text "p1") _ one_row (inl refl)
      refl refl refl tt marked_failed_late
