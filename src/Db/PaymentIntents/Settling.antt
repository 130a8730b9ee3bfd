-- ===== src/Db/PaymentIntents/Settling.antt =====
-- The row that a verification settles, and the search that finds it again.
use relaykey_backend.Base.{
  ℕ, ◌≡◌, ap, subst, inl, inr, Bool, true, false, List, [], ◌∷◌, map, none, some, arith, keep,
  keep_front, ltb, Option-cases, Bool-cases,
}
use relaykey_backend.Text.{Text}
use relaykey_backend.Db.{PaymentIntent, verified}
use relaykey_backend.Db.Keys.{latest}
use relaykey_backend.Db.PaymentIntents.{
  settle, coalesce, mark_payment_intent_verified, find_latest_pending_intent_by_request_hash,
  find_verified_intent_by_payment_id,
}
use relaykey_backend.Db.PaymentIntents.Indexes.{checked_unique, In, find_verified_complete}

pub latest-In :
    (key : PaymentIntent → ℕ) (rows : List PaymentIntent) (row : PaymentIntent)
    → latest key rows ≡ some row
    → In row rows
unfolding latest
latest-In key [] row h = absurd (cc)
latest-In key (x ∷ rows) row h = elim (Option-cases (latest key rows)) [
  | inl e ↦ inl (ground (arith, h, e))
  | inr (y, e) ↦ elim (Bool-cases (ltb (key x) (key y))) [
    | inl g ↦ inr (latest-In key rows row (ground (arith, h, e, g)))
    | inr g ↦ inl (ground (arith, h, e, g))
  ]
]

keep_behind :
    (p : PaymentIntent → Bool) (x : PaymentIntent) (rows : List PaymentIntent)
    → p x ≡ false
    → keep p (x ∷ rows) ≡ keep p rows
keep_behind p x rows h = ground (arith, h)

pub In-keep :
    (p : PaymentIntent → Bool) (rows : List PaymentIntent) (row : PaymentIntent)
    → In row (keep p rows)
    → In row rows
In-keep p [] row h = h
In-keep p (x ∷ rows) row h = elim (Bool-cases (p x)) [
  | inl e ↦ elim (subst (In row) (keep_front p x rows e) h) [
    | inl q ↦ inl q
    | inr i ↦ inr (In-keep p rows row i)
  ]
  | inr e ↦ inr (In-keep p rows row (subst (In row) (keep_behind p x rows e) h))
]

pub kept_fits :
    (p : PaymentIntent → Bool) (rows : List PaymentIntent) (row : PaymentIntent)
    → In row (keep p rows)
    → p row ≡ true
kept_fits p [] row h = absurd h
kept_fits p (x ∷ rows) row h = elim (Bool-cases (p x)) [
  | inl e ↦ elim (subst (In row) (keep_front p x rows e) h) [
    | inl q ↦ rw q e
    | inr i ↦ kept_fits p rows row i
  ]
  | inr e ↦ kept_fits p rows row (subst (In row) (keep_behind p x rows e) h)
]

pub In-map :
    (f : PaymentIntent → PaymentIntent) (rows : List PaymentIntent) (row : PaymentIntent)
    → In row rows
    → In (f row) (map f rows)
In-map f [] row h = h
In-map f (x ∷ rows) row (inl e) = inl (ap f e)
In-map f (x ∷ rows) row (inr i) = inr (In-map f rows row i)

settle_self :
    (pid : Text) (row : PaymentIntent)
    → ((settle verified row.id (some pid) none row).status ≡ verified)
      × ((settle verified row.id (some pid) none row).payment_id ≡ some pid)
unfolding settle coalesce
settle_self pid row = ground arith

-- A pending intent that is marked verified is found by its payment id.
pub settled_found :
    (virtual_key_id : ℕ) (partner_name path hash pid : Text) (intent : PaymentIntent)
    (rows after : List PaymentIntent)
    → find_latest_pending_intent_by_request_hash virtual_key_id partner_name path hash rows
      ≡ some intent
    → mark_payment_intent_verified intent.id (some pid) none rows ≡ some after
    → find_verified_intent_by_payment_id pid after
      ≡ some (settle verified intent.id (some pid) none intent)
unfolding find_latest_pending_intent_by_request_hash mark_payment_intent_verified
settled_found virtual_key_id partner_name path hash pid intent rows after found marked =
    let (same, unique) =
      checked_unique (map (settle verified intent.id (some pid) none) rows) after marked in
    let there = latest-In (λ row. row.ts) _ intent found in
    find_verified_complete pid (settle verified intent.id (some pid) none intent) after unique
      (subst (In (settle verified intent.id (some pid) none intent)) same (
        In-map (settle verified intent.id (some pid) none) rows intent
          (In-keep _ rows intent there)))
      (settle_self pid intent).0 (settle_self pid intent).1
