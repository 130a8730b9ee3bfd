-- ===== src/Db/PaymentIntents/History.antt =====
-- What requests that come one after another do to the table of payment intents.
use relaykey_backend.Base.{
  ℕ, ◌≡◌, refl, sym, ap, ◌∙◌, subst, inl, inr, true, List, map, Option, some, arith, ◌==◌,
  Bool-cases,
}
use relaykey_backend.Text.{Text}
use relaykey_backend.Db.{PaymentIntent, Status, pending, verified}
use relaykey_backend.Db.PaymentIntents.{
  status_eq, unique_rows, NewIntent, insert_payment_intent, settle, mark_payment_intent_verified,
  mark_payment_intent_failed, is_pending_for, expire_stale_payment_intents,
  find_latest_pending_intent_by_request_hash,
}
use relaykey_backend.Db.PaymentIntents.Indexes.{checked_unique, In, In_id, In-expire, expire_unique}
use relaykey_backend.Db.PaymentIntents.Settling.{latest-In, In-keep, In-map, kept_fits}

-- The row with an id waits for its payment.
pub record IsAwaited (id : ℕ) (rows : List PaymentIntent) : Type 0 where
  pub intent : PaymentIntent
  pub named : intent.id ≡ id
  pub held : In intent rows
  pub waits : intent.status ≡ pending

-- One step: only a row that is pending is marked.
pub data Change : List PaymentIntent → List PaymentIntent → Type 0 where
  inserted :
      {rows after : List PaymentIntent} (now id : ℕ) (n : NewIntent)
      → insert_payment_intent now id n rows ≡ some after
      → Change rows after
  marked_verified :
      {rows after : List PaymentIntent} (id : ℕ) (payment_id payment_token : Option Text)
      → IsAwaited id rows
      → mark_payment_intent_verified id payment_id payment_token rows ≡ some after
      → Change rows after
  marked_failed :
      {rows after : List PaymentIntent} (id : ℕ) (payment_id payment_token : Option Text)
      → IsAwaited id rows
      → mark_payment_intent_failed id payment_id payment_token rows ≡ some after
      → Change rows after
  expiry :
      {rows : List PaymentIntent} (now : ℕ) → Change rows (expire_stale_payment_intents now rows)

pub data Reach (rows : List PaymentIntent) : List PaymentIntent → Type 0 where
  here : Reach rows rows
  next : {a b : List PaymentIntent} → Reach rows a → Change a b → Reach rows b

Change-unique :
    {a b : List PaymentIntent} → Change a b → unique_rows a ≡ true → unique_rows b ≡ true
unfolding mark_payment_intent_verified mark_payment_intent_failed insert_payment_intent
Change-unique {b} (inserted now id n e) h = (checked_unique _ b e).1
Change-unique {b} (marked_verified id p t k e) h = (checked_unique _ b e).1
Change-unique {b} (marked_failed id p t k e) h = (checked_unique _ b e).1
Change-unique {a} (expiry now) h = expire_unique now a h

-- Accepted insertions and marks, and expiries, in any number and order, keep the unique indexes.
pub Reach-unique :
    {a b : List PaymentIntent} → unique_rows a ≡ true → Reach a b → unique_rows b ≡ true
Reach-unique h here = h
Reach-unique h (next r c) = Change-unique c (Reach-unique h r)

pub Reach-trans : {a b c : List PaymentIntent} → Reach a b → Reach b c → Reach a c
Reach-trans r here = r
Reach-trans r (next q c) = next (Reach-trans r q) c

pub settle_other :
    (s : Status) (id : ℕ) (p t : Option Text) (row : PaymentIntent)
    → (row.id ≡ id → ⊥)
    → settle s id p t row ≡ row
unfolding settle
settle_other s id p t row h = elim (Bool-cases (row.id == id)) [
  | inl e ↦ absurd (h (ground (arith, e)))
  | inr e ↦ rw (e, settle) refl
]

module _ (row : PaymentIntent) (settled : row.status ≡ verified) where
  -- Marking the row that waits passes a verified row by.
  marked-In :
      (s : Status) (id : ℕ) (p t : Option Text) (rows after : List PaymentIntent)
      → unique_rows rows ≡ true
      → In row rows
      → IsAwaited id rows
      → map (settle s id p t) rows ≡ after
      → In row after
  marked-In s id p t rows after u i k e = subst (In row) e (
      subst (λ r. In r (map (settle s id p t) rows)) (settle_other s id p t row other)
        (In-map (settle s id p t) rows row i))
    where
      other : row.id ≡ id → ⊥
      other h =
          let same : row ≡ k.intent = In_id row k.intent rows u i k.held (h ∙ sym k.named) in
          let both : verified ≡ pending =
            sym settled ∙ ap (λ (r : PaymentIntent). r.status) same ∙ k.waits in
          cc

  Change-In : {a b : List PaymentIntent} → Change a b → unique_rows a ≡ true → In row a → In row b
  unfolding mark_payment_intent_verified mark_payment_intent_failed insert_payment_intent
  Change-In {b} (inserted now id n e) u i = subst (In row) (checked_unique _ b e).0 (inr i)
  Change-In {a} {b} (marked_verified id p t k e) u i =
      marked-In verified id p t a b u i k (checked_unique _ b e).0
  Change-In {a} {b} (marked_failed id p t k e) u i =
      marked-In _ id p t a b u i k (checked_unique _ b e).0
  Change-In {a} (expiry now) u i = In-expire now row a settled i

  -- A verified row stays in the table as it is.
  pub Reach-In : {a b : List PaymentIntent} → unique_rows a ≡ true → Reach a b → In row a → In row b
  Reach-In u here i = i
  Reach-In u (next r c) i = Change-In c (Reach-unique u r) (Reach-In u r i)

pending_of : (s : Status) → status_eq s pending ≡ true → s ≡ pending
unfolding status_eq
pending_of s h = ground (arith, h)

pending_status :
    (virtual_key_id : ℕ) (partner_name path hash : Text) (row : PaymentIntent)
    → is_pending_for virtual_key_id partner_name path hash row ≡ true
    → row.status ≡ pending
unfolding is_pending_for
pending_status virtual_key_id partner_name path hash row h =
    ground (arith, h, pending_of row.status)

-- What the search for a pending intent finds waits for its payment.
pub found-IsAwaited :
    (virtual_key_id : ℕ) (partner_name path hash : Text) (intent : PaymentIntent)
    (rows : List PaymentIntent)
    → find_latest_pending_intent_by_request_hash virtual_key_id partner_name path hash rows
      ≡ some intent
    → IsAwaited intent.id rows
unfolding find_latest_pending_intent_by_request_hash
found-IsAwaited virtual_key_id partner_name path hash intent rows found =
    let there = latest-In (λ row. row.ts) _ intent found in
    record {
      intent = intent;
      named = refl;
      held = In-keep _ rows intent there;
      waits =
          pending_status virtual_key_id partner_name path hash intent
            (kept_fits _ rows intent there);
    }
