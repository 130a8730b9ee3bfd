-- ===== src/Db/PaymentIntents/Overwriting.antt =====
-- Marking a row failed takes its payment id out of the verified ones.
use relaykey_backend.Base.{
  ℕ, ◌≡◌, refl, ap, subst, inl, inr, Bool, true, false, ◌&&◌, ◌==◌, List, [], ◌∷◌, map, Option,
  none, some, arith, Bool-cases,
}
use relaykey_backend.Text.{Text}
use relaykey_backend.Text.Laws.{text_eq_sound}
use relaykey_backend.Db.{PaymentIntent, verified, failed}
use relaykey_backend.Db.Keys.{first}
use relaykey_backend.Db.PaymentIntents.{
  status_eq, same_text, settle, coalesce, unique_rows, mark_payment_intent_failed,
  find_verified_intent_by_payment_id,
}
use relaykey_backend.Db.PaymentIntents.Indexes.{checked_unique, In, In_payment}
use relaykey_backend.Db.PaymentIntents.History.{settle_other}

first-none :
    (p : PaymentIntent → Bool) (f : PaymentIntent → PaymentIntent) (rows : List PaymentIntent)
    → ((x : PaymentIntent) → In x rows → p (f x) ≡ false)
    → first p (map f rows) ≡ none
unfolding first
first-none p f [] h = refl
first-none p f (x ∷ rows) h = rw (h x (inl refl), first) (first-none p f rows (λ y i. h y (inr i)))

settle_failed :
    (id : ℕ) (p t : Option Text) (x : PaymentIntent)
    → (x.id == id) ≡ true
    → status_eq (settle failed id p t x).status verified ≡ false
unfolding settle status_eq
settle_failed id p t x h = ground (arith, h)

same_text_sound : (a : Option Text) (s : Text) → same_text a (some s) ≡ true → a ≡ some s
unfolding same_text
same_text_sound none s h = absurd (cc)
same_text_sound (some t) s h = ap (λ (u : Text). some u) (text_eq_sound t s h)

both_fail : (a b : Bool) → b ≡ false → (a && b) ≡ false
both_fail a b h = ground (arith, h)

-- A payment id of a row that is marked failed is on no verified row any more.
pub failed_unfound :
    (pid : Text) (row : PaymentIntent) (p t : Option Text) (rows after : List PaymentIntent)
    → unique_rows rows ≡ true
    → In row rows
    → row.payment_id ≡ some pid
    → mark_payment_intent_failed row.id p t rows ≡ some after
    → find_verified_intent_by_payment_id pid after ≡ none
unfolding find_verified_intent_by_payment_id mark_payment_intent_failed
failed_unfound pid row p t rows after u held proof marked =
    subst (λ r. first holds r ≡ none) (checked_unique _ after marked).0
      (first-none holds (settle failed row.id p t) rows each)
  where
    holds : PaymentIntent → Bool
    holds x = same_text x.payment_id (some pid) && status_eq x.status verified

    other : (x : PaymentIntent) → In x rows → (x.id == row.id) ≡ false → holds x ≡ false
    other x i h = elim (Bool-cases (same_text x.payment_id (some pid))) [
      | inr e ↦ rw e refl
      | inl e ↦
          let same : x.id ≡ row.id =
            ap (λ (r : PaymentIntent). r.id)
              (In_payment x row rows u pid i held (same_text_sound x.payment_id pid e) proof) in
          absurd (ground (arith, h, same))
    ]

    each : (x : PaymentIntent) → In x rows → holds (settle failed row.id p t x) ≡ false
    each x i = elim (Bool-cases (x.id == row.id)) [
      | inl e ↦ both_fail _ _ (settle_failed row.id p t x e)
      | inr e ↦ rw (settle_other failed row.id p t x (λ s. ground (arith, e, s))) (other x i e)
    ]

In-map :
    (f : PaymentIntent → PaymentIntent) (x : PaymentIntent) (rows : List PaymentIntent)
    → In x rows
    → In (f x) (map f rows)
In-map f x [] i = i
In-map f x (y ∷ rows) (inl e) = inl (ap f e)
In-map f x (y ∷ rows) (inr i) = inr (In-map f x rows i)

failed_row :
    (row : PaymentIntent) (p t : Option Text)
    → settle failed row.id p t row ≡ record row {
      status = failed;
      payment_id = coalesce p row.payment_id;
      payment_token = coalesce t row.payment_token;
    }
unfolding settle
failed_row row p t = ground arith

-- The row that is marked failed is in the table, with that status.
pub failed-In :
    (row : PaymentIntent) (p t : Option Text) (rows after : List PaymentIntent)
    → In row rows
    → mark_payment_intent_failed row.id p t rows ≡ some after
    → In
        (record row {
          status = failed;
          payment_id = coalesce p row.payment_id;
          payment_token = coalesce t row.payment_token;
        })
        after
unfolding mark_payment_intent_failed
failed-In row p t rows after held marked =
    subst (λ x. In x after) (failed_row row p t)
      (subst (λ r. In (settle failed row.id p t row) r) (checked_unique _ after marked).0
        (In-map (settle failed row.id p t) row rows held))
