-- ===== src/Db/Rollups/Queries/Sorting.antt =====
-- The insertion sort of `ORDER BY` keeps the rows, and puts them in order.
use relaykey_backend.Base.{
  ◌≡◌, refl, sym, subst, ◌∙◌, Bool, true, false, List, [], ◌∷◌, keep, length, arith, Bool-cases,
  inl, inr,
}
use relaykey_backend.Db.Rollups.Queries.{insert_by, order_by}

module _ {A : Type 0} (before : A → A → Bool) where
  -- No row has to stand before the one in front of it.
  abbrev pub Ordered : List A → Type 0
  Ordered [] = Unit {0}
  Ordered (x ∷ []) = Unit {0}
  Ordered (x ∷ y ∷ ys) = (before y x ≡ false) × Ordered (y ∷ ys)

  count-insert_by :
      (q : A → Bool) (x : A) (ys : List A)
      → length (keep q (insert_by before x ys)) ≡ length (keep q (x ∷ ys))
  unfolding insert_by
  count-insert_by q x [] = refl
  count-insert_by q x (y ∷ ys) = ground (arith, count-insert_by q x ys)

  pub count-order_by :
      (q : A → Bool) (xs : List A) → length (keep q (order_by before xs)) ≡ length (keep q xs)
  unfolding order_by
  count-order_by q [] = refl
  count-order_by q (x ∷ xs) =
      count-insert_by q x (order_by before xs) ∙ ground (arith, count-order_by q xs)

  insert_by-later :
      (x y : A) (ys : List A)
      → before y x ≡ true
      → insert_by before x (y ∷ ys) ≡ y ∷ insert_by before x ys
  unfolding insert_by
  insert_by-later x y ys h = rw (h, insert_by) refl

  insert_by-here :
      (x y : A) (ys : List A) → before y x ≡ false → insert_by before x (y ∷ ys) ≡ x ∷ y ∷ ys
  unfolding insert_by
  insert_by-here x y ys h = rw (h, insert_by) refl

  Ordered-tail : (y : A) (ys : List A) → Ordered (y ∷ ys) → Ordered ys
  Ordered-tail y [] h = tt
  Ordered-tail y (z ∷ zs) h = h.1

  module _ (asymmetric : (x y : A) → before x y ≡ true → before y x ≡ false) where
    insert_behind :
        (y x : A) (ys : List A)
        → before y x ≡ true
        → Ordered (y ∷ ys)
        → Ordered (insert_by before x ys)
        → Ordered (y ∷ insert_by before x ys)
    unfolding insert_by
    insert_behind y x [] g h k = (asymmetric y x g, k)
    insert_behind y x (z ∷ zs) g h k = elim (Bool-cases (before z x)) [
      | inl e ↦
          let q = insert_by-later x z zs e in
          subst (λ l. Ordered (y ∷ l)) (sym q) (h.0, subst Ordered q k)
      | inr e ↦
          let q = insert_by-here x z zs e in
          subst (λ l. Ordered (y ∷ l)) (sym q) (asymmetric y x g, subst Ordered q k)
    ]

    insert_by-Ordered : (x : A) (ys : List A) → Ordered ys → Ordered (insert_by before x ys)
    unfolding insert_by
    insert_by-Ordered x [] h = tt
    insert_by-Ordered x (y ∷ ys) h = elim (Bool-cases (before y x)) [
      | inl e ↦
          subst Ordered (sym (insert_by-later x y ys e))
            (insert_behind y x ys e h (insert_by-Ordered x ys (Ordered-tail y ys h)))
      | inr e ↦ subst Ordered (sym (insert_by-here x y ys e)) (e, h)
    ]

    pub order_by-Ordered : (xs : List A) → Ordered (order_by before xs)
    unfolding order_by
    order_by-Ordered [] = tt
    order_by-Ordered (x ∷ xs) = insert_by-Ordered x (order_by before xs) (order_by-Ordered xs)
