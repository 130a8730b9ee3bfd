-- ===== src/Db/Keys/Latest.antt =====
-- `ORDER BY key DESC LIMIT 1`.
use relaykey_backend.Base.{
  ℕ, ◌≤◌, ◌≡◌, inl, inr, Bool, List, [], ◌∷◌, some, arith, All, Option-cases, keep,
}
use relaykey_backend.Db.Keys.{latest}

module _ {A : Type 0} (key : A → ℕ) where
  latest_bound :
      (n : ℕ) (xs : List A) (y : A) → All (λ x. key x ≤ n) xs → latest key xs ≡ some y → key y ≤ n
  unfolding latest
  latest_bound n [] y h e = absurd (cc)
  latest_bound n (x ∷ xs) y h e = elim (Option-cases (latest key xs)) [
    | inl none' ↦ ground arith
    | inr (z, later) ↦ ground (arith, latest_bound n xs z h.1)
  ]

  -- A row that is put in front and is no older than the others is the latest.
  pub latest_front :
      (x : A) (xs : List A) → All (λ y. key y ≤ key x) xs → latest key (x ∷ xs) ≡ some x
  unfolding latest
  latest_front x xs h = elim (Option-cases (latest key xs)) [
    | inl none' ↦ ground arith
    | inr (z, later) ↦ ground (arith, latest_bound (key x) xs z h)
  ]

module _ {A : Type 0} (P : A → Type 0) where
  pub All-keep : (p : A → Bool) (xs : List A) → All P xs → All P (keep p xs)
  All-keep p [] h = h
  All-keep p (x ∷ xs) h = ground (arith, All-keep p xs h.1)
