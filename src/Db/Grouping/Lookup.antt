-- ===== src/Db/Grouping/Lookup.antt =====
-- What stands in a table after a grouped insertion.
use relaykey_backend.Base.{
  true, ◌≡◌, refl, ap, inl, inr, ◌||◌, List, [], ◌∷◌, some, any, if◌then◌else◌, arith, Bool-cases,
}
use relaykey_backend.Db.Grouping.{KeyEq, upsert, row_of, members, upsert_groups, group_by}

module _ {K V : Type 0} ⦃e : KeyEq K⦄ where
  pub row_of-upsert :
      (key asked : K) (columns : V) (table : List (K × V))
      → row_of asked (upsert key columns table)
        ≡ (if e.same key asked then some columns else row_of asked table)
  unfolding row_of upsert
  row_of-upsert key asked columns [] = refl
  row_of-upsert key asked columns ((k, v) ∷ rows) = ground (
    arith,
    e.same_iff k key,
    e.same_iff k asked,
    e.same_iff key asked,
    row_of-upsert key asked columns rows,
  )

module _ {K V E : Type 0} ⦃e : KeyEq K⦄ (key_of : E → K) (aggregate : List E → V) where
  -- What the step at one event makes of the row under `asked`.
  row_of-step :
      (all_events : List E) (seen : List K) (key asked : K) (table : List (K × V))
      → (any (λ k. e.same k asked) seen ≡ true
          → row_of asked table ≡ some (aggregate (members key_of asked all_events)))
      → row_of asked (
          if any (λ k. e.same k key) seen
          then table
          else upsert key (aggregate (members key_of key all_events)) table)
        ≡ (if e.same key asked
            then some (aggregate (members key_of asked all_events))
            else row_of asked table)
  row_of-step all_events seen key asked table h =
      let up = row_of-upsert key asked (aggregate (members key_of key all_events)) table in
      let same_row : e.same key asked ≡ true
          → aggregate (members key_of key all_events)
            ≡ aggregate (members key_of asked all_events) =
        λ s. ap (λ y. aggregate (members key_of y all_events)) ((e.same_iff key asked).0 s) in
      let same_seen : e.same key asked ≡ true
          → any (λ k. e.same k key) seen ≡ any (λ k. e.same k asked) seen =
        λ s. ap (λ y. any (λ k. e.same k y) seen) ((e.same_iff key asked).0 s) in
      ground (arith, up, same_row, same_seen, h)

  row_of-upsert_groups :
      (all_events : List E) (seen : List K) (events : List E) (table : List (K × V)) (asked : K)
      → (any (λ k. e.same k asked) seen ≡ true
          → row_of asked table ≡ some (aggregate (members key_of asked all_events)))
      → row_of asked (upsert_groups key_of aggregate all_events seen events table) ≡ (
          if any (λ k. e.same k asked) seen || any (λ x. e.same (key_of x) asked) events
          then some (aggregate (members key_of asked all_events))
          else row_of asked table)
  unfolding upsert_groups
  row_of-upsert_groups all_events seen [] table asked h =
      elim (Bool-cases (any (λ k. e.same k asked) seen)) [ inl s ↦ rw s (h s) | inr s ↦ rw s refl ]
  row_of-upsert_groups all_events seen (x ∷ events) table asked h =
      rw
        (row_of-upsert_groups all_events (key_of x ∷ seen) events
          (if any (λ k. e.same k (key_of x)) seen
            then table
            else upsert (key_of x) (aggregate (members key_of (key_of x) all_events)) table)
          asked (λ t. ground (arith, h, t, row_of-step all_events seen (key_of x) asked table h)))
        (ground (arith, h, row_of-step all_events seen (key_of x) asked table h))

  pub row_of-group_by :
      (events : List E) (table : List (K × V)) (asked : K)
      → row_of asked (group_by key_of aggregate events table) ≡ (
          if any (λ x. e.same (key_of x) asked) events
          then some (aggregate (members key_of asked events))
          else row_of asked table)
  unfolding group_by upsert_groups
  row_of-group_by events table asked =
      row_of-upsert_groups events [] events table asked (λ t. ground (arith, t))
