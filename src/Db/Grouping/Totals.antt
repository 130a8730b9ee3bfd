-- ===== src/Db/Grouping/Totals.antt =====
-- What the rows of a grouped insertion add up to.
use relaykey_backend.Base.{
  ℕ, suc, ◌+◌, Bool, true, false, not, ◌≡◌, refl, ap, ◌∙◌, inl, inr, List, [], ◌∷◌, none, any, keep,
  length, arith, Bool-cases, or-eq-false,
}
use relaykey_backend.Db.Grouping.{KeyEq, upsert, row_of, members, upsert_groups, group_by}
use relaykey_backend.Db.Grouping.Lookup.{row_of-upsert}

module _ {K V : Type 0} (size : V → ℕ) where
  -- A column, added up over a table.
  unfoldable pub total : List (K × V) → ℕ
  total [] = 0
  total ((k, v) ∷ rows) = size v + total rows

  total-upsert :
      ⦃e : KeyEq K⦄ (key : K) (columns : V) (table : List (K × V))
      → row_of key table ≡ none
      → total (upsert key columns table) ≡ total table + size columns
  unfolding total upsert row_of
  total-upsert ⦃e⦄ key columns [] h = omega arith
  total-upsert ⦃e⦄ key columns ((k, v) ∷ rows) h = ground (arith, h, total-upsert key columns rows)

module _ {K E : Type 0} ⦃e : KeyEq K⦄ (key_of : E → K) where
  unfoldable unseen : List K → E → Bool
  unseen seen x = not (any (λ k. e.same k (key_of x)) seen)

  -- Those of a new group, and those of the groups still to come.
  length-unseen :
      (seen : List K) (key : K) (events : List E)
      → any (λ k. e.same k key) seen ≡ false
      → length (keep (unseen seen) events)
        ≡ length (members key_of key events) + length (keep (unseen (key ∷ seen)) events)
  unfolding unseen members
  length-unseen seen key [] h = omega arith
  length-unseen seen key (x ∷ events) h =
      let same_seen : e.same key (key_of x) ≡ true
          → any (λ k. e.same k key) seen ≡ any (λ k. e.same k (key_of x)) seen =
        λ s. ap (λ y. any (λ k. e.same k y) seen) ((e.same_iff key (key_of x)).0 s) in
      ground (
        arith,
        h,
        same_seen,
        e.same_iff key (key_of x),
        e.same_iff (key_of x) key,
        length-unseen seen key events h,
      )

  -- A group that has been met once changes nothing when it is met again.
  length-unseen-again :
      (seen : List K) (key : K) (events : List E)
      → any (λ k. e.same k key) seen ≡ true
      → length (keep (unseen (key ∷ seen)) events) ≡ length (keep (unseen seen) events)
  unfolding unseen
  length-unseen-again seen key [] h = refl
  length-unseen-again seen key (x ∷ events) h =
      let same_seen : e.same key (key_of x) ≡ true
          → any (λ k. e.same k key) seen ≡ any (λ k. e.same k (key_of x)) seen =
        λ s. ap (λ y. any (λ k. e.same k y) seen) ((e.same_iff key (key_of x)).0 s) in
      ground (arith, h, same_seen, length-unseen-again seen key events h)

  -- The first event belongs to no other group.
  members-next :
      (key : K) (x : E) (events : List E)
      → e.same (key_of x) key ≡ false
      → members key_of key (x ∷ events) ≡ members key_of key events
  unfolding members
  members-next key x events h = ground (arith, h)

  length-unseen-seen :
      (seen : List K) (x : E) (events : List E)
      → any (λ k. e.same k (key_of x)) seen ≡ true
      → length (keep (unseen seen) (x ∷ events)) ≡ length (keep (unseen seen) events)
  unfolding unseen
  length-unseen-seen seen x events h = ground (arith, h)

  length-unseen-none : (events : List E) → length (keep (unseen []) events) ≡ length events
  unfolding unseen
  length-unseen-none [] = refl
  length-unseen-none (x ∷ events) = ap suc (length-unseen-none events)

  length-unseen_self :
      (seen : List K) (x : E) (events : List E)
      → length (keep (unseen (key_of x ∷ seen)) (x ∷ events))
        ≡ length (keep (unseen (key_of x ∷ seen)) events)
  unfolding unseen
  length-unseen_self seen x events = ground (arith, e.same_iff (key_of x) (key_of x))

module _ {K V E : Type 0} ⦃e : KeyEq K⦄ (key_of : E → K) (aggregate : List E → V) (size : V → ℕ)
    (counts : (events : List E) → size (aggregate events) ≡ length events) where
  total-upsert_groups :
      (all_events : List E) (seen : List K) (events : List E) (table : List (K × V))
      → ((key : K)
          → any (λ k. e.same k key) seen ≡ false
          → (row_of key table ≡ none) × (members key_of key all_events ≡ members key_of key events))
      → total size (upsert_groups key_of aggregate all_events seen events table)
        ≡ total size table + length (keep (unseen key_of seen) events)
  unfolding upsert_groups
  total-upsert_groups all_events seen [] table h = omega arith
  total-upsert_groups all_events seen (x ∷ events) table h =
      elim (Bool-cases (any (λ k. e.same k (key_of x)) seen)) [
        | inl a ↦
            let rest = total-upsert_groups all_events (key_of x ∷ seen) events table (λ key g.
              let (p, r) = or-eq-false (e.same (key_of x) key) (any (λ k. e.same k key) seen) g in
              ((h key r).0, (h key r).1 ∙ members-next key_of key x events p)) in
            rw a (
              omega (
                arith,
                rest,
                length-unseen-again key_of seen (key_of x) events a,
                length-unseen-seen key_of seen x events a,
              ))
        | inr a ↦
            let columns = aggregate (members key_of (key_of x) all_events) in
            let rest =
              total-upsert_groups all_events (key_of x ∷ seen) events
                (upsert (key_of x) columns table)
                (λ key g.
                  let (p, r) =
                    or-eq-false (e.same (key_of x) key) (any (λ k. e.same k key) seen) g in
                  (
                    rw (row_of-upsert (key_of x) key columns table, p) ((h key r).0),
                    (h key r).1 ∙ members-next key_of key x events p,
                  )) in
            rw a (
              omega (
                arith,
                rest,
                total-upsert size (key_of x) columns table ((h (key_of x) a).0),
                counts (members key_of (key_of x) all_events),
                ap length ((h (key_of x) a).1),
                length-unseen key_of seen (key_of x) (x ∷ events) a,
                length-unseen_self key_of seen x events,
              ))
      ]

  -- The rows made in an empty table count every event once.
  pub total-group_by :
      (events : List E) → total size (group_by key_of aggregate events []) ≡ length events
  unfolding group_by total row_of
  total-group_by events = omega (
    arith,
    total-upsert_groups events [] events [] (λ key g. (refl, refl)),
    length-unseen-none key_of events,
  )
