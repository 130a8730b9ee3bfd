-- ===== src/Db/Grouping/Every.antt =====
-- What holds of the columns of every row after a grouped insertion.
use relaykey_backend.Base.{inl, inr, List, [], ◌∷◌, any, All, if◌then◌else◌, Bool-cases}
use relaykey_backend.Db.Keys.Latest.{All-keep}
use relaykey_backend.Db.Grouping.{KeyEq, upsert, members, upsert_groups, group_by}

module _ {K V : Type 0} (P : V → Type 0) where
  -- A property of the columns, of every row of a table.
  abbrev pub EveryRow : List (K × V) → Type 0
  EveryRow table = All (λ row. P row.1) table

  upsert-EveryRow :
      ⦃e : KeyEq K⦄ (key : K) (columns : V) (table : List (K × V))
      → P columns
      → EveryRow table
      → EveryRow (upsert key columns table)
  unfolding upsert
  upsert-EveryRow ⦃e⦄ key columns [] p _ = (p, tt)
  upsert-EveryRow ⦃e⦄ key columns ((k, v) ∷ rows) p (q, qs) = elim (Bool-cases (e.same k key)) [
    | inl s ↦ rw s (p, qs)
    | inr s ↦ rw s (q, upsert-EveryRow key columns rows p qs)
  ]

-- `Q` holds of every member, and gives `P` of the columns of a group.
module _ {K V E : Type 0} ⦃e : KeyEq K⦄ (key_of : E → K) (aggregate : List E → V) (P : V → Type 0)
    (Q : E → Type 0) (made : (events : List E) → All Q events → P (aggregate events)) where
  upsert_groups-EveryRow :
      (all_events : List E) (seen : List K) (events : List E) (table : List (K × V))
      → All Q all_events
      → EveryRow P table
      → EveryRow P (upsert_groups key_of aggregate all_events seen events table)
  unfolding upsert_groups members
  upsert_groups-EveryRow all_events seen [] table q h = h
  upsert_groups-EveryRow all_events seen (x ∷ events) table q h =
      upsert_groups-EveryRow all_events (key_of x ∷ seen) events
        (if any (λ k. e.same k (key_of x)) seen
          then table
          else upsert (key_of x) (aggregate (members key_of (key_of x) all_events)) table)
        q
        (elim (Bool-cases (any (λ k. e.same k (key_of x)) seen)) [
          | inl a ↦ rw a h
          | inr a ↦ rw a (
              upsert-EveryRow P (key_of x) (aggregate (members key_of (key_of x) all_events)) table
                (made (members key_of (key_of x) all_events)
                  (All-keep Q (λ y. e.same (key_of y) (key_of x)) all_events q))
                h)
        ])

  pub group_by-EveryRow :
      (events : List E) (table : List (K × V))
      → All Q events
      → EveryRow P table
      → EveryRow P (group_by key_of aggregate events table)
  unfolding group_by upsert_groups
  group_by-EveryRow events table q h = upsert_groups-EveryRow events [] events table q h
