-- ===== src/Db/Grouping.antt =====
-- `INSERT … SELECT … GROUP BY … ON CONFLICT … DO UPDATE`, on a table of keys and columns: the
-- columns of each group are computed from its members, and take the place of those that stand under
-- the group's key.
pub mod Lookup
pub mod Totals
pub mod Every
use relaykey_backend.Base.{
  ℕ, Bool, true, false, ◌≡◌, ◌↔◌, List, [], ◌∷◌, Option, none, some, any, keep, if◌then◌else◌,
}

-- The equality of a table's primary key.
pub record KeyEq (K : Type 0) : Type 0 where
  pub same : K → K → Bool
  pub same_iff : (a b : K) → (same a b ≡ true) ↔ (a ≡ b)

module _ {K V : Type 0} ⦃e : KeyEq K⦄ where
  unfoldable pub upsert : K → V → List (K × V) → List (K × V)
  upsert key columns [] = (key, columns) ∷ []
  upsert key columns ((k, v) ∷ rows) =
      if e.same k key then (k, columns) ∷ rows else (k, v) ∷ upsert key columns rows

  -- The columns under a key.
  unfoldable pub row_of : K → List (K × V) → Option V
  row_of key [] = none
  row_of key ((k, v) ∷ rows) = if e.same k key then some v else row_of key rows

module _ {K E : Type 0} ⦃e : KeyEq K⦄ (key_of : E → K) where
  -- The members of the group of a key.
  unfoldable pub members : K → List E → List E
  members key events = keep (λ x. e.same (key_of x) key) events

module _ {K V E : Type 0} ⦃e : KeyEq K⦄ (key_of : E → K) (aggregate : List E → V) where
  -- Each group once, at its first member.
  unfoldable pub upsert_groups : List E → List K → List E → List (K × V) → List (K × V)
  upsert_groups all_events seen [] table = table
  upsert_groups all_events seen (x ∷ events) table =
      upsert_groups all_events (key_of x ∷ seen) events (
        if any (λ k. e.same k (key_of x)) seen
        then table
        else upsert (key_of x) (aggregate (members key_of (key_of x) all_events)) table)

  unfoldable pub group_by : List E → List (K × V) → List (K × V)
  unfolding upsert_groups members
  group_by events table = upsert_groups events [] events table
