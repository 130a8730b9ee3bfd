-- ===== src/Db/Rollups.antt =====
-- crates/relaykey-db/src/queries/metrics.rs and x402_metrics.rs: what their statements share. Days
-- are those of UTC, the database's time zone.
pub mod Keys
pub mod Metrics
pub mod X402Metrics
pub mod Queries
pub mod Days
pub mod Rows
pub mod Counts
pub mod Balance
pub mod Totals
use relaykey_backend.Base.{
  ℕ, ◌+◌, ◌/◌, Bool, true, ◌&&◌, ◌≡◌, ◌↔◌, ap, ◌∙◌, List, [], ◌∷◌, ◌++◌, map, Option, none, some,
  leb, ltb, ◌==◌, ==_iff, keep, length, arith,
}
use relaykey_backend.Db.{VirtualKeyRow}

-- `date_trunc('day', ts)::date`
unfoldable pub day_of : ℕ → ℕ
day_of ts = ts / 86_400_000

-- `ts >= $1 AND ts < $2`
unfoldable pub in_range : ℕ → ℕ → ℕ → Bool
in_range from to ts = leb from ts && ltb ts to

-- `count(*) FILTER (WHERE …)`
unfoldable pub count_if : {A : Type 0} → (A → Bool) → List A → ℕ
count_if p xs = length (keep p xs)

-- A row of `… JOIN virtual_keys vk ON vk.id = ….virtual_key_id`.
pub record Joined (A : Type 0) : Type 0 where
  pub event : A
  pub customer_id : ℕ

module _ {A : Type 0} (virtual_key_id : A → ℕ) (virtual_keys : List VirtualKeyRow) where
  -- The rows that one event has in the join.
  unfoldable pub joined_to : A → List (Joined A)
  joined_to x =
      map (λ vk. record { event = x; customer_id = vk.customer_id })
        (keep (λ vk. vk.id == virtual_key_id x) virtual_keys)

  unfoldable pub join_virtual_keys : List A → List (Joined A)
  unfolding joined_to
  join_virtual_keys [] = []
  join_virtual_keys (x ∷ xs) = joined_to x ++ join_virtual_keys xs
