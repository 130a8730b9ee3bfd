-- ===== src/Db/Rollups/Queries.antt =====
-- crates/relaykey-db/src/queries/metrics.rs and x402_metrics.rs: the queries of the rollup tables.
-- `ORDER BY` is an insertion sort: rows that it does not order stay in the table's order, one of the
-- orders that Postgres may give.
pub mod Sorting
pub mod Answers
use relaykey_backend.Base.{
  ℕ, Bool, true, ◌&&◌, ◌||◌, List, [], ◌∷◌, Option, none, some, leb, ltb, ◌==◌, keep, if◌then◌else◌,
}
use relaykey_backend.Text.{Text, text_eq}
use relaykey_backend.Db.{Db, UsageKey, UsageColumns, ErrorKey, X402Key, X402Columns, X402ErrorKey}

unfoldable pub insert_by {ℓ} : {A : Type ℓ} → (A → A → Bool) → A → List A → List A
insert_by before x [] = x ∷ []
insert_by before x (y ∷ ys) = if before y x then y ∷ insert_by before x ys else x ∷ y ∷ ys

-- `ORDER BY`, with `before x y` where `x` has to stand before `y`.
unfoldable pub order_by {ℓ} : {A : Type ℓ} → (A → A → Bool) → List A → List A
unfolding insert_by
order_by before [] = []
order_by before (x ∷ xs) = insert_by before x (order_by before xs)

-- `ORDER BY first DESC, second DESC`
unfoldable pub descending {ℓ} : {A : Type ℓ} → (A → ℕ) → (A → ℕ) → A → A → Bool
descending first second x y =
    ltb (first y) (first x) || (first x == first y && ltb (second y) (second x))

-- The parameters that all the queries share: `None` leaves a column free.
pub record Filter : Type 0 where
  pub from_day : ℕ
  pub to_day : ℕ
  pub customer_id : Option ℕ
  pub virtual_key_id : Option ℕ
  pub partner_name : Option Text

-- `($3::uuid IS NULL OR … = $3)`
unfoldable pub free_or : {A : Type 0} → (A → A → Bool) → Option A → A → Bool
free_or same none x = true
free_or same (some wanted) x = same x wanted

-- The `WHERE` of the queries.
unfoldable pub passes : Filter → UsageKey → Bool
unfolding free_or
passes f k =
    (leb f.from_day k.day && ltb k.day f.to_day)
    && (free_or (λ a b. a == b) f.customer_id k.customer_id
        && (free_or (λ a b. a == b) f.virtual_key_id k.virtual_key_id
            && free_or text_eq f.partner_name k.partner_name))

-- `collate s t`: the database's collation puts `s` before `t`.
unfoldable pub query_usage_rollup :
    (Text → Text → Bool) → Filter → Db → List (UsageKey × UsageColumns)
unfolding order_by passes
query_usage_rollup collate f db =
    order_by
      (λ x y.
        ltb y.0.day x.0.day || (x.0.day == y.0.day && collate x.0.partner_name y.0.partner_name))
      (keep (λ x. passes f x.0) db.usage_rollup_daily)

unfoldable pub query_error_rollup : Filter → Db → List (ErrorKey × ℕ)
unfolding order_by passes descending
query_error_rollup f db =
    order_by (descending (λ x. x.0.usage.day) (λ x. x.1))
      (keep (λ x. passes f x.0.usage) db.error_rollup_daily)

unfoldable pub query_x402_usage_rollup : Filter → Db → List (X402Key × X402Columns)
unfolding order_by passes descending
query_x402_usage_rollup f db =
    order_by (descending (λ x. x.0.usage.day) (λ x. x.1.intents_created))
      (keep (λ x. passes f x.0.usage) db.x402_rollup_daily)

unfoldable pub query_x402_error_rollup : Filter → Db → List (X402ErrorKey × ℕ)
unfolding order_by passes descending
query_x402_error_rollup f db =
    order_by (descending (λ x. x.0.usage.day) (λ x. x.1))
      (keep (λ x. passes f x.0.usage) db.x402_error_rollup_daily)
