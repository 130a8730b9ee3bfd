-- ===== src/Admin/Metrics.antt =====
-- What crates/relaykey_app/src/admin/usage.rs and errors.rs share: their query, and its days.
-- `parse_from_str` is chrono's parser with the format %Y-%m-%d.
use relaykey_backend.Base.{ℕ, Option, none, some}
use relaykey_backend.Text.{Text}
use relaykey_backend.Http.{respond}
use relaykey_backend.Db.Rollups.Queries.{Filter}
use relaykey_backend.World.{World, Act, Result, ok, err}
use relaykey_backend.Admin.{Answer, refuse, bare}

-- `UsageQuery` and `ErrorsQuery`.
pub record MetricsQuery : Type 0 where
  pub from : Text
  pub to : Text
  pub customer_id : Option ℕ
  pub virtual_key_id : Option ℕ
  pub partner_name : Option Text

module _ (parse_from_str : Text → Option ℕ) where
  -- The filter of the database queries, or the 400 of the first day that does not parse.
  unfoldable pub with_days :
      {S A : Type 0} → MetricsQuery → (Filter → Act S (Answer A)) → Act S (Answer A)
  with_days q f w = elim (parse_from_str q.from) [
    | none ↦ (refuse (respond 400 "invalid from (expected YYYY-MM-DD)"), w)
    | some from_day ↦ elim (parse_from_str q.to) [
      | none ↦ (refuse (respond 400 "invalid to (expected YYYY-MM-DD)"), w)
      | some to_day ↦
          f
            (record {
              from_day = from_day;
              to_day = to_day;
              customer_id = q.customer_id;
              virtual_key_id = q.virtual_key_id;
              partner_name = q.partner_name;
            })
            w
    ]
  ]

-- The rows of a query, or 500.
unfoldable pub rows_or_500 :
    {S A B : Type 0} → (A → Act S (Answer B)) → Result A × World S → Answer B × World S
rows_or_500 f (ok rows, w) = f rows w
rows_or_500 f (err e, w) = (refuse (bare 500), w)
