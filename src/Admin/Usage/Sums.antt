-- ===== src/Admin/Usage/Sums.antt =====
-- The usage endpoint shows beside each row the sums over the payment rows of its day, customer,
-- virtual key and partner.
use relaykey_backend.Base.{
  ℕ, ◌+◌, Bool, ◌≡◌, refl, ap, ◌∙◌, List, [], ◌∷◌, map, keep, Option, none, some, arith,
}
use relaykey_backend.Text.{Text}
use relaykey_backend.Db.{Db, UsageKey, UsageColumns, X402Key, X402Columns}
use relaykey_backend.Db.Grouping.Totals.{total}
use relaykey_backend.Db.Rollups.Keys.{usage_same}
use relaykey_backend.Db.Rollups.Queries.{Filter, query_usage_rollup, query_x402_usage_rollup}
use relaykey_backend.World.{Outside, World, Act, query, statement}
use relaykey_backend.Admin.{Answer, json}
use relaykey_backend.Admin.Metrics.{MetricsQuery, with_days, rows_or_500}
use relaykey_backend.Admin.Usage.{
  X402Counts, MapKey, UsageRollupJson, add_counts, add_entry, get_counts, map_key, fill_map,
  usage_json, with_x402, admin_usage,
}
use relaykey_backend.Admin.Usage.Entries.{map_key_eq-map_key, get_counts-add_entry}

-- The rows of a usage key, of every provider.
abbrev pub own_rows : UsageKey → List (X402Key × X402Columns) → List (X402Key × X402Columns)
own_rows key rows = keep (λ x. usage_same x.0.usage key) rows

-- The sums over them.
unfoldable pub x402_sums : UsageKey → List (X402Key × X402Columns) → X402Counts
unfolding total
x402_sums key rows = record {
  intents_created = total (λ c. c.intents_created) (own_rows key rows);
  verified_count = total (λ c. c.verified_count) (own_rows key rows);
  unpaid_count = total (λ c. c.unpaid_count) (own_rows key rows);
  failed_count = total (λ c. c.failed_count) (own_rows key rows);
  expired_count = total (λ c. c.expired_count) (own_rows key rows);
}

module _ (date_text : ℕ → Text) (injective : (a b : ℕ) → date_text a ≡ date_text b → a ≡ b) where
  -- One of the five counters after the loop.
  fill_map-sums :
      (f : X402Counts → ℕ) (g : X402Columns → ℕ)
      (adds : (e : X402Counts) (r : X402Columns) → f (add_counts e r) ≡ f e + g r) (key : UsageKey)
      (rows : List (X402Key × X402Columns)) (entries : List (MapKey × X402Counts))
      → f (get_counts (map_key date_text key) (fill_map date_text rows entries))
        ≡ f (get_counts (map_key date_text key) entries) + total g (own_rows key rows)
  unfolding fill_map total
  fill_map-sums f g adds key [] entries = omega arith
  fill_map-sums f g adds key ((k, r) ∷ rows) entries = ground (
    arith,
    fill_map-sums f g adds key rows (add_entry (map_key date_text k.usage) r entries),
    get_counts-add_entry (map_key date_text k.usage) (map_key date_text key) r entries,
    map_key_eq-map_key date_text injective k.usage key,
    adds (get_counts (map_key date_text key) entries) r,
  )

  pub with_x402_lem :
      (x402_rows : List (X402Key × X402Columns)) (row : UsageKey × UsageColumns)
      → with_x402 date_text x402_rows row ≡ usage_json date_text (x402_sums row.0 x402_rows) row
  unfolding with_x402 x402_sums
  with_x402_lem x402_rows row =
      let found : X402Counts =
        get_counts (map_key date_text row.0) (fill_map date_text x402_rows []) in
      let p1 : found.intents_created ≡ total (λ c. c.intents_created) (own_rows row.0 x402_rows) =
        omega (
          arith,
          fill_map-sums (λ e. e.intents_created) (λ c. c.intents_created) (λ e r. refl) row.0
              x402_rows [],
        ) in
      let p2 : found.verified_count ≡ total (λ c. c.verified_count) (own_rows row.0 x402_rows) =
        omega (
          arith,
          fill_map-sums (λ e. e.verified_count) (λ c. c.verified_count) (λ e r. refl) row.0
              x402_rows [],
        ) in
      let p3 : found.unpaid_count ≡ total (λ c. c.unpaid_count) (own_rows row.0 x402_rows) = omega (
        arith,
        fill_map-sums (λ e. e.unpaid_count) (λ c. c.unpaid_count) (λ e r. refl) row.0 x402_rows [],
      ) in
      let p4 : found.failed_count ≡ total (λ c. c.failed_count) (own_rows row.0 x402_rows) = omega (
        arith,
        fill_map-sums (λ e. e.failed_count) (λ c. c.failed_count) (λ e r. refl) row.0 x402_rows [],
      ) in
      let p5 : found.expired_count ≡ total (λ c. c.expired_count) (own_rows row.0 x402_rows) =
        omega (
          arith,
          fill_map-sums (λ e. e.expired_count) (λ c. c.expired_count) (λ e r. refl) row.0 x402_rows
              [],
        ) in
      λ i.
        usage_json date_text
          (record {
            intents_created = p1 i;
            verified_count = p2 i;
            unpaid_count = p3 i;
            failed_count = p4 i;
            expired_count = p5 i;
          })
          row

  map-with_x402 :
      (x402_rows : List (X402Key × X402Columns)) (rows : List (UsageKey × UsageColumns))
      → map (with_x402 date_text x402_rows) rows
        ≡ map (λ row. usage_json date_text (x402_sums row.0 x402_rows) row) rows
  map-with_x402 x402_rows [] = refl
  map-with_x402 x402_rows (row ∷ rows) =
      λ i. with_x402_lem x402_rows row i ∷ map-with_x402 x402_rows rows i

  module _ {S : Type 0} (o : Outside S) (parse_from_str : Text → Option ℕ)
      (collate : Text → Text → Bool) (q : MetricsQuery) (w : World S) where
    -- The filter of a query whose days parse.
    abbrev pub filter_of : (from_day to_day : ℕ) → Filter
    filter_of from_day to_day = record {
      from_day = from_day;
      to_day = to_day;
      customer_id = q.customer_id;
      virtual_key_id = q.virtual_key_id;
      partner_name = q.partner_name;
    }

    with_days-parsed :
        {B : Type 0} (f : Filter → Act S (Answer B)) (from_day to_day : ℕ)
        → parse_from_str q.from ≡ some from_day
        → parse_from_str q.to ≡ some to_day
        → with_days parse_from_str q f w ≡ f (filter_of from_day to_day) w
    unfolding with_days
    with_days-parsed f from_day to_day from_parses to_parses =
        rw (from_parses, to_parses, with_days) refl

    query-through :
        {A B : Type 0} (f : A → Act S (Answer B)) (g : Db → A) (v : World S)
        → (o.db_fault v.out).0 ≡ none
        → rows_or_500 f (query o g v) ≡ f (g v.db) (record v { out = (o.db_fault v.out).1 })
    unfolding rows_or_500 query statement
    query-through f g v up = rw (up, query, statement) refl

    -- With days that parse, statements that get through and a text for each day: the usage endpoint
    -- answers 200 with the filtered usage rows in their order, each with the sums of the five
    -- payment counters over the filtered payment rows of the same day, customer, virtual key and
    -- partner, of every provider.
    pub admin_usage_lem :
        (from_day to_day : ℕ)
        → parse_from_str q.from ≡ some from_day
        → parse_from_str q.to ≡ some to_day
        → ((s : S) → (o.db_fault s).0 ≡ none)
        → (admin_usage date_text o parse_from_str collate q w).0
          ≡ json 200 (
              map
                (λ row.
                  usage_json date_text
                    (x402_sums row.0 (query_x402_usage_rollup (filter_of from_day to_day) w.db))
                    row)
                (query_usage_rollup collate (filter_of from_day to_day) w.db))
    unfolding admin_usage with_days rows_or_500
    admin_usage_lem from_day to_day from_parses to_parses up =
        let f = filter_of from_day to_day in
        let w1 : World S = record w { out = (o.db_fault w.out).1 } in
        let answer : List (UsageKey × UsageColumns)
            → List (X402Key × X402Columns)
            → Act S (Answer (List UsageRollupJson)) =
          λ rows x402_rows w2. (json 200 (map (with_x402 date_text x402_rows) rows), w2) in
        let second : List (UsageKey × UsageColumns) → Act S (Answer (List UsageRollupJson)) =
          λ rows v. rows_or_500 (answer rows) (query o (query_x402_usage_rollup f) v) in
        ap (λ r. r.0)
          (with_days-parsed
              (λ f w.
                rows_or_500
                  (λ rows v.
                    rows_or_500
                      (λ x402_rows w2. (json 200 (map (with_x402 date_text x402_rows) rows), w2))
                      (query o (query_x402_usage_rollup f) v))
                  (query o (query_usage_rollup collate f) w))
              from_day to_day from_parses to_parses
            ∙ query-through second (query_usage_rollup collate f) w (up w.out)
            ∙ query-through (answer (query_usage_rollup collate f w.db)) (query_x402_usage_rollup f)
                w1 (up w1.out))
        ∙ ap (json 200)
            (map-with_x402 (query_x402_usage_rollup f w.db) (query_usage_rollup collate f w.db))
