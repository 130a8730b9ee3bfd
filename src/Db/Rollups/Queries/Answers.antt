-- ===== src/Db/Rollups/Queries/Answers.antt =====
-- What the queries of the rollup tables answer: the rows that pass the filter, each as often as it
-- stands in the table, in the order of the statement.
use relaykey_backend.Base.{
  ℕ, ◌≡◌, refl, Bool, true, false, ◌||◌, ◌&&◌, ltb, leb, ◌==◌, ==_iff, ◌↔◌, ◌⊎◌, ◌≤◌, ◌<◌, Option,
  none, some, List, [], ◌∷◌, keep, length, arith,
}
use relaykey_backend.Text.{Text, text_eq}
use relaykey_backend.Text.Laws.{text_eq_iff}
use relaykey_backend.Db.{Db, UsageKey, UsageColumns}
use relaykey_backend.Db.Rollups.Queries.{
  order_by, descending, Filter, free_or, passes, query_usage_rollup, query_error_rollup,
  query_x402_usage_rollup, query_x402_error_rollup,
}
use relaykey_backend.Db.Rollups.Queries.Sorting.{Ordered, count-order_by, order_by-Ordered}

-- Each row and the next one are related.
abbrev pub Linked : {A : Type 0} → (A → A → Type 0) → List A → Type 0
Linked R [] = Unit {0}
Linked R (x ∷ []) = Unit {0}
Linked R (x ∷ y ∷ ys) = R x y × Linked R (y ∷ ys)

-- An answer holds the rows of the table that are wanted, each as often as the table does, one
-- related to the next.
pub record Answers {A : Type 0} (R : A → A → Type 0) (P : A → Type 0) (table answer : List A)
    : Type 0 where
  pub wanted : A → Bool
  pub chosen : (x : A) → (wanted x ≡ true) ↔ P x
  pub counted : (q : A → Bool) → length (keep q answer) ≡ length (keep q (keep wanted table))
  pub linked : Linked R answer

module _ {A : Type 0} (before : A → A → Bool) (R : A → A → Type 0)
    (related : (x y : A) → before y x ≡ false → R x y) where
  Ordered-Linked : (xs : List A) → Ordered before xs → Linked R xs
  Ordered-Linked [] h = tt
  Ordered-Linked (x ∷ []) h = tt
  Ordered-Linked (x ∷ y ∷ ys) h = (related x y h.0, Ordered-Linked (y ∷ ys) h.1)

  order_by-Answers :
      (P : A → Type 0) (wanted : A → Bool) (table : List A)
      → ((x y : A) → before x y ≡ true → before y x ≡ false)
      → ((x : A) → (wanted x ≡ true) ↔ P x)
      → Answers R P table (order_by before (keep wanted table))
  order_by-Answers P wanted table asymmetric chosen = record {
    wanted = wanted;
    chosen = chosen;
    counted = λ q. count-order_by before q (keep wanted table);
    linked = Ordered-Linked _ (order_by-Ordered before asymmetric (keep wanted table));
  }

-- A column that the filter leaves free or asks for.
abbrev pub Fits : {A : Type 0} → Option A → A → Type 0
Fits none x = Unit {0}
Fits (some wanted) x = x ≡ wanted

-- A row's day lies in the range, and its columns fit.
abbrev pub Wanted : Filter → UsageKey → Type 0
Wanted f k =
    ((f.from_day ≤ k.day) × (k.day < f.to_day))
    × (Fits f.customer_id k.customer_id
        × (Fits f.virtual_key_id k.virtual_key_id × Fits f.partner_name k.partner_name))

free_or_iff :
    {A : Type 0} (same : A → A → Bool) (wanted : Option A) (x : A)
    → ((a b : A) → (same a b ≡ true) ↔ (a ≡ b))
    → (free_or same wanted x ≡ true) ↔ Fits wanted x
unfolding free_or
free_or_iff same none x h = (λ _. tt, λ _. refl)
free_or_iff same (some wanted) x h = h x wanted

&&_iff : (a b : Bool) → ((a && b) ≡ true) ↔ ((a ≡ true) × (b ≡ true))
&&_iff a b = ground arith

both_iff :
    {P Q : Type 0} (a b : Bool) → (a ≡ true) ↔ P → (b ≡ true) ↔ Q → ((a && b) ≡ true) ↔ (P × Q)
both_iff a b p q =
    (λ h. let (x, y) = (&&_iff a b).0 h in (p.0 x, q.0 y), λ h. (&&_iff a b).1 (p.1 h.0, q.1 h.1))

leb_iff : (a b : ℕ) → (leb a b ≡ true) ↔ (a ≤ b)
leb_iff a b = ground arith

ltb_iff : (a b : ℕ) → (ltb a b ≡ true) ↔ (a < b)
ltb_iff a b = ground arith

passes_iff : (f : Filter) (k : UsageKey) → (passes f k ≡ true) ↔ Wanted f k
unfolding passes
passes_iff f k = both_iff _ _ (both_iff _ _ (leb_iff f.from_day k.day) (ltb_iff k.day f.to_day)) (
    both_iff _ _ (free_or_iff (λ a b. a == b) f.customer_id k.customer_id ==_iff) (
      both_iff _ _ (free_or_iff (λ a b. a == b) f.virtual_key_id k.virtual_key_id ==_iff)
        (free_or_iff text_eq f.partner_name k.partner_name text_eq_iff)))

-- From one row to the next the first column falls, or it stays and the second does not rise.
abbrev pub Falling : {A : Type 0} → (A → ℕ) → (A → ℕ) → A → A → Type 0
Falling first second x y = (first y < first x) ⊎ ((first y ≡ first x) × (second y ≤ second x))

-- The day falls, or it stays and the next partner name is not one to stand before this one.
abbrev pub ByPartner :
    (Text → Text → Bool) → UsageKey × UsageColumns → UsageKey × UsageColumns → Type 0
ByPartner collate x y =
    (y.0.day < x.0.day)
    ⊎ ((y.0.day ≡ x.0.day) × (collate y.0.partner_name x.0.partner_name ≡ false))

module _ {A : Type 0} (first second : A → ℕ) (x y : A) where
  descending-asymmetric : descending first second x y ≡ true → descending first second y x ≡ false
  unfolding descending
  descending-asymmetric h = ground (arith, h)

  descending-Falling : descending first second y x ≡ false → Falling first second x y
  unfolding descending
  descending-Falling h = ground (arith, h)

-- `ORDER BY day DESC, partner_name ASC`
abbrev usage_before :
    (Text → Text → Bool) → UsageKey × UsageColumns → UsageKey × UsageColumns → Bool
usage_before collate x y =
    ltb y.0.day x.0.day || (x.0.day == y.0.day && collate x.0.partner_name y.0.partner_name)

usage_before-asymmetric :
    (collate : Text → Text → Bool)
    → ((s t : Text) → collate s t ≡ true → collate t s ≡ false)
    → (x y : UsageKey × UsageColumns) → usage_before collate x y ≡ true
    → usage_before collate y x ≡ false
usage_before-asymmetric collate strict x y h =
    ground (arith, h, strict x.0.partner_name y.0.partner_name)

usage_before-ByPartner :
    (collate : Text → Text → Bool) (x y : UsageKey × UsageColumns)
    → usage_before collate y x ≡ false
    → ByPartner collate x y
usage_before-ByPartner collate x y h = ground (arith, h)

-- Under a collation that puts no two texts before each other, each of the four queries answers the
-- rows of its table whose day is in the range and whose columns fit the filter, each as often as
-- the table holds it: the usage rows by falling day and rising partner name, the x402 rows by
-- falling day and falling number of intents, both kinds of error rows by falling day and falling
-- count.
pub query_rollups_lem :
    (collate : Text → Text → Bool) (f : Filter) (db : Db)
    → ((s t : Text) → collate s t ≡ true → collate t s ≡ false)
    → Answers
        (ByPartner collate)
        (λ x. Wanted f x.0)
        db.usage_rollup_daily
        (query_usage_rollup collate f db)
      × Answers
          (Falling (λ x. x.0.usage.day) (λ x. x.1))
          (λ x. Wanted f x.0.usage)
          db.error_rollup_daily
          (query_error_rollup f db)
      × Answers
          (Falling (λ x. x.0.usage.day) (λ x. x.1.intents_created))
          (λ x. Wanted f x.0.usage)
          db.x402_rollup_daily
          (query_x402_usage_rollup f db)
      × Answers
          (Falling (λ x. x.0.usage.day) (λ x. x.1))
          (λ x. Wanted f x.0.usage)
          db.x402_error_rollup_daily
          (query_x402_error_rollup f db)
unfolding query_usage_rollup query_error_rollup query_x402_usage_rollup query_x402_error_rollup
query_rollups_lem collate f db strict = (
  order_by-Answers (usage_before collate) (ByPartner collate) (usage_before-ByPartner collate) _ _
      db.usage_rollup_daily (usage_before-asymmetric collate strict) (λ x. passes_iff f x.0),
  by_falling (λ x. x.0.usage.day) (λ x. x.1) (λ x. x.0.usage) db.error_rollup_daily,
  by_falling (λ x. x.0.usage.day) (λ x. x.1.intents_created) (λ x. x.0.usage) db.x402_rollup_daily,
  by_falling (λ x. x.0.usage.day) (λ x. x.1) (λ x. x.0.usage) db.x402_error_rollup_daily,
)
  where
    by_falling :
        {A : Type 0} (first second : A → ℕ) (key : A → UsageKey) (table : List A)
        → Answers
            (Falling first second)
            (λ x. Wanted f (key x))
            table
            (order_by (descending first second) (keep (λ x. passes f (key x)) table))
    by_falling first second key table =
        order_by-Answers (descending first second) (Falling first second)
          (descending-Falling first second) _ _ table (descending-asymmetric first second)
          (λ x. passes_iff f (key x))
