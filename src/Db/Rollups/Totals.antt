-- ===== src/Db/Rollups/Totals.antt =====
-- Every event is counted once: the rows of a rollup add up to the events.
use relaykey_backend.Base.{
  ℕ, suc, Bool, ◌≡◌, refl, sym, ap, ◌∙◌, List, [], ◌∷◌, keep, map, length, length-append, All, ◌==◌,
  arith, Bool-cases, inl, inr,
}
use relaykey_backend.Db.{Db, VirtualKeyRow, Stamped, UsageEvent}
use relaykey_backend.Db.Grouping.{group_by}
use relaykey_backend.Db.Grouping.Totals.{total, total-group_by}
use relaykey_backend.Db.Rollups.{in_range, Joined, joined_to, join_virtual_keys}
use relaykey_backend.Db.Rollups.Keys.{usage_key, error_key, x402_key}
use relaykey_backend.Db.Rollups.Days.{join-keep}
use relaykey_backend.Db.Rollups.Metrics.{
  is_error, usage_in, usage_key_of, usage_columns, errors_in, error_key_of, usage_daily_rows,
  error_daily_rows,
}

module _ {A : Type 0} (virtual_key_id : A → ℕ) (virtual_keys : List VirtualKeyRow) where
  -- The foreign key and the primary key: one virtual key has the event's id.
  abbrev pub HasOneKey : A → Type 0
  HasOneKey x = length (keep (λ vk. vk.id == virtual_key_id x) virtual_keys) ≡ 1

  length-map : {B C : Type 0} (f : B → C) (xs : List B) → length (map f xs) ≡ length xs
  length-map f [] = refl
  length-map f (x ∷ xs) = ap suc (length-map f xs)

  length-join :
      (xs : List A)
      → All HasOneKey xs
      → length (join_virtual_keys virtual_key_id virtual_keys xs) ≡ length xs
  unfolding join_virtual_keys joined_to
  length-join [] _ = refl
  length-join (x ∷ xs) (h, hs) = omega (
    arith,
    h,
    length-join xs hs,
    length-map {C = Joined A} (λ vk. record { event = x; customer_id = vk.customer_id })
        (keep (λ vk. vk.id == virtual_key_id x) virtual_keys),
    length-append (joined_to virtual_key_id virtual_keys x)
        (join_virtual_keys virtual_key_id virtual_keys xs),
  )

All-keep : {A : Type 0} (P : A → Type 0) (p : A → Bool) (xs : List A) → All P xs → All P (keep p xs)
All-keep P p [] _ = tt
All-keep P p (x ∷ xs) (h, hs) = elim (Bool-cases (p x)) [
  | inl e ↦ rw (e, All) (h, All-keep P p xs hs)
  | inr e ↦ rw (e, All) (All-keep P p xs hs)
]

module _ (from to : ℕ) (db : Db) where
  -- The usage events of the range.
  abbrev pub ranged : List (Stamped UsageEvent)
  ranged = keep (λ ue. in_range from to ue.ts) db.usage_events

  length-usage_in :
      All (HasOneKey (λ ue. ue.row.virtual_key_id) db.virtual_keys) db.usage_events
      → length (usage_in from to db) ≡ length ranged
  unfolding usage_in
  length-usage_in keys =
      length-join (λ ue. ue.row.virtual_key_id) db.virtual_keys ranged
        (All-keep (HasOneKey (λ ue. ue.row.virtual_key_id) db.virtual_keys)
          (λ ue. in_range from to ue.ts) db.usage_events keys)

  length-errors_in :
      All (HasOneKey (λ ue. ue.row.virtual_key_id) db.virtual_keys) db.usage_events
      → length (errors_in from to db)
        ≡ length (keep (λ ue. is_error ue.row.blocked_reason ue.row.status_code) ranged)
  unfolding errors_in usage_in
  length-errors_in keys =
      let failing : Stamped UsageEvent → Bool =
        λ ue. is_error ue.row.blocked_reason ue.row.status_code in
      ap length (sym (join-keep (λ ue. ue.row.virtual_key_id) db.virtual_keys failing ranged))
      ∙ length-join (λ ue. ue.row.virtual_key_id) db.virtual_keys (keep failing ranged)
          (All-keep (HasOneKey (λ ue. ue.row.virtual_key_id) db.virtual_keys) failing ranged (
            All-keep (HasOneKey (λ ue. ue.row.virtual_key_id) db.virtual_keys)
              (λ ue. in_range from to ue.ts) db.usage_events keys))

  -- Where each usage event has one virtual key and the two rollup tables are empty, the requests in
  -- all rows of usage_rollup_daily add up to the events of the range, and the counts in all rows of
  -- error_rollup_daily to those of them that are blocked, have no status, or one from 400.
  pub rollup_totals :
      All (HasOneKey (λ ue. ue.row.virtual_key_id) db.virtual_keys) db.usage_events
      → db.usage_rollup_daily ≡ []
      → db.error_rollup_daily ≡ []
      → (total (λ c. c.total_requests) (usage_daily_rows from to db).usage_rollup_daily
          ≡ length ranged)
        × (total (λ n. n) (error_daily_rows from to db).error_rollup_daily
            ≡ length (keep (λ ue. is_error ue.row.blocked_reason ue.row.status_code) ranged))
  unfolding usage_daily_rows error_daily_rows usage_columns
  rollup_totals keys no_usage no_errors = (
    ap
          (λ t.
            total (λ c. c.total_requests)
              (group_by usage_key_of usage_columns (usage_in from to db) t))
          no_usage
        ∙ total-group_by usage_key_of usage_columns (λ c. c.total_requests) (λ js. refl)
            (usage_in from to db)
        ∙ length-usage_in keys,
    ap (λ t. total (λ n. n) (group_by error_key_of length (errors_in from to db) t)) no_errors
        ∙ total-group_by error_key_of length (λ n. n) (λ js. refl) (errors_in from to db)
        ∙ length-errors_in keys,
  )
