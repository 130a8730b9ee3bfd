-- ===== src/Db/Rollups/Balance.antt =====
-- The rollup of a ledger in which every event is forwarded or blocked.
use relaykey_backend.Base.{
  ℕ, ◌+◌, ◌≡◌, refl, inl, inr, List, [], ◌∷◌, map, All, All-append, arith, length, keep, ◌==◌,
}
use relaykey_backend.Db.{UsageColumns, UsageEvent, Stamped, VirtualKeyRow}
use relaykey_backend.Db.Keys.Latest.{All-keep}
use relaykey_backend.Db.Grouping.Every.{EveryRow, group_by-EveryRow}
use relaykey_backend.Db.Rollups.{count_if, in_range, Joined, joined_to, join_virtual_keys}
use relaykey_backend.Db.Rollups.Keys.{usage_key}
use relaykey_backend.Db.Rollups.Metrics.{
  is_some, usage_in, usage_key_of, usage_columns, usage_daily_rows, rollup_usage_daily,
}
use relaykey_backend.Db.Rollups.Counts.{
  UsageBounded, usage_columns-UsageBounded, one, count_if-step, statement-keeps,
}
use relaykey_backend.Usage.Metering.{IsMetered}
use relaykey_backend.World.{Outside, World}

-- The forwarded and the blocked requests add up to all requests.
pub record UsageBalanced (c : UsageColumns) : Type 0 where
  pub balanced : c.forwarded_requests + c.blocked_requests ≡ c.total_requests
  pub bounded : UsageBounded c

one_of_two : (e : UsageEvent) → IsMetered e → one e.forwarded + one (is_some e.blocked_reason) ≡ 1
unfolding one is_some
one_of_two e (inl (f, n, _)) = rw (f, n) refl
one_of_two e (inr (f, (reason, r), _)) = rw (f, r) refl

abbrev MeteredJoin : Joined (Stamped UsageEvent) → Type 0
MeteredJoin j = IsMetered j.event.row

counts_add :
    (js : List (Joined (Stamped UsageEvent)))
    → All MeteredJoin js
    → count_if (λ j. j.event.row.forwarded) js
        + count_if (λ j. is_some j.event.row.blocked_reason) js
      ≡ length js
unfolding count_if
counts_add [] h = omega arith
counts_add (j ∷ js) (p, h) = omega (
  arith,
  one_of_two j.event.row p,
  counts_add js h,
  count_if-step (λ j. j.event.row.forwarded) j js,
  count_if-step (λ j. is_some j.event.row.blocked_reason) j js,
)

module _ (rows : List VirtualKeyRow) where
  joined-Metered :
      (x : Stamped UsageEvent) (keys : List VirtualKeyRow)
      → IsMetered x.row
      → All MeteredJoin (map (λ vk. record { event = x; customer_id = vk.customer_id }) keys)
  joined-Metered x [] h = tt
  joined-Metered x (k ∷ keys) h = (h, joined-Metered x keys h)

  join-Metered :
      (events : List (Stamped UsageEvent))
      → All (λ e. IsMetered e.row) events
      → All MeteredJoin (join_virtual_keys (λ ue. ue.row.virtual_key_id) rows events)
  unfolding join_virtual_keys joined_to
  join-Metered [] h = tt
  join-Metered (x ∷ events) (p, h) =
      All-append MeteredJoin (joined_to (λ ue. ue.row.virtual_key_id) rows x)
        (join_virtual_keys (λ ue. ue.row.virtual_key_id) rows events)
        (joined-Metered x (keep (λ vk. vk.id == x.row.virtual_key_id) rows) p)
        (join-Metered events h)

columns-UsageBalanced :
    (js : List (Joined (Stamped UsageEvent)))
    → All MeteredJoin js
    → UsageBalanced (usage_columns js)
unfolding usage_columns
columns-UsageBalanced js h = record {
  balanced = counts_add js h;
  bounded = usage_columns-UsageBounded js;
}

-- Where every usage event is forwarded or blocked, `rollup_usage_daily` keeps, whether its statement
-- gets through or not: in every row of usage_rollup_daily the forwarded and the blocked requests
-- add up to all requests, those with a status of 2xx, 3xx, 4xx and 5xx together are at most all, and
-- the average is over all requests.
pub rollup_usage_daily-UsageBalanced :
    {S : Type 0} (o : Outside S) (from to : ℕ) (w : World S)
    → All (λ e. IsMetered e.row) w.db.usage_events
    → EveryRow UsageBalanced w.db.usage_rollup_daily
    → EveryRow UsageBalanced (rollup_usage_daily o from to w).1.db.usage_rollup_daily
unfolding rollup_usage_daily usage_daily_rows usage_in
rollup_usage_daily-UsageBalanced o from to w metered h =
    statement-keeps o (λ db. EveryRow UsageBalanced db.usage_rollup_daily)
      (usage_daily_rows from to) w h
      (group_by-EveryRow usage_key_of usage_columns UsageBalanced MeteredJoin columns-UsageBalanced
        (usage_in from to w.db) w.db.usage_rollup_daily
        (join-Metered w.db.virtual_keys (keep (λ ue. in_range from to ue.ts) w.db.usage_events) (
          All-keep (λ e. IsMetered e.row) (λ ue. in_range from to ue.ts) w.db.usage_events metered))
        h)
