-- ===== src/App/RollupJob.antt =====
-- crates/relaykey_app/src/bin/rollup.rs: the job that fills the rollup tables. `parse_from_str` is
-- chrono's parser with the format %Y-%m-%d, `connect` is `init_db`, with
-- its error. A day is a number of days since 1970-01-01.
pub mod Stages
pub mod Runs
pub mod Completes
use relaykey_backend.Base.{
  ℕ, suc, ◌+◌, Option, none, some, List, [], ◌∷◌, ◌++◌, get_elem?, if◌then◌else◌,
}
use mathlib.Core.Option
use relaykey_backend.Text.{Text, text, text_eq}
use relaykey_backend.World.{Outside, World, Act, Result, ok, err}
use relaykey_backend.App.Settings.{Settings, or_else}
use relaykey_backend.Db.Rollups.Days.{midnight}
use relaykey_backend.Db.Rollups.Metrics.{rollup_usage_daily, rollup_error_daily}
use relaykey_backend.Db.Rollups.X402Metrics.{rollup_x402_usage_daily, rollup_x402_error_daily}

-- `args.iter().position(|a| a == key)`
unfoldable pub position : List Text → Text → Option ℕ
position [] key = none
position (a ∷ args) key = if text_eq a key then some 0 else Option.map suc (position args key)

unfoldable pub arg_value : List Text → Text → Option Text
unfolding position
arg_value args key = elim (position args key) [ none ↦ none | some i ↦ get_elem? args (i + 1) ]

unfoldable pub parse_day : (Text → Option ℕ) → Text → Result ℕ
parse_day parse_from_str s = elim (parse_from_str s) [
  | none ↦ err (text "invalid date: " ++ (s ++ text " (expected YYYY-MM-DD)"))
  | some day ↦ ok day
]

-- `.ok_or_else(…)`
unfoldable pub ok_or : Option Text → Text → Result Text
ok_or none message = err message
ok_or (some s) message = ok s

-- `….map_err(…)?`, for what acts on the world and for what does not.
unfoldable pub resume :
    {S A B : Type 0}
    → (Text → Text)
    → (A → Act S (Result B))
    → Result A × World S
    → Result B × World S
resume message f (ok a, w) = f a w
resume message f (err e, w) = (err (message e), w)

unfoldable pub check :
    {S A B : Type 0} → Act S (Result A) → (Text → Text) → (A → Act S (Result B)) → Act S (Result B)
unfolding resume
check m message f w = resume message f (m w)

unfoldable pub pure : {S A : Type 0} → Result A → Act S (Result A)
pure r w = (r, w)

module _ {S : Type 0} (o : Outside S) where
  -- The four rollups, from the last one on.
  unfoldable pub rollup_x402_error_stage : ℕ → ℕ → Act S (Result (Unit {0}))
  unfolding check pure rollup_x402_error_daily
  rollup_x402_error_stage from to =
      check (rollup_x402_error_daily o from to) (λ e. text "x402 error rollup failed: " ++ e)
        λ _. pure (ok tt)

  unfoldable pub rollup_x402_usage_stage : ℕ → ℕ → Act S (Result (Unit {0}))
  unfolding check pure rollup_x402_usage_daily
  rollup_x402_usage_stage from to =
      check (rollup_x402_usage_daily o from to) (λ e. text "x402 usage rollup failed: " ++ e)
        λ _. rollup_x402_error_stage from to

  unfoldable pub rollup_error_stage : ℕ → ℕ → Act S (Result (Unit {0}))
  unfolding check pure rollup_error_daily
  rollup_error_stage from to =
      check (rollup_error_daily o from to) (λ e. text "error rollup failed: " ++ e)
        λ _. rollup_x402_usage_stage from to

  unfoldable pub run_rollups : ℕ → ℕ → Act S (Result (Unit {0}))
  unfolding check pure rollup_usage_daily
  run_rollups from to =
      check (rollup_usage_daily o from to) (λ e. text "usage rollup failed: " ++ e)
        λ _. rollup_error_stage from to

module _ {S : Type 0} (connect : Text → S → Option Text × S) where
  unfoldable pub init_db : Text → Act S (Result (Unit {0}))
  init_db database_url w =
      let (fault, s) = connect database_url w.out in
      elim fault [ some e ↦ (err e, record w { out = s }) | none ↦ (ok tt, record w { out = s }) ]

module _ {S Addr : Type 0} (o : Outside S) (parse_from_str : Text → Option ℕ)
    (connect : Text → S → Option Text × S) where
  unfoldable pub main : Result (Settings Addr) → List Text → Act S (Result (Unit {0}))
  unfolding arg_value parse_day ok_or check pure init_db run_rollups midnight
  main settings args =
      check (pure settings) (λ e. e)
        λ settings.
          check (pure (ok_or (arg_value args (text "--from")) (text "missing --from YYYY-MM-DD")))
            (λ e. e)
            λ from_s.
              check (pure (ok_or (arg_value args (text "--to")) (text "missing --to YYYY-MM-DD")))
                (λ e. e)
                λ to_s.
                  check (pure (parse_day parse_from_str from_s)) (λ e. e)
                    λ from_day.
                      check (pure (parse_day parse_from_str to_s)) (λ e. e)
                        λ to_day.
                          check (init_db connect settings.database_url)
                            (λ e. text "DB init failed: " ++ e)
                            λ _. run_rollups o (midnight from_day) (midnight to_day)
