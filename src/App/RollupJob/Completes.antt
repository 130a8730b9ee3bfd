-- ===== src/App/RollupJob/Completes.antt =====
-- The whole rollup job: what it completes, what an error leaves, and what a second run makes of that.
use relaykey_backend.Base.{
  ℕ, ◌≡◌, refl, sym, ap, subst, ◌∙◌, inl, inr, List, Option, none, some, ◌++◌, Option-cases,
}
use relaykey_backend.Text.{Text, text}
use relaykey_backend.Db.{Db}
use relaykey_backend.Db.Rollups.Days.{midnight}
use relaykey_backend.World.{Outside, World, Result, ok, err}
use relaykey_backend.App.Settings.{Settings}
use relaykey_backend.App.RollupJob.{
  arg_value, parse_day, ok_or, check, resume, pure, run_rollups, init_db, main,
}
use relaykey_backend.App.RollupJob.Stages.{Partly, Rolled, Partly-start}
use relaykey_backend.App.RollupJob.Stages.Steps.{all_rows-Rolled}
use relaykey_backend.App.RollupJob.Runs.{run_rollups-Finished, run_rollups-ok}

module _ {S : Type 0} (connect : Text → S → Option Text × S) (database_url : Text)
    (w : World S) where
  init_db-err :
      (e : Text)
      → (connect database_url w.out).0 ≡ some e
      → init_db connect database_url w ≡ (err e, record w { out = (connect database_url w.out).1 })
  unfolding init_db
  init_db-err e h = rw (h, init_db) refl

  init_db-ok :
      (connect database_url w.out).0 ≡ none
      → init_db connect database_url w ≡ (ok tt, record w { out = (connect database_url w.out).1 })
  unfolding init_db
  init_db-ok h = rw (h, init_db) refl

module _ {S Addr : Type 0} (o : Outside S) (parse_from_str : Text → Option ℕ)
    (connect : Text → S → Option Text × S) (settings : Settings Addr) (args : List Text)
    (from_s to_s : Text) (from_day to_day : ℕ)
    (from_given : arg_value args (text "--from") ≡ some from_s)
    (to_given : arg_value args (text "--to") ≡ some to_s)
    (from_parses : parse_from_str from_s ≡ some from_day)
    (to_parses : parse_from_str to_s ≡ some to_day) where
  -- With its arguments read, the job connects and rolls up.
  main_lem :
      (w : World S)
      → main o parse_from_str connect (ok settings) args w
        ≡ check
            (init_db connect settings.database_url)
            (λ e. text "DB init failed: " ++ e)
            (λ _. run_rollups o (midnight from_day) (midnight to_day))
            w
  unfolding main check resume pure ok_or parse_day
  main_lem w = cc

  -- What any run leaves, and one that reports success.
  record Ended (before : Db) (run : Result (Unit {0}) × World S) : Type 0 where
    partly : Partly from_day to_day before run.1.db
    rolled : run.0 ≡ ok tt → Rolled from_day to_day before run.1.db

  run_rollups-Ended :
      (before : Db) (w : World S)
      → Partly from_day to_day before w.db
      → Ended before (run_rollups o (midnight from_day) (midnight to_day) w)
  run_rollups-Ended before w h =
      let f = run_rollups-Finished o from_day to_day before w h in
      record {
        partly = f.partly;
        rolled = λ q.
            subst (Rolled from_day to_day before) (sym (f.completed q))
              (all_rows-Rolled from_day to_day before w.db h);
      }

  main-Ended :
      (before : Db) (w : World S)
      → Partly from_day to_day before w.db
      → Ended before (main o parse_from_str connect (ok settings) args w)
  unfolding check resume
  main-Ended before w h =
      subst (Ended before) (sym (main_lem w))
        (elim (Option-cases (connect settings.database_url w.out).0) [
          | inl e ↦
              subst
                (λ r. Ended before (
                  resume (λ e. text "DB init failed: " ++ e)
                    (λ _. run_rollups o (midnight from_day) (midnight to_day)) r))
                (sym (init_db-ok connect settings.database_url w e))
                (run_rollups-Ended before
                  (record w { out = (connect settings.database_url w.out).1 }) h)
          | inr (m, e) ↦
              subst
                (λ r. Ended before (
                  resume (λ e. text "DB init failed: " ++ e)
                    (λ _. run_rollups o (midnight from_day) (midnight to_day)) r))
                (sym (init_db-err connect settings.database_url w m e))
                (record { partly = h; rolled = λ q. cc })
        ])

  main-ok :
      ((s : S) → (o.db_fault s).0 ≡ none)
      → ((s : S) → (connect settings.database_url s).0 ≡ none)
      → (w : World S) → (main o parse_from_str connect (ok settings) args w).0 ≡ ok tt
  unfolding check resume
  main-ok up connected w =
      ap (λ r. r.0) (main_lem w)
      ∙ ap
          (λ r.
            (resume (λ e. text "DB init failed: " ++ e)
              (λ _. run_rollups o (midnight from_day) (midnight to_day)) r).0)
          (init_db-ok connect settings.database_url w (connected w.out))
      ∙ run_rollups-ok o up (midnight from_day) (midnight to_day)
          (record w { out = (connect settings.database_url w.out).1 })

  -- With its arguments given as days, a connection, and statements that get through, the rollup job
  -- reports success; every row of the four rollup tables whose day is in `[from, to)` and whose key
  -- has an event is then computed from all the events of the key, in any table that was there before,
  -- every other row is as it was, and so are the tables that the job reads.
  pub rollup_completes :
      ((s : S) → (o.db_fault s).0 ≡ none)
      → ((s : S) → (connect settings.database_url s).0 ≡ none)
      → (w : World S)
      → ((main o parse_from_str connect (ok settings) args w).0 ≡ ok tt)
        × Rolled from_day to_day w.db (main o parse_from_str connect (ok settings) args w).1.db
  rollup_completes up connected w = (
    main-ok up connected w,
    (main-Ended w.db w (Partly-start from_day to_day w.db)).rolled (main-ok up connected w),
  )

  -- A run of the rollup job, with its arguments given as days, may stop at any statement; where a
  -- second run that finds the tables as the first left them reports success, every row is what one
  -- complete run makes of the tables before the first.
  pub rollup_retries :
      (w again : World S)
      → again.db ≡ (main o parse_from_str connect (ok settings) args w).1.db
      → (main o parse_from_str connect (ok settings) args again).0 ≡ ok tt
      → Rolled from_day to_day w.db (main o parse_from_str connect (ok settings) args again).1.db
  rollup_retries w again same done =
      (main-Ended w.db again (
          subst (Partly from_day to_day w.db) (sym same)
            (main-Ended w.db w (Partly-start from_day to_day w.db)).partly)).rolled
        done
