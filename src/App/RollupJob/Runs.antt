-- ===== src/App/RollupJob/Runs.antt =====
-- Runs of the rollup job: what it completes, what an error leaves, and what a second run makes of
-- that.
use relaykey_backend.Base.{
  ℕ, ◌≡◌, refl, sym, ap, subst, ◌∙◌, inl, inr, none, some, ◌++◌, Option-cases,
}
use relaykey_backend.Text.{Text, text}
use relaykey_backend.Db.{Db}
use relaykey_backend.Db.Rollups.Days.{midnight}
use relaykey_backend.Db.Rollups.Metrics.{
  usage_daily_rows, error_daily_rows, rollup_usage_daily, rollup_error_daily,
}
use relaykey_backend.Db.Rollups.X402Metrics.{
  x402_usage_daily_rows, x402_error_daily_rows, rollup_x402_usage_daily, rollup_x402_error_daily,
}
use relaykey_backend.World.{Outside, World, Act, Result, ok, err, statement}
use relaykey_backend.App.RollupJob.{
  check, resume, pure, rollup_x402_error_stage, rollup_x402_usage_stage, rollup_error_stage,
  run_rollups,
}
use relaykey_backend.App.RollupJob.Stages.{Partly}
use relaykey_backend.App.RollupJob.Stages.Steps.{
  usage_daily_rows-Partly, error_daily_rows-Partly, x402_usage_daily_rows-Partly,
  x402_error_daily_rows-Partly, all_rows,
}

module _ {S : Type 0} (o : Outside S) where
  statement-err :
      (f : Db → Db) (w : World S) (e : Text)
      → (o.db_fault w.out).0 ≡ some e
      → statement o (λ db. (ok (tt {0}), f db)) w ≡ (err e, record w { out = (o.db_fault w.out).1 })
  unfolding statement
  statement-err f w e h = rw (h, statement) refl

  statement-ok :
      (f : Db → Db) (w : World S)
      → (o.db_fault w.out).0 ≡ none
      → statement o (λ db. (ok (tt {0}), f db)) w
        ≡ (ok tt, record w { db = f w.db; out = (o.db_fault w.out).1 })
  unfolding statement
  statement-ok f w h = rw (h, statement) refl

  -- A statement followed by the rest, by whether it gets through.
  check_statement-elim :
      {B : Type 0} (Q : Result B × World S → Type 0) (f : Db → Db) (message : Text → Text)
      (rest : Unit {0} → Act S (Result B)) (w : World S)
      → ((e : Text) (s : S) → Q (err e, record w { out = s }))
      → ((s : S) → Q (rest tt (record w { db = f w.db; out = s })))
      → Q (check (statement o (λ db. (ok tt, f db))) message rest w)
  unfolding check resume
  check_statement-elim Q f message rest w failed through =
      elim (Option-cases (o.db_fault w.out).0) [
        | inl e ↦
            subst (λ r. Q (resume message rest r)) (sym (statement-ok f w e))
              (through (o.db_fault w.out).1)
        | inr (m, e) ↦
            subst (λ r. Q (resume message rest r)) (sym (statement-err f w m e))
              (failed (message m) (o.db_fault w.out).1)
      ]

  check-statement-through :
      {B : Type 0} (f : Db → Db) (message : Text → Text) (rest : Unit {0} → Act S (Result B))
      (w : World S)
      → (o.db_fault w.out).0 ≡ none
      → check (statement o (λ db. (ok tt, f db))) message rest w
        ≡ rest tt (record w { db = f w.db; out = (o.db_fault w.out).1 })
  unfolding check resume
  check-statement-through f message rest w h = ap (resume message rest) (statement-ok f w h)

  module _ (from_day to_day : ℕ) (before : Db) where
    -- The tables of a run that ends in any way, and of one that ends well.
    pub record Finished (target : Db) (run : Result (Unit {0}) × World S) : Type 0 where
      pub partly : Partly from_day to_day before run.1.db
      pub completed : run.0 ≡ ok tt → run.1.db ≡ target

    stopped :
        (target : Db) (e : Text) (w : World S)
        → Partly from_day to_day before w.db
        → Finished target (err e, w)
    stopped target e w h = record { partly = h; completed = λ q. cc }

    rollup_x402_error_stage-Finished :
        (w : World S)
        → Partly from_day to_day before w.db
        → Finished
            (x402_error_daily_rows (midnight from_day) (midnight to_day) w.db)
            (rollup_x402_error_stage o (midnight from_day) (midnight to_day) w)
    unfolding rollup_x402_error_stage rollup_x402_error_daily pure
    rollup_x402_error_stage-Finished w h =
        check_statement-elim
          (Finished (x402_error_daily_rows (midnight from_day) (midnight to_day) w.db))
          (x402_error_daily_rows (midnight from_day) (midnight to_day))
          (λ e. text "x402 error rollup failed: " ++ e) (λ _. pure (ok tt)) w
          (λ e s. stopped _ e (record w { out = s }) h)
          λ s. record {
            partly = x402_error_daily_rows-Partly from_day to_day before w.db h;
            completed = λ _. refl;
          }

    rollup_x402_usage_stage-Finished :
        (w : World S)
        → Partly from_day to_day before w.db
        → Finished
            (x402_error_daily_rows
              (midnight from_day)
              (midnight to_day)
              (x402_usage_daily_rows (midnight from_day) (midnight to_day) w.db))
            (rollup_x402_usage_stage o (midnight from_day) (midnight to_day) w)
    unfolding rollup_x402_usage_stage rollup_x402_usage_daily
    rollup_x402_usage_stage-Finished w h =
        check_statement-elim
          (Finished (
            x402_error_daily_rows (midnight from_day) (midnight to_day)
              (x402_usage_daily_rows (midnight from_day) (midnight to_day) w.db)))
          (x402_usage_daily_rows (midnight from_day) (midnight to_day))
          (λ e. text "x402 usage rollup failed: " ++ e)
          (λ _. rollup_x402_error_stage o (midnight from_day) (midnight to_day)) w
          (λ e s. stopped _ e (record w { out = s }) h)
          λ s.
            rollup_x402_error_stage-Finished
              (record w {
                db = x402_usage_daily_rows (midnight from_day) (midnight to_day) w.db;
                out = s;
              })
              (x402_usage_daily_rows-Partly from_day to_day before w.db h)

    rollup_error_stage-Finished :
        (w : World S)
        → Partly from_day to_day before w.db
        → Finished
            (x402_error_daily_rows (midnight from_day) (midnight to_day) (
              x402_usage_daily_rows
                (midnight from_day)
                (midnight to_day)
                (error_daily_rows (midnight from_day) (midnight to_day) w.db)))
            (rollup_error_stage o (midnight from_day) (midnight to_day) w)
    unfolding rollup_error_stage rollup_error_daily
    rollup_error_stage-Finished w h =
        check_statement-elim
          (Finished (
            x402_error_daily_rows (midnight from_day) (midnight to_day) (
              x402_usage_daily_rows (midnight from_day) (midnight to_day)
                (error_daily_rows (midnight from_day) (midnight to_day) w.db))))
          (error_daily_rows (midnight from_day) (midnight to_day))
          (λ e. text "error rollup failed: " ++ e)
          (λ _. rollup_x402_usage_stage o (midnight from_day) (midnight to_day)) w
          (λ e s. stopped _ e (record w { out = s }) h)
          λ s.
            rollup_x402_usage_stage-Finished
              (record w {
                db = error_daily_rows (midnight from_day) (midnight to_day) w.db;
                out = s;
              })
              (error_daily_rows-Partly from_day to_day before w.db h)

    pub run_rollups-Finished :
        (w : World S)
        → Partly from_day to_day before w.db
        → Finished
            (all_rows from_day to_day w.db)
            (run_rollups o (midnight from_day) (midnight to_day) w)
    unfolding run_rollups rollup_usage_daily all_rows
    run_rollups-Finished w h =
        check_statement-elim (Finished (all_rows from_day to_day w.db))
          (usage_daily_rows (midnight from_day) (midnight to_day))
          (λ e. text "usage rollup failed: " ++ e)
          (λ _. rollup_error_stage o (midnight from_day) (midnight to_day)) w
          (λ e s. stopped _ e (record w { out = s }) h)
          λ s.
            rollup_error_stage-Finished
              (record w {
                db = usage_daily_rows (midnight from_day) (midnight to_day) w.db;
                out = s;
              })
              (usage_daily_rows-Partly from_day to_day before w.db h)

  module _ (up : (s : S) → (o.db_fault s).0 ≡ none) (from to : ℕ) where
    rollup_x402_error_stage-ok : (w : World S) → (rollup_x402_error_stage o from to w).0 ≡ ok tt
    unfolding rollup_x402_error_stage rollup_x402_error_daily pure
    rollup_x402_error_stage-ok w =
        ap (λ r. r.0)
          (check-statement-through (x402_error_daily_rows from to)
            (λ e. text "x402 error rollup failed: " ++ e) (λ _. pure (ok tt)) w (up w.out))

    rollup_x402_usage_stage-ok : (w : World S) → (rollup_x402_usage_stage o from to w).0 ≡ ok tt
    unfolding rollup_x402_usage_stage rollup_x402_usage_daily
    rollup_x402_usage_stage-ok w =
        ap (λ r. r.0)
          (check-statement-through (x402_usage_daily_rows from to)
            (λ e. text "x402 usage rollup failed: " ++ e) (λ _. rollup_x402_error_stage o from to) w
            (up w.out))
        ∙ rollup_x402_error_stage-ok
            (record w { db = x402_usage_daily_rows from to w.db; out = (o.db_fault w.out).1 })

    rollup_error_stage-ok : (w : World S) → (rollup_error_stage o from to w).0 ≡ ok tt
    unfolding rollup_error_stage rollup_error_daily
    rollup_error_stage-ok w =
        ap (λ r. r.0)
          (check-statement-through (error_daily_rows from to)
            (λ e. text "error rollup failed: " ++ e) (λ _. rollup_x402_usage_stage o from to) w
            (up w.out))
        ∙ rollup_x402_usage_stage-ok
            (record w { db = error_daily_rows from to w.db; out = (o.db_fault w.out).1 })

    pub run_rollups-ok : (w : World S) → (run_rollups o from to w).0 ≡ ok tt
    unfolding run_rollups rollup_usage_daily
    run_rollups-ok w =
        ap (λ r. r.0)
          (check-statement-through (usage_daily_rows from to)
            (λ e. text "usage rollup failed: " ++ e) (λ _. rollup_error_stage o from to) w
            (up w.out))
        ∙ rollup_error_stage-ok
            (record w { db = usage_daily_rows from to w.db; out = (o.db_fault w.out).1 })
