-- ===== src/App/Start.antt =====
-- crates/relaykey_app/src/main.rs and bin/migrate.rs: what has to be there before the server runs, and
-- the error of what is not. Connecting, binding and serving are parameters, each with its error.
use relaykey_backend.Base.{Option, none, some, ◌++◌}
use relaykey_backend.Text.{Text, text}
use relaykey_backend.World.{Act, Result, ok, err}
use relaykey_backend.App.Settings.{Settings, required}
use relaykey_backend.App.RollupJob.{check, pure, init_db}

-- An operation of the outside that may fail.
unfoldable pub attempt : {S : Type 0} → (S → Option Text × S) → Act S (Result (Unit {0}))
attempt f w =
    let (fault, s) = f w.out in
    elim fault [ some e ↦ (err e, record w { out = s }) | none ↦ (ok tt, record w { out = s }) ]

module _ {S Addr : Type 0} (build_http : Result (Unit {0}))
    (connect open_redis : Text → S → Option Text × S) where
  -- The parts of `AppState`.
  unfoldable pub open_state : Settings Addr → Act S (Result (Unit {0}))
  unfolding check pure init_db attempt
  open_state settings =
      check (pure build_http) (λ e. text "HTTP client init failed: " ++ e)
        λ _.
          check (init_db connect settings.database_url) (λ e. text "DB init failed: " ++ e)
            λ _.
              check (attempt (open_redis settings.redis_url)) (λ e. text "Redis init failed: " ++ e)
                λ _. pure (ok tt)

  module _ (listen_on : Addr → S → Option Text × S) (serve_on : S → Option Text × S)
      (addr_text : Addr → Text) where
    -- The listener, and the server on it until it is shut down.
    unfoldable pub listen : Settings Addr → Act S (Result (Unit {0}))
    unfolding check pure attempt
    listen settings =
        check (attempt (listen_on settings.bind_addr))
          (λ e. text "Failed to bind " ++ (addr_text settings.bind_addr ++ (text ": " ++ e)))
          λ _. check (attempt serve_on) (λ e. text "Server error: " ++ e) λ _. pure (ok tt)

    unfoldable pub start : Result (Settings Addr) → Act S (Result (Unit {0}))
    unfolding check pure open_state listen
    start settings =
        check (pure settings) (λ e. e)
          λ settings. check (open_state settings) (λ e. e) λ _. listen settings

-- The migrations themselves are sqlx's.
unfoldable pub migrate :
    {S : Type 0}
    → (env : Text → Option Text) → (connect : Text → S → Option Text × S)
    → (run_migrations : S → Option Text × S) → Act S (Result (Unit {0}))
unfolding check pure init_db attempt required
migrate env connect run_migrations =
    check (pure (required env (text "DATABASE_URL"))) (λ e. e)
      λ database_url.
        check (init_db connect database_url) (λ e. text "DB init failed: " ++ e)
          λ _.
            check (attempt run_migrations) (λ e. text "Migration failed: " ++ e) λ _. pure (ok tt)
