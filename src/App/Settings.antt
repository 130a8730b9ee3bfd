-- ===== src/App/Settings.antt =====
-- crates/relaykey_app/src/settings.rs: the settings, from the process's environment. `env` is
-- `std::env::var(name).ok()`, `parse_addr` is `str::parse::<SocketAddr>` with its error as text.
use relaykey_backend.Base.{Option, none, some, ◌++◌}
use relaykey_backend.Text.{Text, text}
use relaykey_backend.World.{Result, ok, err}

pub record Settings (Addr : Type 0) : Type 0 where
  pub bind_addr : Addr
  pub database_url : Text
  pub redis_url : Text
  pub log_filter : Text
  pub key_salt : Text

-- `…map_err(…)?`
abbrev pub and_then : {A B : Type 0} → Result A → (Text → Text) → (A → Result B) → Result B
and_then (ok a) message f = f a
and_then (err e) message f = err (message e)

unfoldable pub or_else : Option Text → Text → Text
or_else none default = default
or_else (some s) default = s

-- `std::env::var(name).map_err(|_| "… is required".to_string())`
unfoldable pub required : (Text → Option Text) → Text → Result Text
required env name = elim (env name) [ none ↦ err (name ++ text " is required") | some s ↦ ok s ]

module _ {Addr : Type 0} (env : Text → Option Text) (parse_addr : Text → Result Addr) where
  unfoldable pub from_env : Result (Settings Addr)
  unfolding or_else required
  from_env =
      and_then (parse_addr (or_else (env (text "RELAYKEY_BIND_ADDR")) (text "0.0.0.0:8080")))
        (λ e. text "Invalid RELAYKEY_BIND_ADDR: " ++ e)
        λ bind_addr.
          and_then (required env (text "DATABASE_URL")) (λ e. e)
            λ database_url.
              and_then (required env (text "REDIS_URL")) (λ e. e)
                λ redis_url.
                  and_then (required env (text "RELAYKEY_KEY_SALT")) (λ e. e)
                    λ key_salt. ok (record {
                      bind_addr = bind_addr;
                      database_url = database_url;
                      redis_url = redis_url;
                      log_filter = or_else (env (text "RELAYKEY_LOG")) (text "info");
                      key_salt = key_salt;
                    })
