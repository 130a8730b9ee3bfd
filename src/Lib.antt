-- ===== src/Lib.antt =====
-- RelayKey backend: a model of the gateway that forwards a customer's requests to upstream partners
-- with the stored credential of the partner, under the policy of a virtual key, and that charges for
-- requests by x402 payment proofs.
--
-- A request passes authentication, the allowlist middleware, the limits, the payment middleware and
-- the proxy handler. All of them act on one `World`: the tables of the database, everything outside
-- the program (clocks, statement failures, Redis, upstream servers), of which only the operations are
-- known, and the requests handed to the HTTP client. An action ends the request by a response or goes on
-- (`Outcome`), so early returns are values.
--
--   Base, Text, Http, World   shared names, lists and integers; byte strings; HTTP messages; the
--                             state of a request, and what holds of an action wherever it goes on
--   Context                   VirtualKeyCtx of crates/relaykey_app/src/auth.rs, the request with its
--                             extensions, parse_partner_from_path
--   App                       crates/relaykey_app/src/app.rs: the middlewares in the order of the layers,
--                             Gate (what passes them), Serve (the whole route of the proxy, and the
--                             ledger of its usage events),
--                             Router (the table of routes and what stands behind each);
--                             Settings (settings.rs), Start (main.rs, bin/migrate.rs), Health
--                             (health.rs), Seed (bin/seed.rs, bin/gen_vk.rs), RollupJob
--                             (bin/rollup.rs)
--   Admin                     crates/relaykey_app/src/admin: VirtualKeys, Usage, Errors
--   Auth                      crates/relaykey_app/src/auth.rs, with the hash of
--                             crates/relaykey-core/src/crypto/key_hash.rs
--   Policies                  crates/relaykey_app/src/policies: Allowlist, Cache
--   Proxy                     crates/relaykey_app/src/proxy.rs: Paths (path_allowed, match_one),
--                             Headers (the two filters), Steps (the parts of `handler` in order),
--                             Steps.Sending (the attempts), Handler (the retry loop and `handler`)
--   Retry                     crates/relaykey_app/src/retry: policy, classes, backoff; Budget
--   Db                        the rows and statements of crates/relaykey-db/src/queries: Keys,
--                             PaymentIntents with the primary key and the unique indexes of
--                             migrations/0011_x402_intents.sql and 0016_payment_intents.sql,
--                             Rollups (metrics.rs, x402_metrics.rs) on Grouping, the grouped insertion with its upsert
--   Limits                    crates/relaykey_app/src/limits: the two Lua scripts, Bucket, Quota,
--                             Calendar, Middleware
--   Usage                     crates/relaykey_app/src/usage.rs; Metering, the ledger of its events
--   X402                      crates/relaykey_app/src/x402: Config, Provider (trait, noop, stub,
--                             registry), Hash, Intents (the statements as actions), Checks and
--                             Enforce (the middleware)
--   Examples                  each theorem at an example, and runs
--
-- Numbers. A u64 keeps its saturation (`saturating_mul`, `checked_shl_one`); i64 values of Redis are
-- unbounded integers; times are milliseconds. The retry loop takes one unit of fuel for each attempt
-- and `handler` gives it `max_attempts`, which is enough; a number is printed with its own value as fuel.
-- Identifiers are numbers. The token bucket counts thousandths of a token in exact arithmetic, where
-- its script uses doubles; its key lives for a week after each run of the script, and Limits.Bucket
-- follows the bucket through runs and expiries on two clocks, the system's and that of Redis.
--
-- Days are counted from 1970-01-01 in UTC. The sums of the usage endpoint are unbounded,
-- where the code adds i64.
--
-- Parameters, since their code is not in the repository: Postgres's clock, its ids, its collation and
-- whether a statement gets through; Redis; reqwest; the url crate; the calendars of chrono and time;
-- random ids; header name and value checks; serde_json; SHA-256 and HMAC; the environment; what axum
-- extracts from a request. A statement that gets through acts on the tables as its SQL says, rows
-- that an ORDER BY leaves open stay in the table's order. All statements of a request are taken one
-- after another, with no other request in between; X402.Enforce.Recorded puts requests one after
-- another, App.Serve.Ledger too, and X402.Enforce.Late starts where another request has settled
-- the intent while the provider was asked.
--
-- Not modelled: logging; a payment setting that is no header value, at which the code panics;
-- days before 1970; foreign keys of the payment intents; the request id, tracing and time limit layers
-- around the router, its body limit; the shutdown signals; policy_cache.rs, an older variant of
-- policies/cache.rs that lib.rs does not name.
pub mod Base
pub mod Text
pub mod Http
pub mod Context
pub mod Policies
pub mod Auth
pub mod Proxy
pub mod Retry
pub mod Db
pub mod World
pub mod X402
pub mod Usage
pub mod Limits
pub mod App
pub mod Admin
mod Examples
