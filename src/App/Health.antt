-- ===== src/App/Health.antt =====
-- crates/relaykey_app/src/health.rs, and the placeholder of crates/relaykey_app/src/metrics.rs.
-- `connect` and `ping` are Redis, with their errors.
pub mod Ready
use relaykey_backend.Base.{ℕ, Option, none, some, ◌++◌}
use relaykey_backend.Text.{Text, text}
use relaykey_backend.World.{Outside, World, Act, Result, ok, err, query}

-- A status and a text.
abbrev pub Reply : Type 0
Reply = ℕ × Text

unfoldable pub health : Reply
health = (200, text "ok")

unfoldable pub metrics : Reply
metrics = (200, text "Metrics not implemented yet")

unfoldable pub not_ready : Text → Text → Reply
not_ready part e = (503, part ++ (text " not ready: " ++ e))

module _ {S : Type 0} (o : Outside S) (connect ping : S → Option Text × S) where
  unfoldable pub ping_redis : Act S Reply
  unfolding not_ready
  ping_redis w =
      let (fault, s) = ping w.out in
      elim fault [
        | some e ↦ (not_ready (text "redis") e, record w { out = s })
        | none ↦ ((200, text "ready"), record w { out = s })
      ]

  unfoldable pub connect_and_ping : Act S Reply
  unfolding not_ready ping_redis
  connect_and_ping w =
      let (fault, s) = connect w.out in
      elim fault [
        | some e ↦ (not_ready (text "redis") e, record w { out = s })
        | none ↦ ping_redis (record w { out = s })
      ]

  unfoldable pub after_select : Result (Unit {0}) × World S → Reply × World S
  unfolding not_ready connect_and_ping
  after_select (err e, w) = (not_ready (text "db") e, w)
  after_select (ok _, w) = connect_and_ping w

  unfoldable pub ready : Act S Reply
  unfolding after_select
  ready w = after_select (query o (λ db. tt) w)
