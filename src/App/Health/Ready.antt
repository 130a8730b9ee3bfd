-- ===== src/App/Health/Ready.antt =====
-- When the readiness probe answers 200.
use relaykey_backend.Base.{◌≡◌, ◌↔◌, inl, inr, Option, none, arith, Option-cases}
use relaykey_backend.Text.{Text}
use relaykey_backend.World.{Outside, World, query, statement}
use relaykey_backend.App.Health.{not_ready, ping_redis, connect_and_ping, after_select, ready}

module _ {S : Type 0} (o : Outside S) (connect ping : S → Option Text × S) (w : World S) where
  -- The states in which Redis is asked.
  abbrev pub selected : S
  selected = (o.db_fault w.out).1

  abbrev pub connected : S
  connected = (connect selected).1

  -- The readiness probe answers 200 exactly when the statement gets through, the connection to Redis
  -- is made, and Redis answers the ping; and it leaves the tables.
  pub ready_iff :
      ((((ready o connect ping w).0.0 ≡ 200) ↔ (
        ((o.db_fault w.out).0 ≡ none)
        × ((connect selected).0 ≡ none)
        × ((ping connected).0 ≡ none))))
      × ((ready o connect ping w).1.db ≡ w.db)
  unfolding ready after_select connect_and_ping ping_redis not_ready query statement
  ready_iff = elim (Option-cases (o.db_fault w.out).0) [
    | inr (m, e) ↦ ground (arith, e)
    | inl e ↦ elim (Option-cases (connect selected).0) [
      | inr (m, f) ↦ ground (arith, e, f)
      | inl f ↦ elim (Option-cases (ping connected).0) [
        | inr (m, g) ↦ ground (arith, e, f, g)
        | inl g ↦ ground (arith, e, f, g)
      ]
    ]
  ]
