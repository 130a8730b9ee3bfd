-- ===== src/Policies/Cache.antt =====
-- crates/relaykey_app/src/policies/cache.rs: the policies in Redis, with the database behind them.
pub mod Loading
use relaykey_backend.Base.{ℕ, Bool, ◌++◌, Option, none, some, if◌then◌else◌}
use relaykey_backend.Text.{Text, text}
use relaykey_backend.Policies.{PolicyRow}
use relaykey_backend.Db.{Db}
use relaykey_backend.Db.Keys.{get_policy_by_id}
use relaykey_backend.World.{Outside, World, Act, Result, ok, err, query}
use relaykey_backend.Retry.{unwrap_or}

-- What the cache uses of other crates: `serde_json` on a `PolicyRow`, and `Uuid::to_string`.
pub record Codec : Type 0 where
  pub to_string : PolicyRow → Option Text
  pub from_str : Text → Option PolicyRow
  pub uuid_text : ℕ → Text

abbrev pub policy_cache_ttl_secs : ℕ
policy_cache_ttl_secs = 300

unfoldable pub cache_key : Codec → ℕ → Text
cache_key codec policy_id = text "rk:policy:" ++ codec.uuid_text policy_id

module _ {S : Type 0} (o : Outside S) (codec : Codec) where
  -- `conn.get(&key).await.unwrap_or(None)`, if there is a connection.
  unfoldable pub cached_json : Text → Act S (Option Text)
  unfolding unwrap_or
  cached_json key w =
      let (connected, s1) = o.connect w.out in
      if connected
      then (let (answer, s2) = o.get key s1 in (unwrap_or answer none, record w { out = s2 }))
      else (none, record w { out = s1 })

  unfoldable pub decode : Option Text → Option PolicyRow
  decode none = none
  decode (some json) = codec.from_str json

  -- The entry is written best-effort.
  unfoldable pub cache_fill : Text → Option PolicyRow → World S → World S
  cache_fill key none w = w
  cache_fill key (some policy) w = elim (codec.to_string policy) [
    | none ↦ w
    | some json ↦
        let (connected, s1) = o.connect w.out in
        if connected
        then record w { out = (o.set_ex key json policy_cache_ttl_secs s1).1 }
        else record w { out = s1 }
  ]

  unfoldable pub from_database : ℕ → Act S (Result (Option PolicyRow))
  unfolding query cache_fill cache_key
  from_database policy_id w =
      let (found, w1) = query o (get_policy_by_id policy_id) w in
      elim found [
        | err e ↦ (err e, w1)
        | ok policy_opt ↦ (ok policy_opt, cache_fill (cache_key codec policy_id) policy_opt w1)
      ]

  unfoldable pub load_policy_bundle : ℕ → Act S (Result (Option PolicyRow))
  unfolding cached_json decode cache_key
  load_policy_bundle policy_id w =
      let (json, w1) = cached_json (cache_key codec policy_id) w in
      elim (decode json) [
        | some policy ↦ (ok (some policy), w1)
        | none ↦ from_database policy_id w1
      ]
