-- ===== src/Policies/Cache/Loading.antt =====
-- Where a loaded policy comes from.
use relaykey_backend.Base.{
  ℕ, ◌≡◌, refl, inl, inr, Option, none, some, arith, if◌then◌else◌, Bool-cases, Option-cases,
}
use relaykey_backend.Text.{Text}
use relaykey_backend.Policies.{PolicyRow}
use relaykey_backend.Db.{Db}
use relaykey_backend.Db.Keys.{get_policy_by_id}
use relaykey_backend.World.{Outside, World, Result, ok, err, statement, query}
use relaykey_backend.Retry.{unwrap_or}
use relaykey_backend.Policies.Cache.{
  Codec, cache_key, cached_json, decode, cache_fill, from_database, load_policy_bundle,
}

module _ {S : Type 0} (o : Outside S) (codec : Codec) where
  -- What the lookup in Redis finds, if Redis answers, and the state after it.
  abbrev pub looked_up : ℕ → S → Option Text
  looked_up policy_id s =
      let (connected, s1) = o.connect s in
      if connected then unwrap_or (o.get (cache_key codec policy_id) s1).0 none else none

  abbrev pub after_get : ℕ → S → S
  after_get policy_id s =
      let (connected, s1) = o.connect s in
      if connected then (o.get (cache_key codec policy_id) s1).1 else s1

  -- The readable entry of Redis.
  abbrev pub held : ℕ → S → Option PolicyRow
  held policy_id s = decode o codec (looked_up policy_id s)

  cached_json_lem :
      (policy_id : ℕ) (w : World S)
      → cached_json o codec (cache_key codec policy_id) w
        ≡ (looked_up policy_id w.out, record w { out = after_get policy_id w.out })
  unfolding cached_json
  cached_json_lem policy_id w = elim (Bool-cases (o.connect w.out).0) [
    | inl up ↦ rw (up, cached_json) refl
    | inr down ↦ rw (down, cached_json) refl
  ]

  fill_lem :
      (key : Text) (policy : Option PolicyRow) (w : World S)
      → ((cache_fill o codec key policy w).db ≡ w.db)
        × ((cache_fill o codec key policy w).sent ≡ w.sent)
  unfolding cache_fill
  fill_lem key none w = (refl, refl)
  fill_lem key (some policy) w = elim (Option-cases (codec.to_string policy)) [
    | inl e ↦ rw (e, cache_fill) (refl, refl)
    | inr (json, e) ↦ elim (Bool-cases (o.connect w.out).0) [
      | inl up ↦ rw (e, up, cache_fill) (refl, refl)
      | inr down ↦ rw (e, down, cache_fill) (refl, refl)
    ]
  ]

  -- The answer: what Redis holds, else what the database says.
  abbrev pub answer : Option PolicyRow → Option Text → Option PolicyRow → Result (Option PolicyRow)
  answer (some p) fault row = ok (some p)
  answer none (some e) row = err e
  answer none none row = ok row

  query_ok :
      {A : Type 0} (f : Db → A) (w : World S)
      → (o.db_fault w.out).0 ≡ none
      → query o f w ≡ (ok (f w.db), record w { out = (o.db_fault w.out).1 })
  unfolding query statement
  query_ok f w e = rw (e, query, statement) refl

  query_err :
      {A : Type 0} (f : Db → A) (w : World S) (m : Text)
      → (o.db_fault w.out).0 ≡ some m
      → query o f w ≡ (err m, record w { out = (o.db_fault w.out).1 })
  unfolding query statement
  query_err f w m e = rw (e, query, statement) refl

  from_database_lem :
      (policy_id : ℕ) (w : World S)
      → ((from_database o codec policy_id w).0
          ≡ answer none (o.db_fault w.out).0 (get_policy_by_id policy_id w.db))
        × ((from_database o codec policy_id w).1.db ≡ w.db)
        × ((from_database o codec policy_id w).1.sent ≡ w.sent)
  unfolding from_database
  from_database_lem policy_id w = elim (Option-cases (o.db_fault w.out).0) [
    | inr (m, e) ↦ ground (arith, query_err (get_policy_by_id policy_id) w m e, e)
    | inl e ↦
        let (d, s) =
          fill_lem (cache_key codec policy_id) (get_policy_by_id policy_id w.db)
            (record w { out = (o.db_fault w.out).1 }) in
        ground (arith, query_ok (get_policy_by_id policy_id) w e, e, d, s)
  ]

  -- Loading a policy gives the readable entry of Redis, if there is one, and otherwise what the
  -- database says: its row, no row, or its error. It leaves the tables, and sends nothing upstream.
  pub load_policy_bundle_lem :
      (policy_id : ℕ) (w : World S)
      → let (found, after) = load_policy_bundle o codec policy_id w in
        (found
          ≡ answer
              (held policy_id w.out)
              (o.db_fault (after_get policy_id w.out)).0
              (get_policy_by_id policy_id w.db))
        × (after.db ≡ w.db)
        × (after.sent ≡ w.sent)
  unfolding load_policy_bundle
  load_policy_bundle_lem policy_id w = elim (Option-cases (held policy_id w.out)) [
    | inl e ↦ ground (
      arith,
      cached_json_lem policy_id w,
      e,
      from_database_lem policy_id (record w { out = after_get policy_id w.out }),
    )
    | inr (p, e) ↦ ground (arith, cached_json_lem policy_id w, e)
  ]
