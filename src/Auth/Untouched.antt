-- ===== src/Auth/Untouched.antt =====
-- Authentication leaves the tables, and sends nothing upstream.
use relaykey_backend.Base.{ℕ, refl, ◌∙◌, inl, inr, Option, none, some, Option-cases, if◌then◌else◌}
use relaykey_backend.Text.{Text}
use relaykey_backend.Http.{respond}
use relaykey_backend.Context.{Request}
use relaykey_backend.Policies.{PolicyRow}
use relaykey_backend.Policies.Cache.{Codec}
use relaykey_backend.Policies.Cache.Loading.{load_policy_bundle_lem}
use relaykey_backend.Auth.{
  AuthState, hash_virtual_key, raw_key, require_raw_key, lookup_key, lookup_policy,
  require_virtual_key,
}
use relaykey_backend.Auth.Gate.{Untouched}
use relaykey_backend.Db.{VirtualKeyRow}
use relaykey_backend.Db.Keys.{get_virtual_key_by_hash}
use relaykey_backend.World.{Outside, World, Exec, Result, ok, err, return, stop, query}
use relaykey_backend.World.Flow.{Leaves, Leaves-bind, Leaves-if, query-db, query-sent}

module _ {S : Type 0} (o : Outside S) (codec : Codec) (state : AuthState) where
  module _ (start : World S) where
    require_raw_key-Untouched :
        (req : Request) (w : World S)
        → Untouched o codec state start w
        → Leaves (Untouched o codec state start) (require_raw_key o codec state req w)
    unfolding require_raw_key
    require_raw_key-Untouched req w h = elim (Option-cases (raw_key state req)) [
      | inl e ↦ rw (e, require_raw_key) (record { left = h })
      | inr (raw, e) ↦ rw (e, require_raw_key) (record { left = h })
    ]

    -- What follows the lookup of a key.
    abbrev after_lookup : Result (Option VirtualKeyRow) → Exec S VirtualKeyRow
    after_lookup found = elim found [
      | ok (some vk) ↦ if vk.enabled then return vk else stop (respond 401 "virtual key disabled")
      | ok none ↦ stop (respond 401 "invalid virtual key")
      | err e ↦ stop (respond 500 "db error")
    ]

    -- What follows the loading of a policy.
    abbrev after_load : Result (Option PolicyRow) → Exec S PolicyRow
    after_load found = elim found [
      | ok (some p) ↦ return p
      | ok none ↦ stop (respond 500 "policy not found")
      | err e ↦ stop (respond 500 "policy load failed")
    ]

    found_key-Untouched :
        (found : Result (Option VirtualKeyRow)) (w : World S)
        → Untouched o codec state start w
        → Leaves (Untouched o codec state start) (after_lookup found w)
    found_key-Untouched (ok (some vk)) w h =
        Leaves-if vk.enabled (return vk) (stop (respond 401 "virtual key disabled")) w
          (record { left = h }) (record { left = h })
    found_key-Untouched (ok none) w h = record { left = h }
    found_key-Untouched (err e) w h = record { left = h }

    lookup_key-Untouched :
        (raw : Text) (w : World S)
        → Untouched o codec state start w
        → Leaves (Untouched o codec state start) (lookup_key o codec state raw w)
    unfolding lookup_key query
    lookup_key-Untouched raw w h =
        let hash = hash_virtual_key state raw in
        found_key-Untouched (query o (get_virtual_key_by_hash hash) w).0
          (query o (get_virtual_key_by_hash hash) w).1
          (
            query-db o (get_virtual_key_by_hash hash) w ∙ h.0,
            query-sent o (get_virtual_key_by_hash hash) w ∙ h.1,
          )

    found_policy-Untouched :
        (found : Result (Option PolicyRow)) (w : World S)
        → Untouched o codec state start w
        → Leaves (Untouched o codec state start) (after_load found w)
    found_policy-Untouched (ok (some p)) w h = record { left = h }
    found_policy-Untouched (ok none) w h = record { left = h }
    found_policy-Untouched (err e) w h = record { left = h }

    lookup_policy-Untouched :
        (policy_id : ℕ) (w : World S)
        → Untouched o codec state start w
        → Leaves (Untouched o codec state start) (lookup_policy o codec state policy_id w)
    unfolding lookup_policy
    lookup_policy-Untouched policy_id w h =
        let (_, kept, quiet) = load_policy_bundle_lem o codec policy_id w in
        found_policy-Untouched _ _ (kept ∙ h.0, quiet ∙ h.1)

    kept :
        (req : Request) (w : World S)
        → Untouched o codec state start w
        → Leaves (Untouched o codec state start) (require_virtual_key o codec state req w)
    unfolding require_virtual_key
    kept req w h = Leaves-bind _ _ (require_raw_key-Untouched req w h) λ raw w1 h1.
        Leaves-bind _ _ (lookup_key-Untouched raw w1 h1) λ row w2 h2.
          Leaves-bind _ _ (lookup_policy-Untouched row.policy_id w2 h2)
            λ _ w3 h3. record { left = h3 }

  -- Whether authentication refuses a request or lets it go on.
  pub require_virtual_key-Untouched :
      (req : Request) (w : World S)
      → Leaves (Untouched o codec state w) (require_virtual_key o codec state req w)
  require_virtual_key-Untouched req w = kept w req w (refl, refl)
