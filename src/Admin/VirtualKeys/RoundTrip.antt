-- ===== src/Admin/VirtualKeys/RoundTrip.antt =====
-- A key that the admin endpoint hands out authenticates.
use relaykey_backend.Base.{
  ℕ, ◌≡◌, refl, sym, ap, subst, ◌∙◌, true, false, not, [], ◌∷◌, ◌++◌, none, some, arith,
  append_assoc, Option-cases, if◌then◌else◌,
}
use relaykey_backend.Text.{Text, text, trim, is_space, is_empty}
use relaykey_backend.Text.Laws.{text_eq_refl}
use relaykey_backend.Text.Trim.{trim-tight}
use relaykey_backend.Context.{Request, Outcome, reply, go}
use relaykey_backend.Policies.{PolicyRow}
use relaykey_backend.Policies.Cache.{Codec}
use relaykey_backend.Policies.Cache.Loading.{held, after_get, load_policy_bundle_lem}
use relaykey_backend.Db.{Db, VirtualKeyRow}
use relaykey_backend.Db.Keys.{first, get_virtual_key_by_hash, get_policy_by_id}
use relaykey_backend.Db.Keys.Insert.{
  NewKey, admits, new_key_row, insert_key_row, insert_virtual_key,
}
use relaykey_backend.World.{
  Outside, World, Exec, Result, ok, statement, query, bind, err, return, stop,
}
use relaykey_backend.Http.{respond}
use relaykey_backend.Retry.{unwrap_or}
use relaykey_backend.Auth.{
  AuthState, hash_virtual_key, readable_header, raw_key, attach, require_raw_key, lookup_key,
  lookup_policy, require_virtual_key,
}
use relaykey_backend.Admin.{json}
use relaykey_backend.Admin.VirtualKeys.{
  CreateVirtualKeyRequest, new_raw_key, new_key_of, created, create_virtual_key,
}

bind-return :
    {S A B : Type 0} (m : Outcome A × World S) (f : A → B) (a : A)
    → m.0 ≡ go a
    → (bind m (λ a. return (f a))).0 ≡ go (f a)
bind-return (reply r, w) f a h = cc
bind-return (go b, w) f a h = cc

module _ {S : Type 0} (o : Outside S) (up : (s : S) → (o.db_fault s).0 ≡ none) where
  statement-up :
      {A : Type 0} (f : Db → Result A × Db) (w : World S)
      → statement o f w ≡ ((f w.db).0, record w { db = (f w.db).1; out = (o.db_fault w.out).1 })
  unfolding statement
  statement-up f w = rw (up w.out, statement) refl

  module _ (codec : Codec) (state : AuthState) where
    require_raw_key-shown :
        (req : Request) (raw : Text) (w : World S)
        → raw_key state req ≡ some raw
        → require_raw_key o codec state req w ≡ (go raw, w)
    unfolding require_raw_key
    require_raw_key-shown req raw w h = rw (h, require_raw_key) refl

    lookup_key-known :
        (raw : Text) (row : VirtualKeyRow) (w : World S)
        → get_virtual_key_by_hash (hash_virtual_key state raw) w.db ≡ some row
        → row.enabled ≡ true
        → lookup_key o codec state raw w ≡ (go row, record w { out = (o.db_fault w.out).1 })
    unfolding lookup_key query
    lookup_key-known raw row w h k =
        let w1 : World S = record w { out = (o.db_fault w.out).1 } in
        ap
          (λ r.
            bind (go r.0, r.1)
              (λ found. elim found [
                | ok (some vk) ↦
                    if vk.enabled then return vk else stop (respond 401 "virtual key disabled")
                | ok none ↦ stop (respond 401 "invalid virtual key")
                | err e ↦ stop (respond 500 "db error")
              ]))
          (statement-up (λ db. (ok (get_virtual_key_by_hash (hash_virtual_key state raw) db), db))
            w)
        ∙ rw h refl
        ∙ ap (λ b. (if b then return row else stop (respond 401 "virtual key disabled")) w1) k

    lookup_policy-known :
        (policy : PolicyRow) (policy_id : ℕ) (w : World S)
        → get_policy_by_id policy_id w.db ≡ some policy
        → (lookup_policy o codec state policy_id w).0
          ≡ go (unwrap_or (held o codec policy_id w.out) policy)
    unfolding lookup_policy unwrap_or
    lookup_policy-known policy policy_id w h = ground (
      arith,
      up (after_get o codec policy_id w.out),
      h,
      (load_policy_bundle_lem o codec policy_id w).0,
      Option-cases (held o codec policy_id w.out),
    )

    require_virtual_key-known :
        (req : Request) (raw : Text) (row : VirtualKeyRow) (policy : PolicyRow) (w : World S)
        → raw_key state req ≡ some raw
        → get_virtual_key_by_hash (hash_virtual_key state raw) w.db ≡ some row
        → row.enabled ≡ true
        → get_policy_by_id row.policy_id w.db ≡ some policy
        → (require_virtual_key o codec state req w).0
          ≡ go (attach req row (unwrap_or (held o codec row.policy_id (o.db_fault w.out).1) policy))
    unfolding require_virtual_key
    require_virtual_key-known req raw row policy w shown known enabled listed =
        let authenticated : VirtualKeyRow → Exec S Request = λ vk.
          λ v. bind (lookup_policy o codec state vk.policy_id v) (λ p. return (attach req vk p)) in
        ap (λ r. (bind r (λ raw v. bind (lookup_key o codec state raw v) authenticated)).0)
          (require_raw_key-shown req raw w shown)
        ∙ ap (λ r. (bind r authenticated).0) (lookup_key-known raw row w known enabled)
        ∙ bind-return
            (lookup_policy o codec state row.policy_id (record w { out = (o.db_fault w.out).1 }))
            (attach req row) _
            (lookup_policy-known policy row.policy_id (record w { out = (o.db_fault w.out).1 })
              listed)

  module _ (codec : Codec) (state : AuthState) (new_v4 : S → Text × S) (violation : Text)
      (body : CreateVirtualKeyRequest) (w : World S) where
    -- The parts of a call of the endpoint.
    abbrev pub fresh_raw_key : Text
    fresh_raw_key = new_raw_key body.environment (new_v4 w.out).0

    abbrev pub fresh_key : NewKey
    fresh_key = new_key_of body (hash_virtual_key state fresh_raw_key)

    abbrev pub fresh_row : VirtualKeyRow
    fresh_row = let s = (new_v4 w.out).1 in new_key_row (o.new_id s) (o.db_now s) fresh_key

    insert_key_row-admitted :
        admits fresh_key w.db ≡ true
        → insert_key_row violation
            (o.new_id (new_v4 w.out).1)
            (o.db_now (new_v4 w.out).1)
            fresh_key
            w.db
          ≡ (
            ok (o.new_id (new_v4 w.out).1),
            record w.db { virtual_keys = fresh_row ∷ w.db.virtual_keys },
          )
    unfolding insert_key_row
    insert_key_row-admitted h = rw (h, insert_key_row) refl

    create_virtual_key-admitted :
        admits fresh_key w.db ≡ true
        → (create_virtual_key o state new_v4 violation body w).0
            ≡ json 201 (record { id = o.new_id (new_v4 w.out).1; key = fresh_raw_key })
          × ((create_virtual_key o state new_v4 violation body w).1.db
              ≡ record w.db { virtual_keys = fresh_row ∷ w.db.virtual_keys })
    unfolding create_virtual_key insert_virtual_key created
    create_virtual_key-admitted h =
        let s = (new_v4 w.out).1 in
        let w0 : World S = record w { out = s } in
        let q = statement-up (insert_key_row violation (o.new_id s) (o.db_now s) fresh_key) w0 in
        let i = insert_key_row-admitted h in
        (
          ap (λ r. created fresh_raw_key r.0) q ∙ ap (λ r. created fresh_raw_key r.0) i,
          ap (λ r. r.1.db) q ∙ ap (λ r. r.1) i,
        )

    -- A key text does not begin or end with white space.
    fresh_raw_key-trimmed :
        (front : Text) (last : ℕ)
        → (new_v4 w.out).0 ≡ front ++ (last ∷ [])
        → is_space last ≡ false
        → trim fresh_raw_key ≡ fresh_raw_key
    unfolding new_raw_key text is_space
    fresh_raw_key-trimmed front last ends h =
        let environment = body.environment in
        let shape : fresh_raw_key
            ≡ 114 ∷ ((107 ∷ 95 ∷ (environment ++ (95 ∷ front))) ++ (last ∷ [])) =
          ap (λ t. 114 ∷ 107 ∷ 95 ∷ t)
            (ap (λ u. environment ++ (95 ∷ u)) ends
              ∙ sym (append_assoc environment (95 ∷ front) (last ∷ []))) in
        subst (λ t. trim t ≡ t) (sym shape)
          (trim-tight 114 last (107 ∷ 95 ∷ (environment ++ (95 ∷ front))) refl h)

    raw_key-fresh :
        (req : Request)
        → trim fresh_raw_key ≡ fresh_raw_key
        → readable_header state (text "x-relaykey") req.headers ≡ some fresh_raw_key
        → raw_key state req ≡ some fresh_raw_key
    unfolding raw_key new_raw_key text is_empty
    raw_key-fresh req trimmed header =
        ap
          (λ shown. elim shown [
            | none ↦ none
            | some v ↦ if not (is_empty (trim v)) then some (trim v) else none
          ])
          header
        ∙ ap (λ t. if not (is_empty t) then some t else none) trimmed

    -- With statements that get through, an id text that ends in no white space, a key hash that is
    -- not in the table, and a policy and a customer that are: the endpoint answers 201 with the raw
    -- key, and in every later state with those tables a request that shows this key passes
    -- authentication, as the virtual key of the body, under the policy that Redis holds for the
    -- body's policy id, or else the policy of the table.
    pub created_key_authenticates :
        (front : Text) (last : ℕ) (policy : PolicyRow) (req : Request) (later : World S)
        → (new_v4 w.out).0 ≡ front ++ (last ∷ [])
        → is_space last ≡ false
        → admits fresh_key w.db ≡ true
        → get_policy_by_id body.policy_id w.db ≡ some policy
        → readable_header state (text "x-relaykey") req.headers ≡ some fresh_raw_key
        → later.db ≡ (create_virtual_key o state new_v4 violation body w).1.db
        → ((create_virtual_key o state new_v4 violation body w).0
            ≡ json 201 (record { id = o.new_id (new_v4 w.out).1; key = fresh_raw_key }))
          × ((require_virtual_key o codec state req later).0
              ≡ go (
                  attach req fresh_row
                    (unwrap_or (held o codec body.policy_id (o.db_fault later.out).1) policy)))
    unfolding get_virtual_key_by_hash first new_key_row new_key_of get_policy_by_id
    created_key_authenticates front last policy req later ends tight fits known header same =
        let (answered, db) = create_virtual_key-admitted fits in
        let tables = same ∙ db in
        let shown = raw_key-fresh req (fresh_raw_key-trimmed front last ends tight) header in
        (
          answered,
          require_virtual_key-known codec state req fresh_raw_key fresh_row policy later shown
              (ap (get_virtual_key_by_hash (hash_virtual_key state fresh_raw_key)) tables
                ∙ rw (text_eq_refl (hash_virtual_key state fresh_raw_key)) refl)
              refl (ap (get_policy_by_id body.policy_id) tables ∙ known),
        )
