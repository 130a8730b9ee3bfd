-- ===== src/App/Seed/Fails.antt =====
-- The seed program against the tables of the migrations.
use relaykey_backend.Base.{ℕ, ◌≡◌, refl, subst, inl, inr, List, Option, arith, Option-cases}
use relaykey_backend.Text.{Text, text}
use relaykey_backend.Auth.{AuthState}
use relaykey_backend.Db.{Db, VirtualKeyRow, StoredCredential}
use relaykey_backend.Db.Keys.{get_partner_by_name}
use relaykey_backend.World.{Outside, World, Act, Result, ok, err, statement}
use relaykey_backend.App.RollupJob.{check, resume, pure, ok_or, init_db}
use relaykey_backend.App.Seed.{
  upsert_partner, insert_credential, insert_key_columns, seed_partner, seed_credential,
  seed_virtual_key, key_step, credential_step, partner_step, connect_step, seed,
}

-- A run that ends with an error, and has left the virtual keys.
pub record Failed {S A : Type 0} (keys : List VirtualKeyRow) (m : Result A × World S) : Type 0 where
  pub error : Text
  pub fails : m.0 ≡ err error
  pub kept : m.1.db.virtual_keys ≡ keys

module _ {S A B : Type 0} (keys : List VirtualKeyRow) (message : Text → Text)
    (f : A → Act S (Result B)) where
  -- Whether the first part fails or not, the whole does, if the rest does.
  resume-Failed :
      (r : Result A × World S)
      → r.1.db.virtual_keys ≡ keys
      → ((a : A) (w : World S) → w.db.virtual_keys ≡ keys → Failed keys (f a w))
      → Failed keys (resume message f r)
  unfolding resume
  resume-Failed (ok a, w) h k = k a w h
  resume-Failed (err e, w) h k = record { error = message e; fails = refl; kept = h }

  -- The first part fails.
  Failed-resume : (r : Result A × World S) → Failed keys r → Failed keys (resume message f r)
  unfolding resume
  Failed-resume (ok a, w) h = absurd (ok-ne-err h.fails)
    where
      ok-ne-err : {a : A} {e : Text} → ◌≡◌ {A = Result A} (ok a) (err e) → ⊥
      ok-ne-err q = cc
  Failed-resume (err e, w) h = record { error = message e; fails = refl; kept = h.kept }

  check-Failed :
      (m : Act S (Result A)) (w : World S)
      → (m w).1.db.virtual_keys ≡ keys
      → ((a : A) (v : World S) → v.db.virtual_keys ≡ keys → Failed keys (f a v))
      → Failed keys (check m message f w)
  unfolding check
  check-Failed m w h k = resume-Failed (m w) h k

  check-failing :
      (m : Act S (Result A)) (w : World S) → Failed keys (m w) → Failed keys (check m message f w)
  unfolding check
  check-failing m w h = Failed-resume (m w) h

module _ {S : Type 0} (o : Outside S) where
  statement-keys :
      {A : Type 0} (f : Db → Result A × Db) (w : World S)
      → ((f w.db).1.virtual_keys ≡ w.db.virtual_keys)
      → (statement o f w).1.db.virtual_keys ≡ w.db.virtual_keys
  unfolding statement
  statement-keys f w h = elim (Option-cases (o.db_fault w.out).0) [
    | inl e ↦ rw (e, statement) h
    | inr (m, e) ↦ rw (e, statement) refl
  ]

  upsert_partner-keys :
      (id : ℕ) (name url : Text) (db : Db)
      → (upsert_partner id name url db).1.virtual_keys ≡ db.virtual_keys
  unfolding upsert_partner
  upsert_partner-keys id name url db = elim (Option-cases (get_partner_by_name name db)) [
    | inl e ↦ rw (e, upsert_partner) refl
    | inr (p, e) ↦ rw (e, upsert_partner) refl
  ]

  insert_credential-keys :
      (c : StoredCredential) (db : Db) → (insert_credential c db).1.virtual_keys ≡ db.virtual_keys
  unfolding insert_credential
  insert_credential-keys c db = ground arith

  module _ (connect : Text → S → Option Text × S) (state : Text → AuthState) (new_v4 : S → Text × S)
      (violation : Text) where
    init_db-keys :
        (url : Text) (w : World S) → (init_db connect url w).1.db.virtual_keys ≡ w.db.virtual_keys
    unfolding init_db
    init_db-keys url w = elim (Option-cases (connect url w.out).0) [
      | inl e ↦ rw (e, init_db) refl
      | inr (m, e) ↦ rw (e, init_db) refl
    ]

    seed_virtual_key-Failed :
        (salt : Text) (w : World S)
        → Failed w.db.virtual_keys (seed_virtual_key o connect state new_v4 violation salt w)
    unfolding seed_virtual_key insert_key_columns statement
    seed_virtual_key-Failed salt w = elim (Option-cases (o.db_fault (new_v4 w.out).1).0) [
      | inl e ↦
          rw (e, seed_virtual_key, statement)
            (record { error = violation; fails = refl; kept = refl })
      | inr (m, e) ↦
          rw (e, seed_virtual_key, statement) (record { error = m; fails = refl; kept = refl })
    ]

    key_step-Failed :
        (salt : Text) (w : World S)
        → Failed w.db.virtual_keys (key_step o connect state new_v4 violation salt w)
    unfolding key_step
    key_step-Failed salt w =
        check-failing w.db.virtual_keys (λ e. e) (λ _. pure (ok tt))
          (seed_virtual_key o connect state new_v4 violation salt) w
          (seed_virtual_key-Failed salt w)

    credential_step-Failed :
        (salt : Text) (partner_id : ℕ) (w : World S)
        → Failed w.db.virtual_keys
            (credential_step o connect state new_v4 violation salt partner_id w)
    unfolding credential_step seed_credential
    credential_step-Failed salt partner_id w =
        check-Failed w.db.virtual_keys (λ e. e)
          (λ _. key_step o connect state new_v4 violation salt)
          (seed_credential o connect state new_v4 violation partner_id) w
          (statement-keys _ w (insert_credential-keys _ w.db))
          (λ _ v h.
            subst (λ k. Failed k (key_step o connect state new_v4 violation salt v)) h
              (key_step-Failed salt v))

    partner_step-Failed :
        (salt : Text) (w : World S)
        → Failed w.db.virtual_keys (partner_step o connect state new_v4 violation salt w)
    unfolding partner_step seed_partner
    partner_step-Failed salt w =
        check-Failed w.db.virtual_keys (λ e. e)
          (credential_step o connect state new_v4 violation salt)
          (seed_partner o connect state new_v4 violation) w
          (statement-keys _ w (upsert_partner-keys _ _ _ w.db))
          (λ partner_id v h.
            subst
              (λ k. Failed k (credential_step o connect state new_v4 violation salt partner_id v)) h
              (credential_step-Failed salt partner_id v))

    connect_step-Failed :
        (url salt : Text) (w : World S)
        → Failed w.db.virtual_keys (connect_step o connect state new_v4 violation url salt w)
    unfolding connect_step
    connect_step-Failed url salt w =
        check-Failed w.db.virtual_keys (λ e. e)
          (λ _. partner_step o connect state new_v4 violation salt) (init_db connect url) w
          (init_db-keys url w)
          (λ _ v h.
            subst (λ k. Failed k (partner_step o connect state new_v4 violation salt v)) h
              (partner_step-Failed salt v))

    -- The seed program never succeeds: whatever the environment, the connection and the tables, it
    -- ends with an error, and no virtual key is inserted.
    pub seed-Failed :
        (env : Text → Option Text) (not_present : Text) (w : World S)
        → Failed w.db.virtual_keys (seed o connect state new_v4 violation env not_present w)
    unfolding seed ok_or pure check resume
    seed-Failed env not_present w = elim (Option-cases (env (text "DATABASE_URL"))) [
      | inl e ↦
          rw (e, seed, check, pure, ok_or, resume)
            (record { error = not_present; fails = refl; kept = refl })
      | inr (url, e) ↦ elim (Option-cases (env (text "RELAYKEY_KEY_SALT"))) [
        | inl f ↦
            rw (e, seed, check, pure, ok_or, resume, f)
              (record { error = not_present; fails = refl; kept = refl })
        | inr (salt, f) ↦
            rw (e, seed, check, pure, ok_or, resume, f) (connect_step-Failed url salt w)
      ]
    ]
