-- ===== src/App/Seed.antt =====
-- crates/relaykey_app/src/bin/seed.rs and bin/gen_vk.rs, and crates/relaykey_app/src/admin/keygen.rs. A
-- virtual key is inserted under the constraints of the migrations, of which 0007 and 0009 give
-- policy_id and customer_id NOT NULL and no default.
pub mod Fails
use relaykey_backend.Base.{
  ℕ, Bool, true, ◌&&◌, ◌==◌, List, [], ◌∷◌, ◌++◌, map, any, Option, none, some, if◌then◌else◌,
}
use mathlib.Core.Option
use relaykey_backend.Text.{Text, text, text_eq}
use relaykey_backend.Auth.{AuthState, hash_virtual_key}
use relaykey_backend.Db.{Db, PartnerRow, StoredCredential}
use relaykey_backend.Db.Keys.{get_partner_by_name}
use relaykey_backend.Db.Keys.Insert.{NewKey, insert_key_row}
use relaykey_backend.World.{Outside, World, Act, Result, ok, err, statement}
use relaykey_backend.App.RollupJob.{check, pure, ok_or, init_db}

-- `format!("vk_{}", Uuid::new_v4())`
unfoldable pub seed_key : Text → Text
seed_key uuid = text "vk_" ++ uuid

-- `generate_virtual_key`, on the random suffix.
unfoldable pub generate_virtual_key : Text → Text → Text
generate_virtual_key environment suffix = text "rk_" ++ (environment ++ (text "_" ++ suffix))

-- The lines of gen_vk.
unfoldable pub gen_vk : AuthState → Text → List Text
unfolding seed_key
gen_vk state uuid =
    (text "RAW_VK=" ++ seed_key uuid)
    ∷ (text "VK_HASH=" ++ hash_virtual_key state (seed_key uuid))
    ∷ []

-- `ON CONFLICT (name) DO UPDATE SET base_url`, with the id that it returns.
unfoldable pub upsert_partner : (new_id : ℕ) → (name base_url : Text) → Db → Result ℕ × Db
upsert_partner new_id name base_url db = elim (get_partner_by_name name db) [
  | none ↦ (
    ok new_id,
    record db {
      partners = (record { id = new_id; name = name; base_url = base_url }) ∷ db.partners;
    },
  )
  | some p ↦ (
    ok p.id,
    record db {
      partners =
          map (λ q. if text_eq q.name name then record q { base_url = base_url } else q)
            db.partners;
    },
  )
]

-- `ON CONFLICT DO NOTHING`, under the unique (partner_id, header_name).
unfoldable pub insert_credential : StoredCredential → Db → Result (Unit {0}) × Db
insert_credential c db =
    if any
      (λ x.
        x.partner_id == c.partner_id && text_eq x.credential.header_name c.credential.header_name)
      db.upstream_credentials
    then (ok tt, db)
    else (ok tt, record db { upstream_credentials = c ∷ db.upstream_credentials })

-- An insertion that may leave the policy and the customer out: NULL in a column that is NOT NULL and
-- has no default breaks a constraint.
unfoldable pub insert_key_columns :
    (violation : Text)
    → (id created_at : ℕ) → (name key_hash : Text) → (policy_id customer_id : Option ℕ) → Db
    → Result ℕ × Db
unfolding insert_key_row
insert_key_columns violation id created_at name key_hash none customer_id db = (err violation, db)
insert_key_columns violation id created_at name key_hash (some policy_id) none db =
    (err violation, db)
insert_key_columns violation id created_at name key_hash (some policy_id) (some customer_id) db =
    insert_key_row violation id created_at
      (record {
        name = name;
        environment = text "dev";
        tags = [];
        customer_id = customer_id;
        policy_id = policy_id;
        key_hash = key_hash;
        enabled = true;
        rps_limit = none;
        rps_burst = none;
        monthly_quota = none;
      })
      db

module _ {S : Type 0} (o : Outside S) (connect : Text → S → Option Text × S)
    (state : Text → AuthState) (new_v4 : S → Text × S) (violation : Text) where
  unfoldable pub seed_partner : Act S (Result ℕ)
  unfolding upsert_partner
  seed_partner w =
      statement o (upsert_partner (o.new_id w.out) (text "example") (text "https://httpbin.org")) w

  unfoldable pub seed_credential : ℕ → Act S (Result (Unit {0}))
  unfolding insert_credential
  seed_credential partner_id w =
      statement o
        (insert_credential (record {
          partner_id = partner_id;
          created_at = o.db_now w.out;
          credential = record {
            header_name = text "X-Upstream-Key";
            header_value = text "demo-upstream-secret";
          };
        }))
        w

  -- The statement names only the columns name and key_hash.
  unfoldable pub seed_virtual_key : Text → Act S (Result ℕ)
  unfolding insert_key_columns seed_key
  seed_virtual_key key_salt w =
      let (uuid, s) = new_v4 w.out in
      statement o
        (insert_key_columns violation (o.new_id s) (o.db_now s) (text "dev")
          (hash_virtual_key (state key_salt) (seed_key uuid)) none none)
        (record w { out = s })

  -- The program, from its last step on; `not_present` is the text of a variable that is not set.
  unfoldable pub key_step : Text → Act S (Result (Unit {0}))
  unfolding check pure seed_virtual_key
  key_step key_salt = check (seed_virtual_key key_salt) (λ e. e) λ _. pure (ok tt)

  unfoldable pub credential_step : Text → ℕ → Act S (Result (Unit {0}))
  unfolding check seed_credential
  credential_step key_salt partner_id =
      check (seed_credential partner_id) (λ e. e) λ _. key_step key_salt

  unfoldable pub partner_step : Text → Act S (Result (Unit {0}))
  unfolding check seed_partner
  partner_step key_salt =
      check seed_partner (λ e. e) λ partner_id. credential_step key_salt partner_id

  unfoldable pub connect_step : Text → Text → Act S (Result (Unit {0}))
  unfolding check init_db
  connect_step database_url key_salt =
      check (init_db connect database_url) (λ e. e) λ _. partner_step key_salt

  unfoldable pub seed :
      (env : Text → Option Text) → (not_present : Text) → Act S (Result (Unit {0}))
  unfolding check pure ok_or
  seed env not_present =
      check (pure (ok_or (env (text "DATABASE_URL")) not_present)) (λ e. e)
        λ database_url.
          check (pure (ok_or (env (text "RELAYKEY_KEY_SALT")) not_present)) (λ e. e)
            λ key_salt. connect_step database_url key_salt
