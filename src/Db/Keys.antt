-- ===== src/Db/Keys.antt =====
-- crates/relaykey-db/src/queries/virtual_keys.rs and policies.rs: the queries that look a row up.
pub mod Latest
pub mod Insert
use relaykey_backend.Base.{
  ℕ, Bool, List, [], ◌∷◌, Option, none, some, ltb, ◌==◌, if◌then◌else◌, keep,
}
use mathlib.Core.Option
use relaykey_backend.Text.{Text, text_eq}
use relaykey_backend.Policies.{PolicyRow}
use relaykey_backend.Db.{Db, VirtualKeyRow, PartnerRow, CredentialRow, StoredCredential}

-- The first row that passes a `WHERE`, as `fetch_optional` takes it.
unfoldable pub first {ℓ} : {A : Type ℓ} → (A → Bool) → List A → Option A
first p [] = none
first p (x ∷ xs) = if p x then some x else first p xs

-- `ORDER BY key DESC LIMIT 1`
unfoldable pub latest {ℓ} : {A : Type ℓ} → (A → ℕ) → List A → Option A
latest key [] = none
latest key (x ∷ xs) = elim (latest key xs) [
  | none ↦ some x
  | some y ↦ if ltb (key x) (key y) then some y else some x
]

unfoldable pub get_virtual_key_by_hash : Text → Db → Option VirtualKeyRow
get_virtual_key_by_hash key_hash db = first (λ vk. text_eq vk.key_hash key_hash) db.virtual_keys

unfoldable pub get_partner_by_name : Text → Db → Option PartnerRow
get_partner_by_name partner_name db = first (λ p. text_eq p.name partner_name) db.partners

unfoldable pub get_credential_for_partner : ℕ → Db → Option CredentialRow
get_credential_for_partner partner_id db =
    Option.map (λ c. c.credential)
      (latest (λ c. c.created_at) (keep (λ c. c.partner_id == partner_id) db.upstream_credentials))

unfoldable pub get_policy_by_id : ℕ → Db → Option PolicyRow
get_policy_by_id id db = first (λ p. p.id == id) db.policies
