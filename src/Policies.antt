-- ===== src/Policies.antt =====
-- crates/relaykey-db/src/queries/policies.rs: the row of a policy. Its cache and the endpoint
-- allowlist are the modules below.
pub mod Allowlist
pub mod Cache
use relaykey_backend.Base.{ℕ, List, Option}
use relaykey_backend.Base.Int.{ℤ}
use relaykey_backend.Text.{Text}

pub record PolicyRow : Type 0 where
  pub id : ℕ
  pub name : Text
  pub endpoint_allowlist : List Text
  pub rps_limit : Option ℤ
  pub rps_burst : Option ℤ
  pub monthly_quota : Option ℤ
  pub timeout_ms : ℤ
