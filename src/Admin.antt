-- ===== src/Admin.antt =====
-- crates/relaykey_app/src/admin: the endpoints behind `require_admin`.
pub mod VirtualKeys
pub mod Metrics
pub mod Usage
pub mod Errors
use relaykey_backend.Base.{ℕ, []}
use relaykey_backend.Http.{Response, empty}

-- What a handler answers: a status with a JSON value, or another response.
pub data Answer (A : Type 0) : Type 0 where
  json : ℕ → A → Answer A
  refuse : Response → Answer A

-- `StatusCode::….into_response()`
abbrev pub bare : ℕ → Response
bare code = record { status = code; headers = []; body = empty }
