-- ===== src/Context.antt =====
-- What a request carries through the middlewares: the request with its extensions, and the context
-- of the virtual key (`VirtualKeyCtx` of crates/relaykey_app/src/auth.rs).
use relaykey_backend.Base.{ℕ, List, Option, get_or, if◌then◌else◌}
use relaykey_backend.Base.Int.{ℤ}
use relaykey_backend.Text.{Text, text, text_eq, split}
use relaykey_backend.Http.{Method, Headers, Response}
use relaykey_backend.Policies.{PolicyRow}

pub record VirtualKeyCtx : Type 0 where
  pub id : ℕ
  pub name : Text
  pub environment : Text
  pub tags : List Text
  pub rps_limit : Option ℤ
  pub rps_burst : Option ℤ
  pub monthly_quota : Option ℤ
  pub policy_id : ℕ
  pub policy : PolicyRow
  pub customer_id : ℕ

pub record Request : Type 0 where
  pub method : Method
  pub path : Text
  pub query : Option Text
  pub headers : Headers
  pub body : Text
  -- `req.extensions()`, at the two types that the program inserts.
  pub policy : Option PolicyRow
  pub vk : Option VirtualKeyCtx

-- A handler or middleware ends with a response, or goes on.
pub data Outcome {ℓ} (A : Type ℓ) : Type ℓ where
  reply : Response → Outcome A
  go : A → Outcome A

-- `parse_partner_from_path` of limits/middleware.rs and x402/middleware.rs: the second part of
-- `/proxy/{partner}/...`, or "-".
unfoldable pub parse_partner_from_path : Text → Text
parse_partner_from_path path =
    let parts = split b'/' path in
    if text_eq (get_or parts 1 (text "")) (text "proxy")
    then get_or parts 2 (text "-")
    else text "-"
