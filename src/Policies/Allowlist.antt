-- ===== src/Policies/Allowlist.antt =====
-- crates/relaykey_app/src/policies/allowlist.rs
pub mod Matching
use Prim.Native.Char.{code}
use relaykey_backend.Base.{
  ℕ, Bool, ◌||◌, List, [], ◌∷◌, ◌++◌, Option, none, some, if◌then◌else◌, any, not,
}
use relaykey_backend.Text.{Text, text, text_eq, starts_with, strip_suffix, split_rest}
use relaykey_backend.Http.{respond}
use relaykey_backend.Context.{Request, Outcome, reply, go}
use relaykey_backend.Policies.{PolicyRow}

unfoldable pub matches : Text → Text → Bool
matches pattern path = elim (strip_suffix (text "/*") pattern) [
  | some prefix ↦ text_eq path prefix || starts_with (prefix ++ text "/") path
  | none ↦ text_eq path pattern
]

-- `/proxy/{partner}/{rest}` gives `/{rest}`.
unfoldable pub upstream_path : Text → Text
upstream_path full_path = elim (split_rest 3 b'/' full_path) [
  | some rest ↦ text "/" ++ rest
  | none ↦ text "/"
]

unfoldable pub enforce_allowlist : Request → Outcome Request
enforce_allowlist req = elim req.policy [
  | none ↦ reply (respond 500 "Missing policy in request extensions")
  | some policy ↦
      if any (λ pat. matches pat (upstream_path req.path)) policy.endpoint_allowlist
      then go req
      else reply (respond 403 "Endpoint not allowed")
]
