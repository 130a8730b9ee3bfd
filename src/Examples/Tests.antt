-- ===== src/Examples/Tests.antt =====
-- Runs of the definitions at fixed inputs.
use relaykey_backend.Base.{◌≡◌, refl, true, false, [], ◌∷◌}
use relaykey_backend.Text.{
  text, text_eq, starts_with, contains, strip_suffix, find, split, push_front, is_empty,
}
use relaykey_backend.Retry.{
  backoff_ms, checked_shl_one, saturating_mul, unwrap_or, classify_status, retryable,
}
use relaykey_backend.Context.{parse_partner_from_path}
use relaykey_backend.Policies.Allowlist.{matches}
use relaykey_backend.Proxy.Paths.{
  match_one, path_allowed, normalize_path, pieces, pieces_from, byte_is,
}

second_sleep : backoff_ms 3 50 300 ≡ 200
unfolding backoff_ms checked_shl_one saturating_mul unwrap_or
second_sleep = refl

busy : classify_status 503 ≡ retryable
unfolding classify_status
busy = refl

wildcard : match_one (text "/v1/*/foo") (text "/v1/a/foo") ≡ true
unfolding match_one normalize_path pieces pieces_from text starts_with contains strip_suffix text_eq
    find split push_front is_empty
wildcard = refl

-- A dot segment passes the allowlist, which looks at the path before it is joined.
dot_segment : path_allowed (text "/v1/*" ∷ []) (text "/v1/../admin") ≡ true
unfolding path_allowed match_one normalize_path byte_is text starts_with contains strip_suffix
    text_eq
dot_segment = refl

neighbour : matches (text "/v1/*") (text "/v10") ≡ false
unfolding matches text starts_with strip_suffix text_eq
neighbour = refl

partner : parse_partner_from_path (text "/proxy/acme/v1/x") ≡ text "acme"
unfolding parse_partner_from_path text text_eq split push_front
partner = refl
