-- ===== src/Proxy/Headers.antt =====
-- crates/relaykey_app/src/proxy.rs: which headers go upstream, and which come back.
pub mod Safety
use relaykey_backend.Base.{ℕ, Bool, not, ◌||◌, List, [], ◌∷◌, ◌++◌, any, keep, if◌then◌else◌}
use relaykey_backend.Text.{Text, text, text_eq, starts_with, to_lowercase}
use relaykey_backend.Http.{Headers}

abbrev pub hop_by_hop : List Text
hop_by_hop =
    text "connection"
    ∷ text "keep-alive"
    ∷ text "proxy-authenticate"
    ∷ text "proxy-authorization"
    ∷ text "te"
    ∷ text "trailer"
    ∷ text "transfer-encoding"
    ∷ text "upgrade"
    ∷ []

unfoldable pub is_hop_by_hop : Text → Bool
is_hop_by_hop name = any (λ n. text_eq n name) hop_by_hop

-- The tests on which the loop over the request's headers goes on to the next one.
unfoldable pub is_dropped : Text → Bool
is_dropped name_str =
    (text_eq name_str (text "host")
      || text_eq name_str (text "x-relaykey")
      || text_eq name_str (text "x-request-id"))
    || is_hop_by_hop name_str
    || (text_eq name_str (text "authorization")
        || text_eq name_str (text "cookie")
        || starts_with (text "proxy-") name_str)

-- The headers of an attempt: those of the request that are not dropped, then the credential.
unfoldable pub outgoing_headers : Headers → Text → Text → Headers
outgoing_headers headers header_name header_value =
    keep (λ (h : Text × Text). not (is_dropped (to_lowercase h.0))) headers
    ++ (header_name, header_value) ∷ []

-- `HeaderMap::insert`: the new value takes the place of all others of the name.
unfoldable pub insert_header : Text → Text → Headers → Headers
insert_header name value [] = (name, value) ∷ []
insert_header name value ((n, v) ∷ hs) =
    if text_eq n name then (name, value) ∷ hs else (n, v) ∷ insert_header name value hs

unfoldable pub is_withheld : Text → Bool
is_withheld name_str = is_hop_by_hop name_str || text_eq name_str (text "set-cookie")

-- The loop over the headers of the upstream's response.
unfoldable pub collect_headers : Headers → Headers → Headers
collect_headers resp_headers [] = resp_headers
collect_headers resp_headers ((name, value) ∷ rest) =
    collect_headers
      (if is_withheld (to_lowercase name)
        then resp_headers
        else insert_header name value resp_headers)
      rest
