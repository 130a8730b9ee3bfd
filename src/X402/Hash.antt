-- ===== src/X402/Hash.antt =====
-- crates/relaykey_app/src/x402/hash.rs. `digest` stands for SHA-256 with its base64 encoding.
pub mod Injective
use relaykey_backend.Base.{◌++◌, ◌∷◌, []}
use relaykey_backend.Text.{Text, text}
use relaykey_backend.Http.{
  Method, get, head, options, post, put, patch, delete, connect, trace, extension,
}

-- `method.as_str()`
unfoldable pub method_text : Method → Text
method_text get = text "GET"
method_text head = text "HEAD"
method_text options = text "OPTIONS"
method_text post = text "POST"
method_text put = text "PUT"
method_text patch = text "PATCH"
method_text delete = text "DELETE"
method_text connect = text "CONNECT"
method_text trace = text "TRACE"
method_text (extension name) = name

abbrev pub newline : Text
newline = 10 ∷ []

-- The bytes that go into the hash, in order.
unfoldable pub hash_input : Method → Text → Text → Text
unfolding method_text
hash_input method path_and_query body =
    method_text method ++ (newline ++ (path_and_query ++ (newline ++ body)))

unfoldable pub compute_request_hash : (Text → Text) → Method → Text → Text → Text
unfolding hash_input
compute_request_hash digest method path_and_query body =
    digest (hash_input method path_and_query body)
