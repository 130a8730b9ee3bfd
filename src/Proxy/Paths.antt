-- ===== src/Proxy/Paths.antt =====
-- crates/relaykey_app/src/proxy.rs: the allowlist matcher of the proxy handler.
pub mod Wildcard
pub mod Agreement
use relaykey_backend.Base.{
  ℕ, zero, suc, ◌+◌, Bool, true, false, not, ◌&&◌, ◌||◌, List, [], ◌∷◌, ◌++◌, Option, none, some,
  ◌==◌, if◌then◌else◌, any, keep, length, get_elem?, drop,
}
use relaykey_backend.Text.{
  Text, text, text_eq, is_empty, starts_with, strip_suffix, contains, split, find,
}

-- `path.as_bytes()[i] == c`; the index is in range where the program asks.
unfoldable pub byte_is : ℕ → Text → ℕ → Bool
byte_is c path i = elim (get_elem? path i) [ some d ↦ d == c | none ↦ false ]

-- `pattern.split('*').filter(|s| !s.is_empty())`
unfoldable pub pieces : Text → List Text
pieces pattern = keep (λ s. not (is_empty s)) (split b'*' pattern)

-- The loop over the pieces, with its index.
unfoldable pub pieces_from : List Text → Text → ℕ → Bool
pieces_from [] path idx = true
pieces_from (part ∷ parts) path idx = elim (find part (drop idx path)) [
  | some pos ↦ pieces_from parts path (idx + (pos + length part))
  | none ↦ false
]

-- "Normalize: ensure forwarded path starts with '/'"
unfoldable pub normalize_path : Text → Text
normalize_path path = if starts_with (text "/") path then path else text "/"

unfoldable pub match_one : Text → Text → Bool
match_one pattern path =
    let path = normalize_path path in
    if not (contains b'*' pattern)
    then text_eq pattern path
    else elim (strip_suffix (text "/*") pattern) [
      | some prefix ↦
          starts_with prefix path
          && (length path == length prefix || byte_is b'/' path (length prefix))
      | none ↦ pieces_from (pieces pattern) path 0
    ]

unfoldable pub path_allowed : List Text → Text → Bool
path_allowed [] forwarded_path = true
path_allowed (p ∷ ps) forwarded_path = any (λ pat. match_one pat forwarded_path) (p ∷ ps)
