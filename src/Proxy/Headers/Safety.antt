-- ===== src/Proxy/Headers/Safety.antt =====
-- crates/relaykey_app/src/proxy.rs: which header a name finds in what goes upstream and comes back.
use relaykey_backend.Base.{
  ◌≡◌, refl, ap, ◌∙◌, sym, false, not, ◌++◌, [], ◌∷◌, Option, none, some, keep, if◌then◌else◌,
  Bool-cases, arith, inl, inr,
}
use relaykey_backend.Text.{Text, text_eq, to_lowercase}
use relaykey_backend.Text.Laws.{text_eq_sound}
use relaykey_backend.Http.{Headers, get_header}
use relaykey_backend.Proxy.Headers.{
  is_dropped, outgoing_headers, insert_header, is_withheld, collect_headers,
}

-- The first of two answers.
abbrev pub or_else : Option Text → Option Text → Option Text
or_else (some v) _ = some v
or_else none b = b

or_else-none : (a : Option Text) → or_else a none ≡ a
or_else-none (some v) = refl
or_else-none none = refl

-- The last value of a name.
abbrev pub last_header : Text → Headers → Option Text
last_header name [] = none
last_header name ((n, v) ∷ hs) =
    or_else (last_header name hs) (if text_eq n name then some v else none)

kept : Headers → Headers
kept headers = keep (λ (h : Text × Text). not (is_dropped (to_lowercase h.0))) headers

-- The headers that are kept, and what they find.
get_header-kept :
    (name : Text) (headers rest : Headers)
    → get_header name (kept headers ++ rest) ≡ (
        if is_dropped (to_lowercase name)
        then get_header name rest
        else or_else (get_header name headers) (get_header name rest))
unfolding get_header kept
get_header-kept name [] rest = elim (Bool-cases (is_dropped (to_lowercase name))) [
  | inl e ↦ rw e refl
  | inr e ↦ rw e refl
]
get_header-kept name ((n, v) ∷ hs) rest =
    let ih = get_header-kept name hs rest in
    elim (Bool-cases (text_eq n name)) [
      | inl same ↦
          let alike : is_dropped (to_lowercase n) ≡ is_dropped (to_lowercase name) =
            ap (λ s. is_dropped (to_lowercase s)) (text_eq_sound n name same) in
          ground (arith, ih, same, alike)
      | inr other ↦ ground (arith, ih, other)
    ]

-- What a name finds among the headers that go upstream.
abbrev pub found_upstream : Headers → Text → Text → Text → Option Text
found_upstream headers header_name header_value name =
    let credential = if text_eq header_name name then some header_value else none in
    if is_dropped (to_lowercase name)
    then credential
    else or_else (get_header name headers) credential

-- A name that the handler drops finds nothing upstream, but the credential where it is its name;
-- any other name finds what it finds in the request, and the credential only where the request
-- does not have it.
pub get_header-outgoing_headers :
    (headers : Headers) (header_name header_value name : Text)
    → get_header name (outgoing_headers headers header_name header_value)
      ≡ found_upstream headers header_name header_value name
unfolding outgoing_headers get_header kept
get_header-outgoing_headers headers header_name header_value name =
    get_header-kept name headers ((header_name, header_value) ∷ [])

get_header-insert_header :
    (name n v : Text) (hs : Headers)
    → get_header name (insert_header n v hs)
      ≡ (if text_eq n name then some v else get_header name hs)
unfolding get_header insert_header
get_header-insert_header name n v [] = refl
get_header-insert_header name n v ((m, x) ∷ hs) = elim (Bool-cases (text_eq m n)) [
  | inl same ↦
      let alike : text_eq m name ≡ text_eq n name =
        ap (λ s. text_eq s name) (text_eq_sound m n same) in
      ground (arith, same, alike)
  | inr other ↦
      let ih = get_header-insert_header name n v hs in
      elim (Bool-cases (text_eq n name)) [
        | inl at ↦
            let apart : text_eq m name ≡ false = rw (sym (text_eq_sound n name at)) other in
            ground (arith, other, apart, at, ih)
        | inr off ↦ ground (arith, other, off, ih)
      ]
]

collected :
    (name : Text) (acc hs : Headers)
    → get_header name (collect_headers acc hs) ≡ (
        if is_withheld (to_lowercase name)
        then get_header name acc
        else or_else (last_header name hs) (get_header name acc))
unfolding collect_headers
collected name acc [] = elim (Bool-cases (is_withheld (to_lowercase name))) [
  | inl e ↦ rw e refl
  | inr e ↦ rw e refl
]
collected name acc ((n, v) ∷ hs) = elim (Bool-cases (is_withheld (to_lowercase n))) [
  | inl gone ↦
      let ih = collected name acc hs in
      elim (Bool-cases (text_eq n name)) [
        | inl same ↦
            let alike : is_withheld (to_lowercase n) ≡ is_withheld (to_lowercase name) =
              ap (λ s. is_withheld (to_lowercase s)) (text_eq_sound n name same) in
            ground (arith, gone, alike, ih)
        | inr other ↦ ground (arith, gone, other, ih)
      ]
  | inr stays ↦
      let ih = collected name (insert_header n v acc) hs in
      let put = get_header-insert_header name n v acc in
      elim (Bool-cases (text_eq n name)) [
        | inl same ↦
            let alike : is_withheld (to_lowercase n) ≡ is_withheld (to_lowercase name) =
              ap (λ s. is_withheld (to_lowercase s)) (text_eq_sound n name same) in
            ground (arith, stays, same, alike, put, ih)
        | inr other ↦ ground (arith, stays, other, put, ih)
      ]
]

-- What a name finds among the headers that come back.
abbrev pub found_below : Headers → Text → Option Text
found_below headers name =
    if is_withheld (to_lowercase name) then none else last_header name headers

-- The hop-by-hop headers and `set-cookie` of the upstream's response never come back; any other
-- name finds the last of its values.
pub get_header-collect_headers :
    (headers : Headers) (name : Text)
    → get_header name (collect_headers [] headers) ≡ found_below headers name
unfolding get_header
get_header-collect_headers headers name =
    collected name [] headers ∙ elim (Bool-cases (is_withheld (to_lowercase name))) [
      | inl e ↦ rw e refl
      | inr e ↦ rw e (or_else-none (last_header name headers))
    ]
