-- ===== src/Proxy/Paths/Agreement.antt =====
-- The matcher of the handler against the matcher of the allowlist middleware.

use relaykey_backend.Base.{
  ℕ, ◌≡◌, refl, sym, ap, ◌∙◌, ◌⊎◌, inl, inr, Bool, true, false, List, [], ◌∷◌, ◌++◌, append_assoc,
  append-nil, none, some, ◌||◌, ◌&&◌, or-eq-true, arith, length, length-append, drop, any, not-both,
  Option-cases, Bool-cases, ◌==◌, get_elem?,
}
use relaykey_backend.Text.{Text, text, text_eq, starts_with, strip_suffix, contains}
use relaykey_backend.Text.Laws.{
  text_eq_sound, text_eq_refl, starts_with_sound, starts_with-append, strip_suffix_sound,
  strip_suffix-append,
}
use relaykey_backend.Policies.Allowlist.{matches}
use relaykey_backend.Policies.Allowlist.Matching.{Under, Under-test, Under-test_complete}
use relaykey_backend.Proxy.Paths.{match_one, normalize_path, byte_is, pieces, path_allowed}
use relaykey_backend.Proxy.Paths.Wildcard.{pieces_from_iff, InOrder-pieces}

contains-append : (c : ℕ) (s t : Text) → contains c t ≡ true → contains c (s ++ t) ≡ true
unfolding contains
contains-append c [] t h = h
contains-append c (d ∷ s) t h = ground (arith, contains-append c s t h)

star : contains b'*' (text "/*") ≡ true
unfolding contains text
star = refl

get_elem?-append : (s t : Text) → get_elem? (s ++ t) (length s) ≡ get_elem? t 0
get_elem?-append [] t = refl
get_elem?-append (c ∷ s) t = get_elem?-append s t

-- The handler's test of a prefix.
abbrev prefix_test : Text → Text → Bool
prefix_test prefix path =
    starts_with prefix path && (length path == length prefix || byte_is b'/' path (length prefix))

byte_is-append : (c : ℕ) (s t : Text) → byte_is c (s ++ t) (length s) ≡ byte_is c t 0
unfolding byte_is
byte_is-append c s t = ground (arith, get_elem?-append s t)

byte_is_slash : (rest : Text) → byte_is b'/' (text "/" ++ rest) 0 ≡ true
unfolding byte_is text
byte_is_slash rest = refl

at_slash : (t : Text) → byte_is b'/' t 0 ≡ true → t ≡ text "/" ++ drop 1 t
unfolding byte_is text
at_slash [] h = cc
at_slash (c ∷ t) h = ground arith

nil_of_length : (t : Text) → length t ≡ 0 → t ≡ []
nil_of_length [] h = refl
nil_of_length (c ∷ t) h = absurd (omega arith)

prefix_test_complete : (prefix path : Text) → Under prefix path → prefix_test prefix path ≡ true
prefix_test_complete prefix path (inl e) =
    let h : starts_with prefix prefix ≡ true = rw append-nil at (starts_with-append prefix []) in
    rw (e, h) (ground arith)
prefix_test_complete prefix path (inr (rest, e)) =
    let f : path ≡ prefix ++ (text "/" ++ rest) = e ∙ append_assoc prefix (text "/") rest in
    rw
      (
        f,
        starts_with-append prefix (text "/" ++ rest),
        byte_is-append b'/' prefix (text "/" ++ rest),
        byte_is_slash rest,
      )
      (ground arith)

prefix_test_sound : (prefix path : Text) → prefix_test prefix path ≡ true → Under prefix path
prefix_test_sound prefix path h =
    let opens : starts_with prefix path ≡ true = ground arith in
    let rest : Text = drop (length prefix) path in
    let e : path ≡ prefix ++ rest = starts_with_sound prefix path opens in
    elim (Bool-cases (length path == length prefix)) [
      | inl same ↦
          let shut : rest ≡ [] =
            nil_of_length rest (ground (arith, length-append {0} prefix rest, ap length e)) in
          inl (e ∙ ap (λ (r : Text). prefix ++ r) shut ∙ append-nil prefix)
      | inr longer ↦
          let slash : byte_is b'/' path (length prefix) ≡ true = ground arith in
          let f : rest ≡ text "/" ++ drop 1 rest = at_slash rest (
            sym (byte_is-append b'/' prefix rest)
            ∙ ap (λ (p : Text). byte_is b'/' p (length prefix)) (sym e)
            ∙ slash) in
          inr (
            drop 1 rest,
            e
                ∙ ap (λ (r : Text). prefix ++ r) f
                ∙ sym (append_assoc prefix (text "/") (drop 1 rest)),
          )
    ]

-- The paths that the handler forwards start with a slash.
abbrev pub IsRooted : Text → Type 0
IsRooted path = starts_with (text "/") path ≡ true

bool_ext : (a b : Bool) → (a ≡ true → b ≡ true) → (b ≡ true → a ≡ true) → a ≡ b
bool_ext true b h k = sym (h refl)
bool_ext false true h k = k refl
bool_ext false false h k = refl

has_star :
    (pattern prefix : Text)
    → strip_suffix (text "/*") pattern ≡ some prefix
    → contains b'*' pattern ≡ true
has_star pattern prefix e =
    rw (strip_suffix_sound (text "/*") pattern prefix e)
      (contains-append b'*' prefix (text "/*") star)

-- On a directory pattern both matchers test for the same paths.
same_on_directory :
    (pattern prefix path : Text)
    → IsRooted path
    → strip_suffix (text "/*") pattern ≡ some prefix
    → match_one pattern path ≡ matches pattern path
unfolding match_one normalize_path matches
same_on_directory pattern prefix path rooted e =
    rw (has_star pattern prefix e, e, rooted, match_one, matches)
      (bool_ext _ _ (λ h. Under-test_complete prefix path (prefix_test_sound prefix path h))
        (λ h. prefix_test_complete prefix path (Under-test prefix path h)))

no_directory :
    (pattern : Text) → contains b'*' pattern ≡ false → strip_suffix (text "/*") pattern ≡ none
no_directory pattern h = elim (Option-cases (strip_suffix (text "/*") pattern)) [
  | inl e ↦ e
  | inr (prefix, e) ↦ absurd (not-both _ (has_star pattern prefix e) h)
]

text_eq_comm : (s t : Text) → text_eq s t ≡ text_eq t s
text_eq_comm s t =
    bool_ext _ _ (λ h. rw (text_eq_sound s t h) (text_eq_refl t))
      (λ h. rw (text_eq_sound t s h) (text_eq_refl s))

-- A pattern without a star, or ending in "/*".
abbrev pub IsSimple : Text → Type 0
IsSimple pattern =
    (contains b'*' pattern ≡ false) ⊎ ((prefix : Text) × (pattern ≡ prefix ++ text "/*"))

-- On patterns without a star and on directory patterns, handler and middleware give the same
-- answer for every path that starts with a slash.
pub match_one-eq-matches :
    (pattern path : Text)
    → IsSimple pattern
    → IsRooted path
    → match_one pattern path ≡ matches pattern path
unfolding match_one normalize_path matches
match_one-eq-matches pattern path (inl plain) rooted =
    rw (plain, no_directory pattern plain, rooted, match_one, matches) (text_eq_comm pattern path)
match_one-eq-matches pattern path (inr (prefix, e)) rooted =
    same_on_directory pattern prefix path rooted (rw e (strip_suffix-append (text "/*") prefix))

-- Whatever the pattern, a path that starts with a slash and that the middleware accepts is
-- accepted by the handler.
pub matches-match_one :
    (pattern path : Text)
    → IsRooted path
    → matches pattern path ≡ true
    → match_one pattern path ≡ true
unfolding match_one normalize_path matches
matches-match_one pattern path rooted h = elim (Option-cases (strip_suffix (text "/*") pattern)) [
  | inr (prefix, e) ↦ same_on_directory pattern prefix path rooted e ∙ h
  | inl e ↦
      let same : path ≡ pattern = text_eq_sound path pattern (rw (e, matches) at h) in
      elim (Bool-cases (contains b'*' pattern)) [
        | inl starred ↦
            rw (starred, e, rooted, match_one)
              ((pieces_from_iff (pieces pattern) path).1 (rw same (InOrder-pieces pattern)))
        | inr plain ↦ rw (plain, rooted, match_one) (rw same (text_eq_refl pattern))
      ]
]

any_mono :
    (patterns : List Text) (path : Text)
    → IsRooted path
    → any (λ pat. matches pat path) patterns ≡ true
    → any (λ pat. match_one pat path) patterns ≡ true
any_mono [] path rooted h = h
any_mono (p ∷ ps) path rooted h = elim (or-eq-true _ _ h) [
  | inl here ↦ let e = matches-match_one p path rooted here in ground arith
  | inr later ↦ let e = any_mono ps path rooted later in ground arith
]

-- A path that the middleware lets through is let through by the handler, for any allowlist.
pub matches-path_allowed :
    (patterns : List Text) (path : Text)
    → IsRooted path
    → any (λ pat. matches pat path) patterns ≡ true
    → path_allowed patterns path ≡ true
unfolding path_allowed
matches-path_allowed [] path rooted h = refl
matches-path_allowed (p ∷ ps) path rooted h = any_mono (p ∷ ps) path rooted h
