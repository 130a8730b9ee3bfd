-- ===== src/Policies/Allowlist/Matching.antt =====
-- What the patterns of the allowlist middleware match.
use relaykey_backend.Base.{
  ◌≡◌, ◌≢◌, ◌↔◌, ◌⊎◌, inl, inr, true, ◌++◌, ◌||◌, or-eq-true, arith, length, drop, Option-cases,
}
use relaykey_backend.Text.{Text, text, text_eq, starts_with, strip_suffix}
use relaykey_backend.Text.Laws.{
  text_eq_sound, text_eq_refl, starts_with_sound, starts_with-append, strip_suffix_sound,
  strip_suffix-append,
}
use relaykey_backend.Policies.Allowlist.{matches}

-- The path is the directory itself, or lies below it.
abbrev pub Under : Text → Text → Type 0
Under prefix path = (path ≡ prefix) ⊎ ((rest : Text) × (path ≡ prefix ++ text "/" ++ rest))

-- A pattern that ends in "/*" stands for its directory; any other stands for itself alone.
pub data Matches : Text → Text → Type 0 where
  directory :
      {pattern path : Text} (prefix : Text)
      → pattern ≡ prefix ++ text "/*"
      → Under prefix path
      → Matches pattern path
  itself :
      {pattern path : Text}
      → ((prefix : Text) → pattern ≢ prefix ++ text "/*")
      → path ≡ pattern
      → Matches pattern path

pub Under-test :
    (prefix path : Text)
    → (text_eq path prefix || starts_with (prefix ++ text "/") path) ≡ true
    → Under prefix path
Under-test prefix path h = elim (or-eq-true _ _ h) [
  | inl e ↦ inl (text_eq_sound path prefix e)
  | inr e ↦
      inr (drop (length (prefix ++ text "/")) path, starts_with_sound (prefix ++ text "/") path e)
]

pub Under-test_complete :
    (prefix path : Text)
    → Under prefix path
    → (text_eq path prefix || starts_with (prefix ++ text "/") path) ≡ true
Under-test_complete prefix path (inl e) = rw (e, text_eq_refl prefix)
Under-test_complete prefix path (inr (rest, e)) =
    let h : starts_with (prefix ++ text "/") path ≡ true =
      rw e (starts_with-append (prefix ++ text "/") rest) in
    ground arith

matches_sound : (pattern path : Text) → matches pattern path ≡ true → Matches pattern path
unfolding matches
matches_sound pattern path h = elim (Option-cases (strip_suffix (text "/*") pattern)) [
  | inl e ↦
      itself (λ prefix f. absurd (cc (e, f, strip_suffix-append (text "/*") prefix)))
        (text_eq_sound path pattern (rw (e, matches) at h))
  | inr (prefix, e) ↦
      directory prefix (strip_suffix_sound (text "/*") pattern prefix e)
        (Under-test prefix path (rw (e, matches) at h))
]

matches_complete : {pattern path : Text} → Matches pattern path → matches pattern path ≡ true
unfolding matches
matches_complete {path} (directory prefix e under) =
    rw (e, matches, strip_suffix-append (text "/*") prefix) (Under-test_complete prefix path under)
matches_complete {pattern} {path} (itself alone e) =
    elim (Option-cases (strip_suffix (text "/*") pattern)) [
      | inl f ↦ rw (f, matches) (rw e (text_eq_refl pattern))
      | inr (prefix, f) ↦ absurd (alone prefix (strip_suffix_sound (text "/*") pattern prefix f))
    ]

-- The middleware's matcher accepts a path exactly when the pattern ends in "/*" and the path is
-- its directory or lies below it, or the pattern ends otherwise and is the path.
pub matches_iff : (pattern path : Text) → (matches pattern path ≡ true) ↔ Matches pattern path
matches_iff pattern path = (matches_sound pattern path, matches_complete)
