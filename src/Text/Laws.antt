-- ===== src/Text/Laws.antt =====
-- Equality, prefixes and suffixes of byte strings.
use relaykey_backend.Base.{
  ℕ, suc, ◌≡◌, refl, ap, ◌↔◌, inl, inr, true, false, [], ◌∷◌, ◌++◌, some, arith, length,
  length-append, drop, Bool-cases, Option-cases,
}
use relaykey_backend.Text.{Text, text_eq, starts_with, strip_suffix}

pub text_eq_sound : (s t : Text) → text_eq s t ≡ true → s ≡ t
unfolding text_eq
text_eq_sound [] [] h = refl
text_eq_sound (c ∷ s) (d ∷ t) h = ground (arith, text_eq_sound s t)
text_eq_sound [] (_ ∷ _) h = cc
text_eq_sound (_ ∷ _) [] h = cc

pub text_eq_refl : (s : Text) → text_eq s s ≡ true
unfolding text_eq
text_eq_refl [] = refl
text_eq_refl (c ∷ s) = ground (arith, text_eq_refl s)

pub text_eq_iff : (s t : Text) → (text_eq s t ≡ true) ↔ (s ≡ t)
text_eq_iff s t = (text_eq_sound s t, λ e. rw e (text_eq_refl t))

pub text_eq_ne : (s t : Text) → ¬ (s ≡ t) → text_eq s t ≡ false
text_eq_ne s t h = elim (Bool-cases (text_eq s t)) [
  | inl e ↦ absurd (h (text_eq_sound s t e))
  | inr e ↦ e
]

pub starts_with_sound : (p s : Text) → starts_with p s ≡ true → s ≡ p ++ drop (length p) s
unfolding starts_with
starts_with_sound [] s h = refl
starts_with_sound (c ∷ p) [] h = cc
starts_with_sound (c ∷ p) (d ∷ s) h = ground (arith, starts_with_sound p s)

pub starts_with-append : (p s : Text) → starts_with p (p ++ s) ≡ true
unfolding starts_with
starts_with-append [] s = refl
starts_with-append (c ∷ p) s = ground (arith, starts_with-append p s)

pub strip_suffix_sound : (t s p : Text) → strip_suffix t s ≡ some p → s ≡ p ++ t
unfolding strip_suffix
strip_suffix_sound t [] p h = ground (arith, text_eq_sound [] t)
strip_suffix_sound t (c ∷ s) p h = elim (Bool-cases (text_eq (c ∷ s) t)) [
  | inl e ↦ ground (arith, text_eq_sound (c ∷ s) t)
  | inr e ↦ elim (Option-cases (strip_suffix t s)) [
    | inl missed ↦ ground arith
    | inr (q, found) ↦ ground (arith, strip_suffix_sound t s q)
  ]
]

pub strip_suffix-append : (t p : Text) → strip_suffix t (p ++ t) ≡ some p
unfolding strip_suffix
strip_suffix-append [] [] = refl
strip_suffix-append (c ∷ t) [] = ground (arith, text_eq_refl (c ∷ t))
strip_suffix-append t (c ∷ p) =
    ground (
      arith,
      text_eq_ne (c ∷ (p ++ t)) t (λ e. longer c p t (ap length e)),
      strip_suffix-append t p,
    )
  where
    longer : (c : ℕ) (p t : Text) → suc (length (p ++ t)) ≡ length t → ⊥
    longer c p t e = omega (arith, length-append {0} p t)
