-- ===== src/Text/Trim.antt =====
-- `trim` on a text with no white space at its ends.
use relaykey_backend.Base.{ℕ, ◌≡◌, refl, sym, ap, ◌∙◌, false, [], ◌∷◌, ◌++◌}
use mathlib.Core.List.{reverse, reverse-append, reverse-reverse}
use relaykey_backend.Text.{Text, is_space, trim_start, trim}

trim_start-cons : (c : ℕ) (s : Text) → is_space c ≡ false → trim_start (c ∷ s) ≡ c ∷ s
unfolding trim_start
trim_start-cons c s h = rw (h, trim_start) refl

pub trim-tight :
    (c d : ℕ) (s : Text)
    → is_space c ≡ false
    → is_space d ≡ false
    → trim (c ∷ (s ++ (d ∷ []))) ≡ c ∷ (s ++ (d ∷ []))
unfolding trim
trim-tight c d s h k =
    ap (λ t. reverse (trim_start (reverse t))) (trim_start-cons c (s ++ (d ∷ [])) h)
    ∙ ap (λ t. reverse (trim_start t)) (reverse-append (c ∷ s) (d ∷ []))
    ∙ ap reverse (trim_start-cons d (reverse (c ∷ s)) k)
    ∙ ap reverse (sym (reverse-append (c ∷ s) (d ∷ [])))
    ∙ reverse-reverse (c ∷ (s ++ (d ∷ [])))
