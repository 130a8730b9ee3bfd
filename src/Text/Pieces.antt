-- ===== src/Text/Pieces.antt =====
-- `find`: a hit splits the text, and the first hit is not after any other.

use relaykey_backend.Base.{
  ℕ, zero, suc, ◌≤◌, ◌≡◌, refl, ap, inl, inr, [], ◌∷◌, ◌++◌, some, arith, length, drop, take,
  Bool-cases, Option-cases,
}
use relaykey_backend.Text.{Text, starts_with, find}
use relaykey_backend.Text.Laws.{starts_with_sound, starts_with-append}

-- What stands in front of a hit, and what stands behind it.
pub find_sound :
    (t s : Text) (k : ℕ) → find t s ≡ some k → s ≡ take k s ++ t ++ drop (length t) (drop k s)
unfolding find
find_sound t [] k h = elim (Bool-cases (starts_with t [])) [
  | inl e ↦ let z : zero ≡ k = ground arith in rw (← z) (starts_with_sound t [] e)
  | inr e ↦ absurd (ground arith)
]
find_sound t (c ∷ s) k h = elim (Bool-cases (starts_with t (c ∷ s))) [
  | inl e ↦ let z : zero ≡ k = ground arith in rw (← z) (starts_with_sound t (c ∷ s) e)
  | inr e ↦ elim (Option-cases (find t s)) [
    | inl missed ↦ absurd (ground arith)
    | inr (j, found) ↦
        let z : suc j ≡ k = ground arith in
        rw (← z) (ap (λ (r : Text). c ∷ r) (find_sound t s j found))
  ]
]

-- A text that holds `t` behind a gap is searched with success, at most that far.
pub find-append :
    (t gap rest : Text) → (k : ℕ) × (find t (gap ++ t ++ rest) ≡ some k) × (k ≤ length gap)
unfolding find
find-append [] [] [] = (0, refl, omega arith)
find-append [] [] (d ∷ rest) = (0, ground arith, omega arith)
find-append (c ∷ t) [] rest = (0, ground (arith, starts_with-append (c ∷ t) rest), omega arith)
find-append t (d ∷ gap) rest = elim (Bool-cases (starts_with t (d ∷ (gap ++ t ++ rest)))) [
  | inl e ↦ (0, ground arith, omega arith)
  | inr e ↦ let (j, found, near) = find-append t gap rest in (suc j, ground arith, omega arith)
]
