-- ===== src/Limits/Calendar/Months.antt =====
-- The quota key's month can be read back.
use relaykey_backend.Base.{
  ℕ, zero, suc, ◌+◌, ◌-◌, ◌*◌, ◌/◌, ◌%◌, ◌<◌, ◌≤◌, ◌≡◌, refl, ap, ◌∙◌, ltb, length, [], ◌∷◌, ◌++◌,
  Option, none, some, arith, Bool-cases, inl, inr,
}
use relaykey_backend.Text.{Text}
use relaykey_backend.Limits.Calendar.{Calendar, digits, zeros, padded, yyyymm_utc}

digits_1 : (fuel n : ℕ) (rest : Text) → n < 10 → digits fuel n rest ≡ (b'0' + n) ∷ rest
unfolding digits
digits_1 zero n rest h = refl
digits_1 (suc fuel) n rest h = ground (arith, h)

digits_more :
    (fuel n : ℕ) (rest : Text)
    → 10 ≤ n
    → digits (suc fuel) n rest ≡ digits fuel (n / 10) ((b'0' + n % 10) ∷ rest)
unfolding digits
digits_more fuel n rest h = ground (arith, h)

digits_step :
    (fuel n : ℕ) (rest : Text)
    → 1 ≤ fuel
    → 10 ≤ n
    → digits fuel n rest ≡ digits (fuel - 1) (n / 10) ((b'0' + n % 10) ∷ rest)
digits_step zero n rest g h = absurd (omega arith)
digits_step (suc fuel) n rest g h =
    let e : fuel ≡ suc fuel - 1 = omega arith in
    digits_more fuel n rest h ∙ ap (λ f. digits f (n / 10) ((b'0' + n % 10) ∷ rest)) e

two_digits : (n : ℕ) → 10 ≤ n → n < 100 → digits n n [] ≡ (b'0' + n / 10) ∷ (b'0' + n % 10) ∷ []
two_digits n g h = digits_step n n [] (omega arith) g ∙ digits_1 (n - 1) (n / 10) _ (omega arith)

three_digits :
    (n : ℕ)
    → 100 ≤ n
    → n < 1000
    → digits n n [] ≡ (b'0' + n / 10 / 10) ∷ (b'0' + n / 10 % 10) ∷ (b'0' + n % 10) ∷ []
three_digits n g h =
    digits_step n n [] (omega arith) (omega arith)
    ∙ digits_step (n - 1) (n / 10) _ (omega arith) (omega arith)
    ∙ digits_1 (n - 1 - 1) (n / 10 / 10) _ (omega arith)

four_digits :
    (n : ℕ)
    → 1000 ≤ n
    → n < 10000
    → digits n n []
      ≡ (b'0' + n / 10 / 10 / 10)
        ∷ (b'0' + n / 10 / 10 % 10)
        ∷ (b'0' + n / 10 % 10)
        ∷ (b'0' + n % 10)
        ∷ []
four_digits n g h =
    digits_step n n [] (omega arith) (omega arith)
    ∙ digits_step (n - 1) (n / 10) _ (omega arith) (omega arith)
    ∙ digits_step (n - 1 - 1) (n / 10 / 10) _ (omega arith) (omega arith)
    ∙ digits_1 (n - 1 - 1 - 1) (n / 10 / 10 / 10) _ (omega arith)

-- The digits of a text of six, as a year and a month.
abbrev pub read_month : Text → Option (ℕ × ℕ)
read_month (a ∷ b ∷ c ∷ d ∷ e ∷ f ∷ []) = some (
  (a - b'0') * 1000 + (b - b'0') * 100 + (c - b'0') * 10 + (d - b'0'),
  (e - b'0') * 10 + (f - b'0'),
)
read_month _ = none

-- `padded` on the digits.
abbrev pad : ℕ → Text → Text
pad width s = zeros (width - length s) ++ s

padded_2 : (n : ℕ) → n < 100 → padded 2 n ≡ (b'0' + n / 10) ∷ (b'0' + n % 10) ∷ []
unfolding padded zeros
padded_2 n h = elim (Bool-cases (ltb n 10)) [
  | inl s ↦
      let p : b'0' ≡ b'0' + n / 10 = ground (arith, s) in
      let q : b'0' + n ≡ b'0' + n % 10 = ground (arith, s) in
      ap (pad 2) (digits_1 n n [] (ground (arith, s))) ∙ (λ i. p i ∷ q i ∷ [])
  | inr s ↦ ap (pad 2) (two_digits n (ground (arith, s)) h)
]

padded_4 :
    (n : ℕ)
    → n < 10000
    → padded 4 n
      ≡ (b'0' + n / 1000) ∷ (b'0' + n / 100 % 10) ∷ (b'0' + n / 10 % 10) ∷ (b'0' + n % 10) ∷ []
unfolding padded zeros
padded_4 n h = elim (Bool-cases (ltb n 10)) [
  | inl s ↦
      let p : b'0' ≡ b'0' + n / 1000 = ground (arith, s) in
      let q : b'0' ≡ b'0' + n / 100 % 10 = ground (arith, s) in
      let r : b'0' ≡ b'0' + n / 10 % 10 = ground (arith, s) in
      let t : b'0' + n ≡ b'0' + n % 10 = ground (arith, s) in
      ap (pad 4) (digits_1 n n [] (ground (arith, s))) ∙ (λ i. p i ∷ q i ∷ r i ∷ t i ∷ [])
  | inr s ↦ elim (Bool-cases (ltb n 100)) [
    | inl k ↦
        let p : b'0' ≡ b'0' + n / 1000 = ground (arith, k) in
        let q : b'0' ≡ b'0' + n / 100 % 10 = ground (arith, k) in
        let r : b'0' + n / 10 ≡ b'0' + n / 10 % 10 = ground (arith, k) in
        ap (pad 4) (two_digits n (ground (arith, s)) (ground (arith, k)))
        ∙ (λ i. p i ∷ q i ∷ r i ∷ (b'0' + n % 10) ∷ [])
    | inr k ↦ elim (Bool-cases (ltb n 1000)) [
      | inl l ↦
          let p : b'0' ≡ b'0' + n / 1000 = ground (arith, l) in
          let q : b'0' + n / 10 / 10 ≡ b'0' + n / 100 % 10 = ground (arith, l) in
          ap (pad 4) (three_digits n (ground (arith, k)) (ground (arith, l)))
          ∙ (λ i. p i ∷ q i ∷ (b'0' + n / 10 % 10) ∷ (b'0' + n % 10) ∷ [])
      | inr l ↦
          let p : b'0' + n / 10 / 10 / 10 ≡ b'0' + n / 1000 = omega arith in
          let q : b'0' + n / 10 / 10 % 10 ≡ b'0' + n / 100 % 10 = omega arith in
          ap (pad 4) (four_digits n (ground (arith, l)) h)
          ∙ (λ i. p i ∷ q i ∷ (b'0' + n / 10 % 10) ∷ (b'0' + n % 10) ∷ [])
    ]
  ]
]

-- From year 0 to year 9999 the six characters of the month in a quota key read back as the year and
-- the month, so the keys of two months differ.
pub read_month-yyyymm_utc :
    {T : Type 0} (calendar : Calendar T) (now : T)
    → calendar.year now < 10000
    → calendar.month now ≤ 12
    → read_month (yyyymm_utc calendar now) ≡ some (calendar.year now, calendar.month now)
unfolding yyyymm_utc
read_month-yyyymm_utc calendar now y m =
    let year = calendar.year now in
    let month = calendar.month now in
    let p : (b'0' + year / 1000 - b'0') * 1000
          + (b'0' + year / 100 % 10 - b'0') * 100
          + (b'0' + year / 10 % 10 - b'0') * 10
          + (b'0' + year % 10 - b'0')
        ≡ year =
      omega arith in
    let q : (b'0' + month / 10 - b'0') * 10 + (b'0' + month % 10 - b'0') ≡ month = omega arith in
    (λ i. read_month (padded_4 year y i ++ padded_2 month (omega arith) i)) ∙ (λ i. some (p i, q i))
