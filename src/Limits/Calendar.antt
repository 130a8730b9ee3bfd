-- ===== src/Limits/Calendar.antt =====
-- crates/relaykey_app/src/limits/mod.rs: the month of a quota and the seconds until its end. The
-- `time` crate's calendar is a parameter, and so is its clock.
pub mod Months
use relaykey_backend.Base.{
  ℕ, zero, suc, ◌+◌, ◌-◌, ◌/◌, ◌%◌, ltb, ◌==◌, List, [], ◌∷◌, ◌++◌, length, if◌then◌else◌,
}
use relaykey_backend.Base.Int.{ℤ, pos}
use relaykey_backend.Text.{Text, text}
use relaykey_backend.Limits.{Scripts, max_ℤ}

-- `OffsetDateTime`: its year and month (from 1 to 12), and the whole seconds from it to midnight of
-- the first day of a month.
pub record Calendar (T : Type 0) : Type 0 where
  pub year : T → ℕ
  pub month : T → ℕ
  pub whole_seconds_until : (year month : ℕ) → T → ℤ

-- Decimal digits, the least significant last; one unit of fuel for each digit but the first.
unfoldable pub digits : ℕ → ℕ → Text → Text
digits zero n rest = (b'0' + n) ∷ rest
digits (suc fuel) n rest =
    let more = digits fuel (n / 10) ((b'0' + n % 10) ∷ rest) in
    if ltb n 10 then (b'0' + n) ∷ rest else more

unfoldable pub zeros : ℕ → Text
zeros zero = []
zeros (suc n) = b'0' ∷ zeros n

-- `format!("{:0width$}", n)`
unfoldable pub padded : ℕ → ℕ → Text
unfolding digits zeros
padded width n = let s = digits n n [] in zeros (width - length s) ++ s

unfoldable pub next_month : ℕ → ℕ → ℕ × ℕ
next_month year month = if month == 12 then (year + 1, 1) else (year, month + 1)

module _ {T : Type 0} (calendar : Calendar T) where
  unfoldable pub yyyymm_utc : T → Text
  unfolding padded
  yyyymm_utc now = padded 4 (calendar.year now) ++ padded 2 (calendar.month now)

  unfoldable pub seconds_until_next_month_utc : T → ℤ
  unfolding next_month max_ℤ
  seconds_until_next_month_utc now =
      let (ny, nm) = next_month (calendar.year now) (calendar.month now) in
      max_ℤ (calendar.whole_seconds_until ny nm now) (pos 60)

  -- The scripts with these two, each of which reads the clock.
  unfoldable pub with_calendar : {S : Type 0} → (S → T × S) → Scripts S → Scripts S
  unfolding yyyymm_utc seconds_until_next_month_utc
  with_calendar now_utc redis = record redis {
    yyyymm_utc = λ s. let (now, s') = now_utc s in (yyyymm_utc now, s');
    seconds_until_next_month_utc =
        λ s. let (now, s') = now_utc s in (seconds_until_next_month_utc now, s');
  }
