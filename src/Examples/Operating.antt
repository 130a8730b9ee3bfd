-- ===== src/Examples/Operating.antt =====
-- The readiness probe, the seed program and the calendar at examples.
use relaykey_backend.Base.{ℕ, ◌≡◌, Option, none, some, [], arith}
use relaykey_backend.Base.Int.{pos}
use relaykey_backend.Text.{Text, text}
use relaykey_backend.Auth.{AuthState}
use relaykey_backend.Limits.Calendar.{Calendar, yyyymm_utc}
use relaykey_backend.Limits.Calendar.Months.{read_month, read_month-yyyymm_utc}
use relaykey_backend.App.Seed.{seed}
use relaykey_backend.App.Seed.Fails.{Failed, seed-Failed}
use relaykey_backend.Examples.Data.{outside, world}
use relaykey_backend.Examples.Access.{state}

abbrev connect_db : Text → ℕ → Option Text × ℕ
connect_db url s = (none, s)

abbrev salted : Text → AuthState
salted salt = record state { key_salt = salt }

abbrev new_v4 : ℕ → Text × ℕ
new_v4 s = (text "u1", s)

abbrev set_all : Text → Option Text
set_all name = some (text "x")

seed-Failed_example : Failed [] (
    seed outside connect_db salted new_v4
      (text "null value")
      set_all
      (text "not present")
      (world []))
seed-Failed_example =
    seed-Failed outside connect_db salted new_v4 (text "null value") set_all (text "not present")
      (world [])

abbrev calendar : Calendar (ℕ × ℕ)
calendar = record {
  year = λ t. t.0;
  month = λ t. t.1;
  whole_seconds_until = λ year month t. pos 100;
}

read_month-yyyymm_utc_example : read_month (yyyymm_utc calendar (2026, 3)) ≡ some (2026, 3)
read_month-yyyymm_utc_example = read_month-yyyymm_utc calendar (2026, 3) (omega arith) (omega arith)
