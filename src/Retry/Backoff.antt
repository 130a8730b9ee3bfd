-- ===== src/Retry/Backoff.antt =====
-- crates/relaykey_app/src/proxy.rs, `backoff_ms`: the backoff between attempts doubles.
use relaykey_backend.Base.{ℕ, suc, ◌-◌, ◌*◌, ◌^◌, ◌≤◌, min, ◌≡◌, arith}
use relaykey_backend.Retry.{backoff_ms, checked_shl_one, unwrap_or, saturating_mul, u64_max}

-- The capped, saturating product is the plain one under the cap, for a cap that is a u64.
backoff_ms_formula :
    (attempt base cap : ℕ)
    → cap ≤ u64_max
    → backoff_ms attempt base cap ≡ min (base * 2 ^ min (attempt - 1) 10) cap
unfolding backoff_ms checked_shl_one unwrap_or saturating_mul
backoff_ms_formula attempt base cap h = ground arith

twice : (base k : ℕ) → base * 2 ^ suc k ≡ 2 * (base * 2 ^ k)
twice base k = grind arith

doubled :
    (attempt base cap : ℕ)
    → cap ≤ u64_max
    → 1 ≤ attempt
    → attempt ≤ 10
    → backoff_ms (suc attempt) base cap ≡ min (2 * backoff_ms attempt base cap) cap
doubled attempt base cap h low high =
    let now : min (attempt - 1) 10 ≡ attempt - 1 = omega arith in
    let next : min (suc attempt - 1) 10 ≡ suc (attempt - 1) = omega arith in
    rw
      (
        backoff_ms_formula attempt base cap h,
        backoff_ms_formula (suc attempt) base cap h,
        now,
        next,
      )
      (omega (arith, twice base (attempt - 1)))

level :
    (attempt base cap : ℕ)
    → cap ≤ u64_max
    → 11 ≤ attempt
    → backoff_ms (suc attempt) base cap ≡ backoff_ms attempt base cap
level attempt base cap h high =
    let now : min (attempt - 1) 10 ≡ 10 = omega arith in
    let next : min (suc attempt - 1) 10 ≡ 10 = omega arith in
    rw (
      backoff_ms_formula attempt base cap h,
      backoff_ms_formula (suc attempt) base cap h,
      now,
      next,
    )

-- For a cap that is a u64, the backoff of the first attempt is the base, or the cap where that is
-- less; from each of the first ten attempts to the next it doubles, up to the cap; from the eleventh
-- on it stays as it is; and it never exceeds the cap.
pub backoff_ms_doubles :
    (base cap : ℕ)
    → cap ≤ u64_max
    → (backoff_ms 1 base cap ≡ min base cap)
      × ((attempt : ℕ)
          → 1 ≤ attempt
          → attempt ≤ 10
          → backoff_ms (suc attempt) base cap ≡ min (2 * backoff_ms attempt base cap) cap)
      × ((attempt : ℕ)
          → 11 ≤ attempt
          → backoff_ms (suc attempt) base cap ≡ backoff_ms attempt base cap)
      × ((attempt : ℕ) → backoff_ms attempt base cap ≤ cap)
backoff_ms_doubles base cap h = (
  rw (backoff_ms_formula 1 base cap h) (omega arith),
  λ attempt low high. doubled attempt base cap h low high,
  λ attempt high. level attempt base cap h high,
  λ attempt. rw (backoff_ms_formula attempt base cap h) (omega arith),
)
