-- ===== src/Limits/Bucket/Tokens.antt =====
-- crates/relaykey_app/src/limits/mod.rs: the arithmetic of the bucket's script, in natural numbers.
use relaykey_backend.Base.{
  ℕ, suc, ◌+◌, ◌-◌, ◌*◌, ◌≤◌, min, ◌≡◌, inl, inr, Bool, true, false, some, none, arith,
  if◌then◌else◌, leb, Bool-cases,
}
use relaykey_backend.Base.Int.{pos, ◌+ℤ◌, ◌-ℤ◌, ◌*ℤ◌}
use relaykey_backend.Retry.{unwrap_or}
use relaykey_backend.Limits.{max_ℤ, min_ℤ, refill, take_token}

pub refill_lem :
    (now rate cap t l : ℕ)
    → refill (pos now) (pos rate) (pos cap) (some (pos t)) (some (pos l))
      ≡ pos (min (1000 * cap) (t + (now - l) * rate))
unfolding refill max_ℤ min_ℤ unwrap_or ◌+ℤ◌ ◌-ℤ◌ ◌*ℤ◌
refill_lem now rate cap t l = ground arith

pub refill-none :
    (now rate cap : ℕ) → refill (pos now) (pos rate) (pos cap) none none ≡ pos (1000 * cap)
unfolding refill max_ℤ min_ℤ unwrap_or ◌+ℤ◌ ◌-ℤ◌ ◌*ℤ◌
refill-none now rate cap = ground arith

abbrev pub cost : Bool → ℕ
cost true = 1000
cost false = 0

-- What is allowed is paid for.
pub take_token_paid :
    (f : ℕ)
    → (left : ℕ) × ((take_token (pos f)).1 ≡ pos left) × (cost (take_token (pos f)).0 + left ≤ f)
unfolding take_token ◌-ℤ◌
take_token_paid f = elim (Bool-cases (leb 1000 f)) [
  | inl e ↦ (f - 1000, ground (arith, e), ground (arith, e))
  | inr e ↦ (f, ground (arith, e), ground (arith, e))
]

pub spread : (d e rate : ℕ) → (d + e) * rate ≡ d * rate + e * rate
spread d e rate = grind arith

pub counted : (b : Bool) (g : ℕ) → 1000 * (if b then suc g else g) ≡ cost b + 1000 * g
counted true g = omega arith
counted false g = omega arith

scaled : (a b rate : ℕ) → a ≤ b → a * rate ≤ b * rate
scaled a b rate h = grind arith

pub sum_up :
    (c c1 p g k1 k2 full d e t rate : ℕ)
    → p + c1 ≤ c + k1 * full + d * rate
    → 1000 * g ≤ c1 + k2 * full + e * rate
    → d + e ≤ t
    → p + 1000 * g ≤ c + (k1 + k2) * full + t * rate
sum_up c c1 p g k1 k2 full d e t rate paid later h =
    omega (arith, spread k1 k2 full, spread d e rate, scaled (d + e) t rate h)
