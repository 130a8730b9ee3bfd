-- ===== src/Retry/Budget/Counting.antt =====
-- The retry budget, over a Redis whose counters count.
use relaykey_backend.Base.{
  ℕ, zero, suc, ◌+◌, ◌-◌, min, ◌≡◌, ◌≢◌, sym, ap, Bool, true, false, not, ◌&&◌, Option, none, some,
  if◌then◌else◌, arith, ltb, get_or,
}
use relaykey_backend.Base.Int.{ℤ, pos, ◌-ℤ◌, leb_ℤ}
use relaykey_backend.Text.{Text, text}
use relaykey_backend.World.{Outside}
use relaykey_backend.Retry.Budget.{
  RetryBudgets, partner_key, vk_key, take_one_with_ttl, allow_retry_dual_budget,
}

-- The two counters of a retry are never the same key.
pub partner_key-ne-vk_key : (partner_name vk_id : Text) → partner_key partner_name ≢ vk_key vk_id
unfolding partner_key vk_key text
partner_key-ne-vk_key partner_name vk_id e =
    let letter : ◌≡◌ {A = ℕ} b'p' b'v' = ap (λ (s : Text). get_or s 16 0) e in absurd (omega arith)

module _ {S : Type 0} (o : Outside S) (counter : Text → S → ℕ) where
  -- What Redis documents of INCR and EXPIRE, for a counter that has not expired.
  pub record IsCounting : Type 0 where
    pub incr_value :
        (k : Text) (s : S) (n : ℤ) → (o.incr k s).0 ≡ some n → n ≡ pos (counter k s + 1)
    pub incr_self :
        (k : Text) (s : S) (n : ℤ)
        → (o.incr k s).0 ≡ some n
        → counter k (o.incr k s).1 ≡ counter k s + 1
    pub incr_other : (j k : Text) (s : S) → j ≢ k → counter j (o.incr k s).1 ≡ counter j s
    pub expire_keeps : (j k : Text) (ttl : ℕ) (s : S) → counter j (o.expire k ttl s).1 ≡ counter j s
    pub connect_keeps : (j : Text) (s : S) → counter j (o.connect s).1 ≡ counter j s

  -- Redis answers.
  pub record IsUp : Type 0 where
    pub connects : (s : S) → (o.connect s).0 ≡ true
    pub counts : (k : Text) (s : S) → (n : ℤ) × ((o.incr k s).0 ≡ some n)
    pub expires : (k : Text) (ttl : ℕ) (s : S) → (o.expire k ttl s).0 ≡ true

  module _ (redis : IsCounting) (up : IsUp) where
    -- One take: what is left, and one more on its counter alone.
    take_lem :
        (key : Text) (limit ttl : ℕ) (s : S)
        → ((take_one_with_ttl o key limit ttl s).0 ≡ some (pos limit -ℤ pos (counter key s + 1)))
          × (counter key (take_one_with_ttl o key limit ttl s).1 ≡ counter key s + 1)
          × ((j : Text) → j ≢ key → counter j (take_one_with_ttl o key limit ttl s).1 ≡ counter j s)
    unfolding take_one_with_ttl
    take_lem key limit ttl s =
        let (n, e) = up.counts key s in
        let value = redis.incr_value key s n e in
        let self = redis.incr_self key s n e in
        let done = up.expires key ttl (o.incr key s).1 in
        let kept = redis.expire_keeps key key ttl (o.incr key s).1 in
        (
          ground (arith, e, value, done),
          ground (arith, e, self, kept),
          λ j other. ground (
            arith,
            e,
            redis.incr_other j key s other,
            redis.expire_keeps j key ttl (o.incr key s).1,
          ),
        )

    -- With a Redis that answers and counts, one decision is allowed exactly when both counters are
    -- below their budgets, and both counters count it, also when it is refused.
    decision_lem :
        (budgets : RetryBudgets) (partner_name vk_id : Text) (s : S)
        → ((allow_retry_dual_budget o budgets partner_name vk_id s).0.allowed ≡ (
            ltb (counter (partner_key partner_name) s) budgets.partner_retries_per_min
            && ltb (counter (vk_key vk_id) s) budgets.vk_retries_per_min))
          × (counter
                (partner_key partner_name)
                (allow_retry_dual_budget o budgets partner_name vk_id s).1
              ≡ counter (partner_key partner_name) s + 1)
          × (counter (vk_key vk_id) (allow_retry_dual_budget o budgets partner_name vk_id s).1
              ≡ counter (vk_key vk_id) s + 1)
    unfolding allow_retry_dual_budget ◌-ℤ◌
    decision_lem budgets partner_name vk_id s =
        let p : Text = partner_key partner_name in
        let v : Text = vk_key vk_id in
        let s1 : S = (o.connect s).1 in
        let first = take_lem p budgets.partner_retries_per_min 60 s1 in
        let s2 : S = (take_one_with_ttl o p budgets.partner_retries_per_min 60 s1).1 in
        let second = take_lem v budgets.vk_retries_per_min 60 s2 in
        let apart : v ≢ p = λ e. partner_key-ne-vk_key partner_name vk_id (sym e) in
        let facts = up.connects s in
        (
          ground (
            arith,
            facts,
            first.0,
            second.0,
            first.2 v apart,
            redis.connect_keeps p s,
            redis.connect_keeps v s,
          ),
          ground (
            arith,
            facts,
            first.0,
            second.0,
            first.1,
            second.2 p (partner_key-ne-vk_key partner_name vk_id),
            redis.connect_keeps p s,
          ),
          ground
              (arith, facts, first.0, second.0, first.2 v apart, second.1, redis.connect_keeps v s),
        )

    -- How many of `n` decisions in a row, for one partner and one virtual key, allow a retry.
    pub granted : RetryBudgets → Text → Text → ℕ → S → ℕ
    granted budgets partner_name vk_id zero s = 0
    granted budgets partner_name vk_id (suc n) s =
        let (d, s') = allow_retry_dual_budget o budgets partner_name vk_id s in
        let later = granted budgets partner_name vk_id n s' in
        if d.allowed then suc later else later

    -- With a Redis that answers and counts, within one window the retries granted are the calls
    -- made, up to what the tighter of the two budgets has left.
    pub granted_lem :
        (budgets : RetryBudgets) (partner_name vk_id : Text) (n : ℕ) (s : S)
        → granted budgets partner_name vk_id n s
          ≡ min n (
              min
                (budgets.partner_retries_per_min - counter (partner_key partner_name) s)
                (budgets.vk_retries_per_min - counter (vk_key vk_id) s))
    unfolding granted
    granted_lem budgets partner_name vk_id zero s = omega arith
    granted_lem budgets partner_name vk_id (suc n) s = ground (
      arith,
      decision_lem budgets partner_name vk_id s,
      granted_lem budgets partner_name vk_id n
          (allow_retry_dual_budget o budgets partner_name vk_id s).1,
    )

-- Both counters were read, and one of them is overdrawn.
abbrev pub is_spent : Option ℤ → Option ℤ → Bool
is_spent none v = false
is_spent (some p) none = false
is_spent (some p) (some v) = not (leb_ℤ (pos 0) p && leb_ℤ (pos 0) v)

-- Whatever Redis does, a retry is refused exactly when both counters were read and one of them is
-- overdrawn: on any error the decision is to allow.
pub refused_iff_spent :
    {S : Type 0} (o : Outside S) (budgets : RetryBudgets) (partner_name vk_id : Text) (s : S)
    → let d = (allow_retry_dual_budget o budgets partner_name vk_id s).0 in
      d.allowed ≡ not (is_spent d.partner_remaining d.vk_remaining)
unfolding allow_retry_dual_budget
refused_iff_spent o budgets partner_name vk_id s = ground arith
