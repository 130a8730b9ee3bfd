-- ===== src/Limits/Bucket.antt =====
-- crates/relaykey_app/src/limits/mod.rs, `token_bucket_allow`: the token bucket bounds the requests in
-- any stretch of time. A bucket that Redis has let expire is full again.
mod Tokens
use relaykey_backend.Base.{
  ℕ, zero, suc, ◌+◌, ◌-◌, ◌*◌, ◌≤◌, ◌<◌, min, ◌≡◌, refl, ap, ◌∙◌, ◌⊎◌, inl, inr, Bool, true, false,
  Option, none, some, arith, if◌then◌else◌, leb, Bool-cases,
}
use relaykey_backend.Base.Int.{ℤ, pos, ◌+ℤ◌, ◌-ℤ◌, ◌*ℤ◌}
use relaykey_backend.Retry.{unwrap_or}
use relaykey_backend.Limits.Bucket.Tokens.{
  refill_lem, refill-none, cost, take_token_paid, spread, counted, sum_up,
}
use relaykey_backend.Limits.{
  Scripts, max_ℤ, min_ℤ, refill, take_token, rate_key, token_bucket_allow,
}

-- The lifetime of a bucket in milliseconds, as the script sets it.
abbrev pub week_ms : ℕ
week_ms = 604_800 * 1000

module _ {S : Type 0} (redis : Scripts S) (vk_id : ℕ) (wall time until : S → ℕ) where
  abbrev pub bucket : S → Option ℤ × Option ℤ
  bucket s = redis.hmget (rate_key redis.uuid_text vk_id) s

  -- Time has passed, in which the key may have expired, if its time was up.
  abbrev pub Later : S → S → Type 0
  Later s s' =
      (time s ≤ time s')
      × (((bucket s' ≡ bucket s) × (until s' ≡ until s))
          ⊎ ((bucket s' ≡ (none, none)) × (until s ≤ time s')))

  -- What Redis documents of HMGET, HMSET and EXPIRE on the key of the bucket, by its own clock `time`
  -- in milliseconds, which stands still within a script; `until` is when the key expires. Other
  -- commands come, and time passes, around the script only: while the system's clock `wall` is read,
  -- and while Redis is asked.
  pub record IsBucketStore : Type 0 where
    pub now_ms_value : (s : S) → (redis.now_ms s).0 ≡ pos (wall s)
    pub now_ms_later : (s : S) → Later s (redis.now_ms s).1
    pub reach_later : (s : S) → Later s (redis.reach s).1
    pub hmset_value :
        (tokens now : ℤ) (s : S)
        → bucket (redis.hmset (rate_key redis.uuid_text vk_id) tokens now s)
          ≡ (some tokens, some now)
    pub hmset_time :
        (tokens now : ℤ) (s : S)
        → time (redis.hmset (rate_key redis.uuid_text vk_id) tokens now s) ≡ time s
    pub expire_value :
        (ttl : ℕ) (s : S)
        → 0 < ttl
        → bucket (redis.expire (rate_key redis.uuid_text vk_id) (pos ttl) s) ≡ bucket s
    pub expire_time :
        (ttl : ℕ) (s : S)
        → time (redis.expire (rate_key redis.uuid_text vk_id) (pos ttl) s) ≡ time s
    pub expire_until :
        (ttl : ℕ) (s : S)
        → 0 < ttl
        → until (redis.expire (rate_key redis.uuid_text vk_id) (pos ttl) s) ≡ time s + ttl * 1000

  module _ (rate cap : ℕ) where
    abbrev pub ask : S → Option Bool × S
    ask s = token_bucket_allow redis vk_id (pos rate) (pos cap) s

    -- How many of `n` requests one after another the limiter allows.
    unfoldable pub granted : ℕ → S → ℕ
    granted zero s = 0
    granted (suc n) s =
        let later = granted n (ask s).1 in if unwrap_or (ask s).0 false then suc later else later

    -- The state after them.
    abbrev pub after : ℕ → S → S
    after zero s = s
    after (suc n) s = after n (ask s).1

    -- The time that passes on the system's clock, without any that it goes back.
    abbrev pub passed : ℕ → ℕ → S → ℕ
    passed last zero s = 0
    passed last (suc n) s = (wall s - last) + passed (wall s) n (ask s).1

    -- The bucket holds `c` thousandths of `l`, and `u` is when it may be full for nothing.
    abbrev Holds : S → ℕ → ℕ → ℕ → Type 0
    Holds s l c u =
        ((bucket s ≡ (none, none)) × (c ≡ 1000 * cap) × (u ≡ time s + week_ms))
        ⊎ ((bucket s ≡ (some (pos c), some (pos l))) × (u ≡ until s) × (u ≤ time s + week_ms))

    -- What waiting costs: `k` buckets that were lost.
    abbrev Waited : S → ℕ → ℕ → ℕ → Type 0
    Waited s l c u =
        (c' : ℕ) × (u' : ℕ) × (k : ℕ) × Holds s l c' u'
        × (c' ≤ c + k * (1000 * cap))
        × (k * week_ms + u ≤ u')

    Holds-Later : (s s' : S) (l c u : ℕ) → Later s s' → Holds s l c u → Waited s' l c u
    Holds-Later s s' l c u (mono, inl (same, keeps)) (inl (absent, full, due)) =
        (c, time s' + week_ms, 0, inl (same ∙ absent, full, refl), omega arith, omega arith)
    Holds-Later s s' l c u (mono, inl (same, keeps)) (inr (present, due, soon)) =
        (c, u, 0, inr (same ∙ present, omega arith, omega arith), omega arith, omega arith)
    Holds-Later s s' l c u (mono, inr (gone, over)) (inl (absent, full, due)) =
        (c, time s' + week_ms, 0, inl (gone, full, refl), omega arith, omega arith)
    Holds-Later s s' l c u (mono, inr (gone, over)) (inr (present, due, soon)) =
        (1000 * cap, time s' + week_ms, 1, inl (gone, refl, refl), omega arith, omega arith)

    module _ (store : IsBucketStore) where
      Waited-Later : (s s' : S) (l c u : ℕ) → Later s s' → Waited s l c u → Waited s' l c u
      Waited-Later s s' l c u later (c1, u1, k1, holds, paid, due) =
          let (c2, u2, k2, holds', paid', due') = Holds-Later s s' l c1 u1 later holds in
          (c2, u2, k1 + k2, holds', grind arith, grind arith)

      -- The state in which the script runs.
      abbrev asked : S → S
      asked s = (redis.reach (redis.now_ms s).1).1

      asked-Waited : (s : S) (l c u : ℕ) → Holds s l c u → Waited (asked s) l c u
      asked-Waited s l c u holds =
          Waited-Later (redis.now_ms s).1 (asked s) l c u (store.reach_later (redis.now_ms s).1)
            (Holds-Later s (redis.now_ms s).1 l c u (store.now_ms_later s) holds)

      refilled :
          (s : S) (l c u now : ℕ)
          → Holds s l c u
          → (f : ℕ) × (refill (pos now) (pos rate) (pos cap) (bucket s).0 (bucket s).1 ≡ pos f)
            × (f ≤ c + (now - l) * rate)
      refilled s l c u now (inl (absent, full, due)) =
          (1000 * cap, rw absent (refill-none now rate cap), omega arith)
      refilled s l c u now (inr (present, due, soon)) = (
        min (1000 * cap) (c + (now - l) * rate),
        rw present (refill_lem now rate cap c l),
        omega arith,
      )

      -- One run of the script, in the state `s`.
      abbrev ran : S → ℕ → Bool × ℤ → S
      ran s now taken =
          redis.expire (rate_key redis.uuid_text vk_id) (pos 604_800)
            (redis.hmset (rate_key redis.uuid_text vk_id) taken.1 (pos now) s)

      ran-Holds :
          (s : S) (now left : ℕ) (taken : Bool × ℤ)
          → taken.1 ≡ pos left
          → Holds (ran s now taken) now left (time s + week_ms)
      ran-Holds s now left taken e =
          let key = rate_key redis.uuid_text vk_id in
          let s1 : S = redis.hmset key taken.1 (pos now) s in
          let value = store.expire_value 604_800 s1 (omega arith) in
          let written = store.hmset_value taken.1 (pos now) s in
          inr (
            value ∙ written ∙ ap (λ t. (some t, some (pos now))) e,
            omega (
              arith,
              store.expire_until 604_800 s1 (omega arith),
              store.hmset_time taken.1 (pos now) s,
            ),
            omega (arith, store.expire_time 604_800 s1, store.hmset_time taken.1 (pos now) s),
          )

      ask-unreached : (s : S) → (redis.reach (redis.now_ms s).1).0 ≡ false → ask s ≡ (none, asked s)
      unfolding token_bucket_allow
      ask-unreached s h = ground (arith, h)

      ask-reached :
          (s : S) (f : ℕ)
          → (redis.reach (redis.now_ms s).1).0 ≡ true
          → refill (pos (wall s)) (pos rate) (pos cap) (bucket (asked s)).0 (bucket (asked s)).1
            ≡ pos f
          → ask s ≡ (some (take_token (pos f)).0, ran (asked s) (wall s) (take_token (pos f)))
      unfolding token_bucket_allow
      ask-reached s f h full = rw (h, store.now_ms_value s, full) refl

      -- One request: what the bucket holds after it, and how many buckets were lost.
      abbrev Asked : S → ℕ → ℕ → ℕ → Type 0
      Asked s l c u =
          (l' : ℕ) × (c' : ℕ) × (u' : ℕ) × (k : ℕ) × Holds (ask s).1 l' c' u'
          × (cost (unwrap_or (ask s).0 false) + c' ≤ c + k * (1000 * cap) + (l' - l) * rate)
          × (k * week_ms + u ≤ u')
          × ((l' ≡ l) ⊎ (l' ≡ wall s))

      due_le : (s : S) (l c u : ℕ) → Holds s l c u → u ≤ time s + week_ms
      due_le s l c u (inl (absent, full, due)) = omega arith
      due_le s l c u (inr (present, due, soon)) = soon

      ask_lem : (s : S) (l c u : ℕ) → Holds s l c u → Asked s l c u
      unfolding unwrap_or
      ask_lem s l c u holds =
          let (c2, u2, k, there, paid, due) = asked-Waited s l c u holds in
          let (f, full, filled) = refilled (asked s) l c2 u2 (wall s) there in
          let (left, rest, spent) = take_token_paid f in
          let soon = due_le (asked s) l c2 u2 there in
          elim (Bool-cases (redis.reach (redis.now_ms s).1).0) [
            | inl h ↦
                let taken : Bool × ℤ = take_token (pos f) in
                rw (ask-reached s f h full) (
                  wall s,
                  left,
                  time (asked s) + week_ms,
                  k,
                  ran-Holds (asked s) (wall s) left taken rest,
                  omega arith,
                  omega arith,
                  inr refl,
                )
            | inr h ↦
                rw (ask-unreached s h) (l, c2, u2, k, there, omega arith, omega arith, inl refl)
          ]

      passed_from : (a b n : ℕ) (s : S) → passed a n s ≤ (b - a) + passed b n s
      passed_from a b zero s = omega arith
      passed_from a b (suc n) s = omega arith

      passed_later :
          (l l1 n : ℕ) (s : S)
          → (l1 ≡ l) ⊎ (l1 ≡ wall s)
          → (l1 - l) + passed l1 n (ask s).1 ≤ (wall s - l) + passed (wall s) n (ask s).1
      passed_later l l1 n s (inl e) = rw e (omega (arith, passed_from l (wall s) n (ask s).1))
      passed_later l l1 n s (inr e) = rw e (omega arith)

      -- The requests in a row: what is allowed is paid for by what the bucket holds, the time that
      -- passes and the buckets that are lost, each of which has lasted for its lifetime.
      granted_from :
          (n : ℕ) (s : S) (l c u : ℕ)
          → Holds s l c u
          → (k : ℕ) × (1000 * granted n s ≤ c + k * (1000 * cap) + passed l n s * rate)
            × (k * week_ms + u ≤ time (after n s) + week_ms)
      unfolding granted
      granted_from zero s l c u holds = (0, omega arith, omega (arith, due_le s l c u holds))
      granted_from (suc n) s l c u holds =
          let (l1, c1, u1, k1, holds1, paid, due, last) = ask_lem s l c u holds in
          let (k2, later, end) = granted_from n (ask s).1 l1 c1 u1 holds1 in
          (
            k1 + k2,
            rw (counted (unwrap_or (ask s).0 false) (granted n (ask s).1)) (
                sum_up c c1 (cost (unwrap_or (ask s).0 false)) (granted n (ask s).1) k1 k2
                  (1000 * cap) (l1 - l) (passed l1 n (ask s).1)
                  ((wall s - l) + passed (wall s) n (ask s).1) rate paid later
                  (passed_later l l1 n s last)),
            omega (arith, spread k1 k2 week_ms),
          )

      -- Under what Redis documents of the bucket's key, with a rate and a capacity that are not
      -- negative, of any number of requests one after another, from a state in which Redis holds no
      -- bucket: the requests allowed are at most the capacity, the capacity again for each bucket
      -- that Redis has let expire since, and the rate times the seconds that pass on the system's
      -- clock; and so many expiries take as many weeks on the clock of Redis. It is in thousandths of
      -- a token, and in milliseconds.
      pub granted_bound :
          (n : ℕ) (s : S)
          → bucket s ≡ (none, none)
          → (expired : ℕ) × (1000 * granted n s
              ≤ 1000 * cap + expired * (1000 * cap) + passed (wall s) n s * rate)
            × (time s + expired * week_ms ≤ time (after n s))
      granted_bound n s absent =
          let (k, paid, due) =
            granted_from n s (wall s) (1000 * cap) (time s + week_ms) (inl (absent, refl, refl)) in
          (k, paid, omega arith)
