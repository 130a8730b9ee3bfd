-- ===== src/Db/Rollups/Days.antt =====
-- Rollups over whole days: the events of a day are either all in the range, or none of them is.
use relaykey_backend.Base.{
  ℕ, ◌*◌, Bool, true, false, ◌&&◌, ◌≡◌, refl, sym, ap, ◌∙◌, inl, inr, List, [], ◌∷◌, ◌++◌, Option,
  some, any, keep, ◌==◌, if◌then◌else◌, arith, Bool-cases,
}
use relaykey_backend.Db.{VirtualKeyRow}
use relaykey_backend.Db.Grouping.{KeyEq, row_of, members, group_by}
use relaykey_backend.Db.Grouping.Lookup.{row_of-group_by}
use relaykey_backend.Db.Rollups.{day_of, in_range, joined_to, join_virtual_keys}

-- `Utc.from_utc_datetime(&day.and_hms_opt(0, 0, 0))`
unfoldable pub midnight : ℕ → ℕ
midnight day = day * 86_400_000

pub in_range-midnight :
    (from_day to_day ts : ℕ)
    → in_range (midnight from_day) (midnight to_day) ts ≡ in_range from_day to_day (day_of ts)
unfolding in_range midnight day_of
in_range-midnight from_day to_day ts = ground arith

module _ {A : Type 0} (p : A → Bool) where
  keep-append : (xs ys : List A) → keep p (xs ++ ys) ≡ keep p xs ++ keep p ys
  keep-append [] ys = refl
  keep-append (x ∷ xs) ys = ground (arith, keep-append xs ys)

  pub keep_comm : (q : A → Bool) (xs : List A) → keep q (keep p xs) ≡ keep p (keep q xs)
  keep_comm q [] = refl
  keep_comm q (x ∷ xs) = ground (arith, keep_comm q xs)

module _ {A : Type 0} (virtual_key_id : A → ℕ) (virtual_keys : List VirtualKeyRow)
    (p : A → Bool) where
  keep-joined_to-true :
      (x : A) (rows : List VirtualKeyRow)
      → p x ≡ true
      → keep (λ j. p j.event) (joined_to virtual_key_id rows x) ≡ joined_to virtual_key_id rows x
  unfolding joined_to
  keep-joined_to-true x [] h = refl
  keep-joined_to-true x (vk ∷ rows) h = elim (Bool-cases (vk.id == virtual_key_id x)) [
    | inl m ↦ ground (arith, h, m, keep-joined_to-true x rows h)
    | inr m ↦ ground (arith, h, m, keep-joined_to-true x rows h)
  ]

  keep-joined_to-false :
      (x : A) (rows : List VirtualKeyRow)
      → p x ≡ false
      → keep (λ j. p j.event) (joined_to virtual_key_id rows x) ≡ []
  unfolding joined_to
  keep-joined_to-false x [] h = refl
  keep-joined_to-false x (vk ∷ rows) h = elim (Bool-cases (vk.id == virtual_key_id x)) [
    | inl m ↦ ground (arith, h, m, keep-joined_to-false x rows h)
    | inr m ↦ ground (arith, h, m, keep-joined_to-false x rows h)
  ]

  -- A `WHERE` on the events may be tested after the join.
  pub join-keep :
      (xs : List A)
      → join_virtual_keys virtual_key_id virtual_keys (keep p xs)
        ≡ keep (λ j. p j.event) (join_virtual_keys virtual_key_id virtual_keys xs)
  unfolding join_virtual_keys
  join-keep [] = refl
  join-keep (x ∷ xs) = elim (Bool-cases (p x)) [
    | inl h ↦ ground (
      arith,
      h,
      keep-append (λ j. p j.event) (joined_to virtual_key_id virtual_keys x)
          (join_virtual_keys virtual_key_id virtual_keys xs),
      keep-joined_to-true x virtual_keys h,
      join-keep xs,
    )
    | inr h ↦ ground (
      arith,
      h,
      keep-append (λ j. p j.event) (joined_to virtual_key_id virtual_keys x)
          (join_virtual_keys virtual_key_id virtual_keys xs),
      keep-joined_to-false x virtual_keys h,
      join-keep xs,
    )
  ]

-- The row under a key, when a rollup of the days in `[from_day, to_day)` finds `old` there.
unfoldable pub daily :
    {K V E : Type 0}
    → ⦃e : KeyEq K⦄ → (E → K)
    → (List E → V)
    → (K → ℕ)
    → (from_day to_day : ℕ) → List E
    → K
    → Option V
    → Option V
unfolding in_range members
daily ⦃e⦄ key_of aggregate day from_day to_day xs asked old =
    if in_range from_day to_day (day asked) && any (λ x. e.same (key_of x) asked) xs
    then some (aggregate (members key_of asked xs))
    else old

module _ {K V E : Type 0} ⦃e : KeyEq K⦄ (key_of : E → K) (aggregate : List E → V) (ts : E → ℕ)
    (day : K → ℕ) (day-key : (x : E) → day (key_of x) ≡ day_of (ts x)) (from_day to_day : ℕ) where
  unfoldable pub whole_days : E → Bool
  whole_days x = in_range (midnight from_day) (midnight to_day) (ts x)

  -- A key's events are in the range when its day is, and then all of them are.
  whole-day :
      (x : E) (asked : K)
      → e.same (key_of x) asked ≡ true
      → whole_days x ≡ in_range from_day to_day (day asked)
  unfolding whole_days
  whole-day x asked h =
      in_range-midnight from_day to_day (ts x)
      ∙ ap (in_range from_day to_day) (sym (day-key x) ∙ ap day ((e.same_iff (key_of x) asked).0 h))

  members-whole_days :
      (asked : K) (xs : List E)
      → in_range from_day to_day (day asked) ≡ true
      → members key_of asked (keep whole_days xs) ≡ members key_of asked xs
  unfolding members
  members-whole_days asked [] h = refl
  members-whole_days asked (x ∷ xs) h =
      ground (arith, h, whole-day x asked, members-whole_days asked xs h)

  any-whole_days :
      (asked : K) (xs : List E)
      → any (λ x. e.same (key_of x) asked) (keep whole_days xs)
        ≡ (in_range from_day to_day (day asked) && any (λ x. e.same (key_of x) asked) xs)
  any-whole_days asked [] = ground arith
  any-whole_days asked (x ∷ xs) = ground (arith, whole-day x asked, any-whole_days asked xs)

  -- The row of a day in the range is computed from all the events of the day.
  pub row_of-whole_days :
      (xs : List E) (table : List (K × V)) (asked : K)
      → row_of asked (group_by key_of aggregate (keep whole_days xs) table)
        ≡ daily key_of aggregate day from_day to_day xs asked (row_of asked table)
  unfolding daily
  row_of-whole_days xs table asked = elim (Bool-cases (in_range from_day to_day (day asked))) [
    | inl h ↦ ground (
      arith,
      h,
      row_of-group_by key_of aggregate (keep whole_days xs) table asked,
      any-whole_days asked xs,
      members-whole_days asked xs h,
    )
    | inr h ↦ ground (
      arith,
      h,
      row_of-group_by key_of aggregate (keep whole_days xs) table asked,
      any-whole_days asked xs,
    )
  ]
