-- ===== src/Db/PaymentIntents/Indexes.antt =====
-- What the primary key and the unique indexes give: the row of an id, and of a payment id.
use relaykey_backend.Base.{
  ℕ, ◌≡◌, refl, sym, ap, ◌∙◌, ◌⊎◌, inl, inr, Bool, true, false, ◌&&◌, List, [], ◌∷◌, map, some, any,
  arith, Bool-cases,
}
use relaykey_backend.Text.{Text}
use relaykey_backend.Text.Laws.{text_eq_refl}
use relaykey_backend.Db.{PaymentIntent, Status, verified}
use relaykey_backend.Db.Keys.{first}
use relaykey_backend.Db.PaymentIntents.{
  status_eq, same_text, conflict, unique_rows, checked, expire_row, expire_stale_payment_intents,
  find_verified_intent_by_payment_id,
}

-- Expiry never makes two rows conflict.
expire_conflict :
    (now : ℕ) (a b : PaymentIntent)
    → conflict a b ≡ false
    → conflict (expire_row now a) (expire_row now b) ≡ false
unfolding conflict expire_row status_eq
expire_conflict now a b h = ground arith

expire_any :
    (now : ℕ) (x : PaymentIntent) (rows : List PaymentIntent)
    → any (conflict x) rows ≡ false
    → any (conflict (expire_row now x)) (map (expire_row now) rows) ≡ false
expire_any now x [] h = refl
expire_any now x (b ∷ rows) h = ground (arith, expire_conflict now x b, expire_any now x rows)

pub expire_unique :
    (now : ℕ) (rows : List PaymentIntent)
    → unique_rows rows ≡ true
    → unique_rows (expire_stale_payment_intents now rows) ≡ true
unfolding expire_stale_payment_intents unique_rows
expire_unique now [] h = refl
expire_unique now (x ∷ rows) h = ground (arith, expire_any now x rows, expire_unique now rows)

-- A change that is accepted leaves the rows that it wanted.
pub checked_unique :
    (rows after : List PaymentIntent)
    → checked rows ≡ some after
    → (rows ≡ after) × (unique_rows after ≡ true)
unfolding checked
checked_unique rows after h = elim (Bool-cases (unique_rows rows)) [
  | inl e ↦ ground (arith, h, e)
  | inr e ↦ absurd (ground (arith, h, e))
]

-- `row` is one of the rows.
abbrev pub In : PaymentIntent → List PaymentIntent → Type 0
In row [] = ⊥
In row (x ∷ rows) = (row ≡ x) ⊎ In row rows

pub any-false :
    (p : PaymentIntent → Bool) (row : PaymentIntent) (rows : List PaymentIntent)
    → any p rows ≡ false
    → In row rows
    → p row ≡ false
any-false p row [] h i = absurd i
any-false p row (x ∷ rows) h (inl e) = rw e (ground arith)
any-false p row (x ∷ rows) h (inr i) = any-false p row rows (ground arith) i

-- Two rows of the table that a unique key would keep apart are one row.
In_conflict :
    (a b : PaymentIntent) (rows : List PaymentIntent)
    → unique_rows rows ≡ true
    → In a rows
    → In b rows
    → conflict a b ≡ true
    → conflict b a ≡ true
    → a ≡ b
unfolding unique_rows
In_conflict a b [] u i j e f = absurd i
In_conflict a b (x ∷ rows) u (inl p) (inl q) e f = p ∙ sym q
In_conflict a b (x ∷ rows) u (inl p) (inr j) e f =
    let apart : conflict a b ≡ false = rw p (any-false (conflict x) b rows (ground arith) j) in
    absurd (cc)
In_conflict a b (x ∷ rows) u (inr i) (inl q) e f =
    let apart : conflict b a ≡ false = rw q (any-false (conflict x) a rows (ground arith) i) in
    absurd (cc)
In_conflict a b (x ∷ rows) u (inr i) (inr j) e f = In_conflict a b rows (ground arith) i j e f

same_id : (a b : PaymentIntent) → a.id ≡ b.id → conflict a b ≡ true
unfolding conflict
same_id a b e = ground (arith, e)

same_payment :
    (a b : PaymentIntent) (pid : Text)
    → a.payment_id ≡ some pid
    → b.payment_id ≡ some pid
    → conflict a b ≡ true
unfolding conflict same_text
same_payment a b pid e f = ground (arith, e, f, text_eq_refl pid)

module _ (a b : PaymentIntent) (rows : List PaymentIntent) (unique : unique_rows rows ≡ true) where
  pub In_id : In a rows → In b rows → a.id ≡ b.id → a ≡ b
  In_id i j e = In_conflict a b rows unique i j (same_id a b e) (same_id b a (sym e))

  pub In_payment :
      (pid : Text)
      → In a rows
      → In b rows
      → a.payment_id ≡ some pid
      → b.payment_id ≡ some pid
      → a ≡ b
  In_payment pid i j e f =
      In_conflict a b rows unique i j (same_payment a b pid e f) (same_payment b a pid f e)

shared_id :
    (x row : PaymentIntent) (pid : Text)
    → same_text x.payment_id (some pid) ≡ true
    → row.payment_id ≡ some pid
    → conflict x row ≡ false
    → ⊥
unfolding conflict
shared_id x row pid h e c =
    let shared : same_text x.payment_id row.payment_id ≡ true = rw e h in ground arith

is_verified : (s : Status) → s ≡ verified → status_eq s verified ≡ true
unfolding status_eq
is_verified s e = rw e refl

-- With the unique indexes in force, the search by payment id finds the verified row of the table
-- that holds the id.
pub find_verified_complete :
    (pid : Text) (row : PaymentIntent) (rows : List PaymentIntent)
    → unique_rows rows ≡ true
    → In row rows
    → row.status ≡ verified
    → row.payment_id ≡ some pid
    → find_verified_intent_by_payment_id pid rows ≡ some row
unfolding find_verified_intent_by_payment_id first unique_rows same_text
find_verified_complete pid row [] u i s e = absurd i
find_verified_complete pid row (x ∷ rows) u (inl f) s e =
    let settled : status_eq x.status verified ≡ true =
      is_verified x.status (ap (λ (r : PaymentIntent). r.status) (sym f) ∙ s) in
    let held : x.payment_id ≡ some pid = ap (λ (r : PaymentIntent). r.payment_id) (sym f) ∙ e in
    let hit : (same_text x.payment_id (some pid) && status_eq x.status verified) ≡ true =
      rw (held, settled) (ground (arith, text_eq_refl pid)) in
    rw (hit, find_verified_intent_by_payment_id, first) (ap (λ (r : PaymentIntent). some r) (sym f))
find_verified_complete pid row (x ∷ rows) u (inr i) s e =
    elim (Bool-cases (same_text x.payment_id (some pid))) [
      | inl shared ↦
          absurd (shared_id x row pid shared e (any-false (conflict x) row rows (ground arith) i))
      | inr other ↦
          let later = find_verified_complete pid row rows (ground arith) i s e in
          rw (other, find_verified_intent_by_payment_id, first) later
    ]

verified_stays : (now : ℕ) (x : PaymentIntent) → x.status ≡ verified → expire_row now x ≡ x
unfolding expire_row status_eq
verified_stays now x s = ground arith

-- Expiry passes verified rows by.
pub In-expire :
    (now : ℕ) (row : PaymentIntent) (rows : List PaymentIntent)
    → row.status ≡ verified
    → In row rows
    → In row (expire_stale_payment_intents now rows)
unfolding expire_stale_payment_intents
In-expire now row [] s i = i
In-expire now row (x ∷ rows) s (inl e) =
    inl (e ∙ sym (verified_stays now x (ap (λ (r : PaymentIntent). r.status) (sym e) ∙ s)))
In-expire now row (x ∷ rows) s (inr i) = inr (In-expire now row rows s i)
