-- ===== src/World.antt =====
-- The state that a request acts on: the database, and everything outside the program (clocks,
-- connections, Redis, the upstream servers), of which only the operations are known.
pub mod Flow
use relaykey_backend.Base.{ℕ, Bool, List, Option, none, some, ◌≡◌, refl, ◌⊎◌, inl, inr}
use relaykey_backend.Base.Int.{ℤ}
use relaykey_backend.Text.{Text}
use relaykey_backend.Http.{Method, Headers, Response}
use relaykey_backend.Context.{Outcome, reply, go}
use relaykey_backend.Db.{Db}
use relaykey_backend.Retry.{ReqwestError}

pub data Result {ℓ} (A : Type ℓ) : Type ℓ where
  ok : A → Result A
  err : Text → Result A

pub Result-cases {ℓ} :
    {A : Type ℓ} (r : Result A) → ((a : A) × (r ≡ ok a)) ⊎ ((e : Text) × (r ≡ err e))
Result-cases (ok a) = inl (a, refl)
Result-cases (err e) = inr (e, refl)

-- A request as `reqwest` sends it upstream.
pub record Upstream : Type 0 where
  pub method : Method
  pub url : Text
  pub headers : Headers
  pub body : Text

-- What `timeout(remaining, send)` ends with.
pub data SendResult : Type 0 where
  responded : ℕ → Headers → Text → SendResult
  failed : ReqwestError → SendResult
  elapsed : SendResult

pub record Outside (S : Type 0) : Type 0 where
  -- `Instant::now()` in milliseconds, and `sleep`.
  pub now : S → ℕ × S
  pub sleep : ℕ → S → S
  -- One statement sent to Postgres: the error, if it does not get through.
  pub db_fault : S → Option Text × S
  -- Postgres's own `now()` and `gen_random_uuid()`.
  pub db_now : S → ℕ
  pub new_id : S → ℕ
  -- Redis: a connection, and the commands; `none` and `false` are errors.
  pub connect : S → Bool × S
  pub get : Text → S → Option (Option Text) × S
  pub set_ex : Text → Text → ℕ → S → Bool × S
  pub incr : Text → S → Option ℤ × S
  pub expire : Text → ℕ → S → Bool × S
  -- Reading a request's body to its end; `false` is an error.
  pub read_body : S → Bool × S
  -- `reqwest`, under a time limit in milliseconds.
  pub send : Upstream → ℕ → S → SendResult × S

pub record World (S : Type 0) : Type 0 where
  pub db : Db
  pub out : S
  -- The requests handed to `reqwest`, newest first.
  pub sent : List Upstream

-- An action, and an action that may end the handler by a response.
abbrev pub Act : Type 0 → Type 0 → Type 0
Act S A = World S → A × World S

abbrev pub Exec : Type 0 → Type 0 → Type 0
Exec S A = World S → Outcome A × World S

abbrev pub bind : {S A B : Type 0} → Outcome A × World S → (A → Exec S B) → Outcome B × World S
bind (reply r, w) f = (reply r, w)
bind (go a, w) f = f a w

infixl 5 ◌>>=◌
abbrev pub ◌>>=◌ : {S A B : Type 0} → Exec S A → (A → Exec S B) → Exec S B
◌>>=◌ m f w = bind (m w) f

abbrev pub lift : {S A : Type 0} → Act S A → Exec S A
lift m w = let (a, w') = m w in (go a, w')

abbrev pub return : {S A : Type 0} → A → Exec S A
return a w = (go a, w)

abbrev pub stop : {S A : Type 0} → Response → Exec S A
stop r w = (reply r, w)

module _ {S : Type 0} (o : Outside S) where
  -- A statement that gets through acts on the tables; one that does not leaves them.
  unfoldable pub statement : {A : Type 0} → (Db → Result A × Db) → Act S (Result A)
  statement f w =
      let (fault, s) = o.db_fault w.out in
      elim fault [
        | some e ↦ (err e, record w { out = s })
        | none ↦ let (r, db) = f w.db in (r, record w { db = db; out = s })
      ]

  -- A statement that only reads.
  unfoldable pub query : {A : Type 0} → (Db → A) → Act S (Result A)
  unfolding statement
  query f = statement (λ db. (ok (f db), db))
