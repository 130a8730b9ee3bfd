-- ===== src/World/Flow.antt =====
-- What holds of an action wherever it goes on.
use relaykey_backend.Base.{
  ◌≡◌, refl, subst, Bool, true, false, inl, inr, Option-cases, if◌then◌else◌,
}
use relaykey_backend.Db.{Db}
use relaykey_backend.Http.{Response}
use relaykey_backend.Context.{Outcome, reply, go}
use relaykey_backend.World.{
  Outside, World, Act, Exec, Result, ok, statement, query, bind, lift, ◌>>=◌,
}

module _ {S A : Type 0} (Q : A → World S → Type 0) where
  -- The action stopped, or it went on with a value and a world that satisfy `Q`.
  pub data Ensures : Outcome A × World S → Type 0 where
    stopped : (r : Response) (w : World S) → Ensures (reply r, w)
    went : (a : A) (w : World S) → Q a w → Ensures (go a, w)

module _ {S A : Type 0} {Q : A → World S → Type 0} where
  pub Ensures-go :
      {m : Outcome A × World S} {a : A} {w : World S} → Ensures Q m → m ≡ (go a, w) → Q a w
  Ensures-go {a} {w} (stopped r v) e = absurd (cc)
  Ensures-go {a} {w} (went b v q) e = subst holds e q
    where
      holds : Outcome A × World S → Type 0
      holds (reply r, u) = Unit {0}
      holds (go c, u) = Q c u

module _ {S A : Type 0} {P Q : A → World S → Type 0} where
  pub Ensures-map :
      {m : Outcome A × World S}
      → ((a : A) (w : World S) → P a w → Q a w)
      → Ensures P m
      → Ensures Q m
  Ensures-map k (stopped r w) = stopped r w
  Ensures-map k (went a w p) = went a w (k a w p)

module _ {S A B : Type 0} {P : A → World S → Type 0} {Q : B → World S → Type 0} where
  pub Ensures-bind :
      {m : Outcome A × World S} {f : A → Exec S B}
      → Ensures P m
      → ((a : A) (w : World S) → P a w → Ensures Q (f a w))
      → Ensures Q (bind m f)
  Ensures-bind (stopped r w) k = stopped r w
  Ensures-bind (went a w p) k = k a w p

module _ {S A B : Type 0} {Q : B → World S → Type 0} where
  -- A first part of which nothing is asked.
  pub Ensures-skip :
      (m : Outcome A × World S) (f : A → Exec S B)
      → ((a : A) (w : World S) → Ensures Q (f a w))
      → Ensures Q (bind m f)
  Ensures-skip (reply r, w) f k = stopped r w
  Ensures-skip (go a, w) f k = k a w

module _ {S B : Type 0} {Q : B → World S → Type 0} where
  -- A branch on a test.
  pub Ensures-if :
      (b : Bool) (x y : Exec S B) (w : World S)
      → (b ≡ true → Ensures Q (x w))
      → (b ≡ false → Ensures Q (y w))
      → Ensures Q ((if b then x else y) w)
  Ensures-if true x y w h k = h refl
  Ensures-if false x y w h k = k refl

-- Whether the action stopped or went on, the world it leaves satisfies `I`.
pub record Leaves {S A : Type 0} (I : World S → Type 0) (m : Outcome A × World S) : Type 0 where
  pub left : I m.1

-- A property of the world that both parts keep is kept by the sequence.
pub Leaves-bind :
    {S A B : Type 0} {I : World S → Type 0} (m : Outcome A × World S) (f : A → Exec S B)
    → Leaves I m
    → ((a : A) (w : World S) → I w → Leaves I (f a w))
    → Leaves I (bind m f)
Leaves-bind (reply r, w) f h k = record { left = h.left }
Leaves-bind (go a, w) f h k = k a w h.left

pub Leaves-lift :
    {S A B : Type 0} {I : World S → Type 0} (m : Act S A) (f : A → Exec S B) (w : World S)
    → I (m w).1
    → ((a : A) (v : World S) → I v → Leaves I (f a v))
    → Leaves I ((lift m >>= f) w)
Leaves-lift m f w h k = k (m w).0 (m w).1 h

pub Leaves-if :
    {S B : Type 0} {I : World S → Type 0} (b : Bool) (x y : Exec S B) (w : World S)
    → Leaves I (x w)
    → Leaves I (y w)
    → Leaves I ((if b then x else y) w)
Leaves-if true x y w h k = h
Leaves-if false x y w h k = k

module _ {S : Type 0} (o : Outside S) where
  pub statement-sent :
      {A : Type 0} (f : Db → Result A × Db) (w : World S) → (statement o f w).1.sent ≡ w.sent
  unfolding statement
  statement-sent f w = elim (Option-cases (o.db_fault w.out).0) [
    | inl e ↦ rw (e, statement) refl
    | inr (m, e) ↦ rw (e, statement) refl
  ]

  pub query-sent : {A : Type 0} (f : Db → A) (w : World S) → (query o f w).1.sent ≡ w.sent
  unfolding query
  query-sent f w = statement-sent (λ db. (ok (f db), db)) w

  pub query-db : {A : Type 0} (f : Db → A) (w : World S) → (query o f w).1.db ≡ w.db
  unfolding query statement
  query-db f w = elim (Option-cases (o.db_fault w.out).0) [
    | inl e ↦ rw (e, statement, query) refl
    | inr (m, e) ↦ rw (e, statement, query) refl
  ]
