-- ===== src/Usage/Metering.antt =====
-- The ledger of usage events: what one request adds to it.
use relaykey_backend.Base.{
  ℕ, ◌≡◌, refl, ◌⊎◌, inl, inr, Bool, true, false, List, ◌∷◌, none, some, Option-cases,
  if◌then◌else◌,
}
use relaykey_backend.Text.{Text}
use relaykey_backend.Http.{Response}
use relaykey_backend.Context.{Outcome, reply, go}
use relaykey_backend.Db.{Stamped, UsageEvent}
use relaykey_backend.Usage.{BlockedReason, code, insert_usage_event}
use relaykey_backend.World.{Outside, World, Exec, bind, statement}

-- Forwarded with the upstream's status, or blocked for a reason.
abbrev pub IsMetered : UsageEvent → Type 0
IsMetered e =
    ((e.forwarded ≡ true)
      × (e.blocked_reason ≡ none)
      × ((status : ℕ) × (e.status_code ≡ some status)))
    ⊎ ((e.forwarded ≡ false)
        × ((reason : Text) × (e.blocked_reason ≡ some reason))
        × (e.status_code ≡ none))

module _ {S : Type 0} where
  -- The ledger is the same, or has one more event, for the key and the customer.
  abbrev pub Entered : List (Stamped UsageEvent) → World S → Type 0
  Entered before v =
      (v.db.usage_events ≡ before)
      ⊎ ((e : Stamped UsageEvent) × IsMetered e.row × (v.db.usage_events ≡ e ∷ before))

  -- An action that goes on has added nothing; one that ends the request has added at most one event.
  pub data Metered {A : Type 0} (before : List (Stamped UsageEvent))
      : Outcome A × World S → Type 0 where
    ended : (r : Response) (v : World S) → Entered before v → Metered before (reply r, v)
    continued : (a : A) (v : World S) → v.db.usage_events ≡ before → Metered before (go a, v)

  pub Metered-bind :
      {A B : Type 0} {before : List (Stamped UsageEvent)} {m : Outcome A × World S}
      {f : A → Exec S B}
      → Metered before m
      → ((a : A) (v : World S) → v.db.usage_events ≡ before → Metered before (f a v))
      → Metered before (bind m f)
  Metered-bind (ended r v h) k = ended r v h
  Metered-bind (continued a v h) k = k a v h

  pub Metered-if :
      {B : Type 0} {before : List (Stamped UsageEvent)} (b : Bool) (x y : Exec S B) (w : World S)
      → Metered before (x w)
      → Metered before (y w)
      → Metered before ((if b then x else y) w)
  Metered-if true x y w h k = h
  Metered-if false x y w h k = k

  -- What adds nothing, whether it ends the request or not.
  pub unmetered :
      {A : Type 0} {before : List (Stamped UsageEvent)} (m : Outcome A × World S)
      → m.1.db.usage_events ≡ before
      → Metered before m
  unmetered (reply r, v) h = ended r v (inl h)
  unmetered (go a, v) h = continued a v h

  pub Metered-Entered :
      {A : Type 0} {before : List (Stamped UsageEvent)} {m : Outcome A × World S}
      → Metered before m
      → Entered before m.1
  Metered-Entered (ended r v h) = h
  Metered-Entered (continued a v h) = inl h

module _ {S : Type 0} (o : Outside S) (vk customer : ℕ) (partner path : Text) (latency : ℕ) where
  -- The event of a blocked request, whether its statement gets through or not.
  pub blocked-Entered :
      (reason : BlockedReason) (w : World S)
      → Entered w.db.usage_events
          (insert_usage_event o vk customer partner path false (some reason) none latency w).1
  unfolding insert_usage_event statement
  blocked-Entered reason w = elim (Option-cases (o.db_fault w.out).0) [
    | inl e ↦
        rw (e, statement, insert_usage_event) (inr (_, inr (refl, (code reason, refl), refl), refl))
    | inr (m, e) ↦ rw (e, statement, insert_usage_event) (inl refl)
  ]

  pub forwarded-Entered :
      (status : ℕ) (w : World S)
      → Entered w.db.usage_events
          (insert_usage_event o vk customer partner path true none (some status) latency w).1
  unfolding insert_usage_event statement
  forwarded-Entered status w = elim (Option-cases (o.db_fault w.out).0) [
    | inl e ↦
        rw (e, statement, insert_usage_event) (inr (_, inl (refl, refl, (status, refl)), refl))
    | inr (m, e) ↦ rw (e, statement, insert_usage_event) (inl refl)
  ]
