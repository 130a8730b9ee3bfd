-- ===== src/X402/Enforce/Table/Verdicts.antt =====
-- What follows the provider's verdict, on the table of payment intents.
use relaykey_backend.Base.{List, Option, none, some}
use relaykey_backend.Text.{Text}
use relaykey_backend.Context.{VirtualKeyCtx, Request}
use relaykey_backend.Db.{PaymentIntent, Stamped, UsageEvent}
use relaykey_backend.World.{Outside, Upstream, World, Result, ok, err}
use relaykey_backend.World.Flow.{Leaves, Leaves-bind, Leaves-if}
use relaykey_backend.X402.Config.{X402Config}
use relaykey_backend.X402.Provider.{VerifyOutput}
use relaykey_backend.X402.Checks.{Crates}
use relaykey_backend.X402.Enforce.{accept, refuse, provider_error, conclude}
use relaykey_backend.X402.Enforce.Table.Statements.{
  Kept, event_keeps, mark_verified_keeps, mark_failed_keeps, or_db_error_keeps, Awaits,
}

module _ {S : Type 0} (o : Outside S) (crates : Crates) (start : List PaymentIntent)
    (before : List Upstream × List (Stamped UsageEvent)) where
  module _ (vk : VirtualKeyCtx) (req : Request) (cfg : X402Config) where
    accept_keeps :
        (pending : Option PaymentIntent) (p t : Option Text) (w : World S)
        → Kept o crates start before w
        → Awaits o crates start before pending w
        → Leaves (Kept o crates start before) (accept o crates req pending p t w)
    unfolding accept
    accept_keeps none p t w h a = record { left = h }
    accept_keeps (some intent) p t w h a =
        Leaves-bind _ _
          (or_db_error_keeps o crates start before _ _
            (mark_verified_keeps o crates start before _ _ _ _ w h a))
          (λ _ v k. record { left = k })

    refuse_keeps :
        (pending : Option PaymentIntent) (p t : Option Text) (out : VerifyOutput) (w : World S)
        → Kept o crates start before w
        → Awaits o crates start before pending w
        → Leaves (Kept o crates start before) (refuse o crates vk req cfg pending p t out w)
    unfolding refuse
    refuse_keeps none p t out w h a =
        Leaves-bind _ _ (event_keeps o crates start before vk req cfg _ _ w h)
          (λ _ v k. record { left = k })
    refuse_keeps (some intent) p t out w h a =
        Leaves-bind _ _
          (or_db_error_keeps o crates start before _ _
            (mark_failed_keeps o crates start before _ _ _ _ w h a))
          λ _ v k.
            Leaves-bind _ _ (event_keeps o crates start before vk req cfg _ _ v k)
              (λ _ u l. record { left = l })

    provider_error_keeps :
        (pending : Option PaymentIntent) (p t : Option Text) (m : Text) (w : World S)
        → Kept o crates start before w
        → Awaits o crates start before pending w
        → Leaves (Kept o crates start before) (provider_error o crates vk req cfg pending p t m w)
    unfolding provider_error
    provider_error_keeps none p t m w h a =
        Leaves-bind _ _ (event_keeps o crates start before vk req cfg _ _ w h)
          (λ _ v k. record { left = k })
    provider_error_keeps (some intent) p t m w h a =
        Leaves-bind _ _
          (event_keeps o crates start before vk req cfg _ _ _
            (mark_failed_keeps o crates start before _ _ _ _ w h a))
          (λ _ v k. record { left = k })

    pub conclude_keeps :
        (pending : Option PaymentIntent) (p t : Option Text) (out : Result VerifyOutput)
        (w : World S)
        → Kept o crates start before w
        → Awaits o crates start before pending w
        → Leaves (Kept o crates start before) (conclude o crates vk req cfg pending p t out w)
    unfolding conclude
    conclude_keeps pending p t (ok out) w h a =
        Leaves-if out.verified (accept o crates req pending p t)
          (refuse o crates vk req cfg pending p t out) w (accept_keeps pending p t w h a)
          (refuse_keeps pending p t out w h a)
    conclude_keeps pending p t (err m) w h a = provider_error_keeps pending p t m w h a

    pub Awaits-on :
        (pending : Option PaymentIntent) (w : World S) (s : S)
        → Awaits o crates start before pending w
        → Awaits o crates start before pending (record w { out = s })
    Awaits-on none w s a = tt
    Awaits-on (some intent) w s a = a
