-- ===== src/Retry/Budget.antt =====
-- crates/relaykey_app/src/retry/budget.rs
pub mod Counting
use Prim.Native.String.{String}
use relaykey_backend.Base.{ℕ, Bool, true, false, ◌&&◌, ◌++◌, Option, none, some, if◌then◌else◌}
use relaykey_backend.Base.Int.{ℤ, pos, ◌-ℤ◌, leb_ℤ}
use relaykey_backend.Text.{Text, text}
use relaykey_backend.World.{Outside}

pub record RetryBudgets : Type 0 where
  pub partner_retries_per_min : ℕ
  pub vk_retries_per_min : ℕ

-- `RetryBudgets::default()`
abbrev pub default_budgets : RetryBudgets
default_budgets = record { partner_retries_per_min = 300; vk_retries_per_min = 60 }

pub record BudgetDecision : Type 0 where
  pub allowed : Bool
  pub reason : Option String
  pub partner_remaining : Option ℤ
  pub vk_remaining : Option ℤ

unfoldable pub partner_key : Text → Text
partner_key partner_name = text "rk:retry_budget:partner:" ++ partner_name ++ text ":m"

unfoldable pub vk_key : Text → Text
vk_key vk_id = text "rk:retry_budget:vk:" ++ vk_id ++ text ":m"

abbrev pub is_one : ℤ → Bool
is_one n = leb_ℤ (pos 1) n && leb_ℤ n (pos 1)

module _ {S : Type 0} (o : Outside S) where
  unfoldable pub take_one_with_ttl : Text → ℕ → ℕ → S → Option ℤ × S
  take_one_with_ttl key limit ttl_secs s =
      let (used, s1) = o.incr key s in
      elim used [
        | none ↦ (none, s1)
        | some used ↦
            let (done, s2) = o.expire key ttl_secs s1 in
            if is_one used
            then (if done then some (pos limit -ℤ used) else none, s2)
            else (some (pos limit -ℤ used), s1)
      ]

  unfoldable pub allow_retry_dual_budget : RetryBudgets → Text → Text → S → BudgetDecision × S
  allow_retry_dual_budget budgets partner_name vk_id s =
      let (connected, s1) = o.connect s in
      if connected
      then (let (partner, s2) =
            take_one_with_ttl (partner_key partner_name) budgets.partner_retries_per_min 60 s1 in
          elim partner [
            | none ↦ (
              record {
                allowed = true;
                reason = some "redis_error_partner_fail_open";
                partner_remaining = none;
                vk_remaining = none;
              },
              s2,
            )
            | some partner_remaining ↦
                let (vk, s3) = take_one_with_ttl (vk_key vk_id) budgets.vk_retries_per_min 60 s2 in
                elim vk [
                  | none ↦ (
                    record {
                      allowed = true;
                      reason = some "redis_error_vk_fail_open";
                      partner_remaining = some partner_remaining;
                      vk_remaining = none;
                    },
                    s3,
                  )
                  | some vk_remaining ↦
                      let allowed = leb_ℤ (pos 0) partner_remaining && leb_ℤ (pos 0) vk_remaining in
                      (
                        record {
                          allowed = allowed;
                          reason = if allowed then none else some "retry_budget_exhausted";
                          partner_remaining = some partner_remaining;
                          vk_remaining = some vk_remaining;
                        },
                        s3,
                      )
                ]
          ])
      else (
        record {
          allowed = true;
          reason = some "redis_unavailable_fail_open";
          partner_remaining = none;
          vk_remaining = none;
        },
        s1,
      )
