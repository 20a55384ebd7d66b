-- ===== src/Billing/Laws.antt =====
-- What the plan, the limit and the rollup of a workspace come to.
use mathlib.Core.List.{Memᴰ}
use omnidat.Prelude.{
  ℕ, ◌+◌, ◌≤◌, String, Bool, true, Option, none, some, get_or, List, [], ◌∷◌, ◌≡◌, ◌↔◌, ◌⊎◌, inl,
  inr, refl, arith, ◌==◌, filter, find, find-some, Bool-cases, nat_eq, string_eq,
}
use omnidat.Billing.{
  BillingPlanSummary, WorkspaceSubscriptionSummary, BillingLimitSummary, MeterUsageRecord, or_else,
  first, subscribed_id, plan_named, resolve_workspace_plan, evaluate_limit, is_metered,
  total_quantity, rollup_meter_usage,
}

-- A limit allows a use exactly when the usage after it stays within the limit; what remains and
-- what is exceeded make up the difference, and one of them is zero.
pub evaluate_limit-allowed_iff :
    (limit : BillingLimitSummary) (value current_usage : ℕ) (amount : Option ℕ)
    → limit.value ≡ some value
    → let e = evaluate_limit limit current_usage amount in
      ((e.allowed ≡ true) ↔ (current_usage + get_or amount 1 ≤ value))
      × (e.next_usage + get_or e.remaining 0 ≡ value + e.exceeded_by)
      × ((e.remaining ≡ some 0) ⊎ (e.exceeded_by ≡ 0))
unfolding evaluate_limit
evaluate_limit-allowed_iff limit value current_usage amount h =
    rw h ((λ a. ground arith, λ le. ground arith), ground arith, ground arith)

total_split :
    (workspace_id meter_id : String) (a b c : ℕ) (records : List MeterUsageRecord)
    → a ≤ b
    → b ≤ c
    → total_quantity (filter (is_metered workspace_id meter_id a b) records)
        + total_quantity (filter (is_metered workspace_id meter_id b c) records)
      ≡ total_quantity (filter (is_metered workspace_id meter_id a c) records)
unfolding total_quantity
total_split w m a b c [] ab bc = refl
total_split w m a b c (r ∷ rs) ab bc =
    let ih = total_split w m a b c rs ab bc in
    elim (Bool-cases (r.workspace_id == w)) [
      | inr other ↦ rw other ih
      | inl own ↦ elim (Bool-cases (r.meter_id == m)) [
        | inr unmetered ↦ rw own (rw unmetered ih)
        | inl metered ↦ rw own (rw metered (ground (arith, ih)))
      ]
    ]

-- The rollups of two adjoining periods add up to that of the whole period: no use is counted
-- twice or lost at the boundary.
pub rollup_meter_usage-split :
    (records : List MeterUsageRecord) (workspace_id meter_id : String) (a b c : ℕ)
    → a ≤ b
    → b ≤ c
    → (rollup_meter_usage records workspace_id meter_id a b).quantity
        + (rollup_meter_usage records workspace_id meter_id b c).quantity
      ≡ (rollup_meter_usage records workspace_id meter_id a c).quantity
unfolding rollup_meter_usage
rollup_meter_usage-split records w m a b c ab bc = total_split w m a b c records ab bc

-- no plan only from no plans, else one of them
abbrev pub Resolved : List BillingPlanSummary → Option BillingPlanSummary → Type 0
Resolved plans none = plans ≡ []
Resolved plans (some plan) = Memᴰ plan plans

abbrev Within : List BillingPlanSummary → Option BillingPlanSummary → Type 0
Within plans none = Unit
Within plans (some plan) = Memᴰ plan plans

find-Within :
    (plans : List BillingPlanSummary) (p : BillingPlanSummary → Bool) → Within plans (find p plans)
find-Within plans p = go (find p plans) refl
  where
    go : (o : Option BillingPlanSummary) → find p plans ≡ o → Within plans o
    go none e = tt
    go (some plan) e = (find-some p plans plan e).0

plan_named-Within :
    (plans : List BillingPlanSummary) (id : Option String) → Within plans (plan_named plans id)
plan_named-Within plans none = tt
plan_named-Within plans (some id) = find-Within plans (λ plan. plan.id == id)

first-Resolved : (plans : List BillingPlanSummary) → Resolved plans (first plans)
first-Resolved [] = refl
first-Resolved (plan ∷ plans) = Memᴰ.head refl

or_else-Resolved :
    (plans : List BillingPlanSummary) (a b : Option BillingPlanSummary)
    → Within plans a
    → Resolved plans b
    → Resolved plans (or_else a b)
or_else-Resolved plans none b h k = k
or_else-Resolved plans (some plan) b h k = h

-- A workspace has a plan whenever there are plans, and it is one of them; a subscription to a
-- listed plan decides which, whatever its status, and any other leaves the plan that a workspace
-- without a subscription has.
pub resolve_workspace_plan-Resolved :
    (plans : List BillingPlanSummary) (subscription : Option WorkspaceSubscriptionSummary)
    → Resolved plans (resolve_workspace_plan plans subscription)
      × (resolve_workspace_plan plans subscription
          ≡ or_else
              (plan_named plans (subscribed_id subscription))
              (resolve_workspace_plan plans none))
unfolding resolve_workspace_plan
resolve_workspace_plan-Resolved plans subscription = (
  or_else-Resolved plans (plan_named plans (subscribed_id subscription))
      (or_else (find (λ plan. plan.is_default) plans) (first plans))
      (plan_named-Within plans (subscribed_id subscription))
      (or_else-Resolved plans (find (λ plan. plan.is_default) plans) (first plans)
        (find-Within plans (λ plan. plan.is_default)) (first-Resolved plans)),
  refl,
)
