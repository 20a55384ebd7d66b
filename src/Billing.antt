-- ===== src/Billing.antt =====
-- packages/billing/src/index.ts: plans, limits and metered usage of a workspace.
pub mod Laws
use omnidat.Prelude.{
  ℕ, ◌+◌, ◌-◌, String, Bool, true, false, Option, none, some, get_or, List, [], ◌∷◌, ◌==◌, ◌&&◌,
  if◌then◌else◌, ltb, leb, nat_beq, max, filter, find, nat_eq, string_eq,
}

-- `BillingPlanSummary`
pub record BillingPlanSummary : Type 0 where
  pub id : String
  pub key : String
  pub name : String
  pub is_default : Bool

pub data Status : Type 0 where
  active trialing past_due canceled incomplete free : Status

-- `WorkspaceSubscriptionSummary`
pub record WorkspaceSubscriptionSummary : Type 0 where
  pub workspace_id : String
  pub plan_id : Option String
  pub status : Status

-- `BillingLimitSummary`
pub record BillingLimitSummary : Type 0 where
  pub key : String
  pub value : Option ℕ

-- `BillingLimitEvaluation`
pub record BillingLimitEvaluation : Type 0 where
  pub key : String
  pub limit : Option ℕ
  pub current_usage : ℕ
  pub next_usage : ℕ
  pub remaining : Option ℕ
  pub exceeded_by : ℕ
  pub allowed : Bool

-- `MeterUsageRecord`
pub record MeterUsageRecord : Type 0 where
  pub workspace_id : String
  pub meter_id : String
  pub quantity : ℕ
  pub occurred_at : ℕ

-- `MeterUsageRollup`
pub record MeterUsageRollup : Type 0 where
  pub workspace_id : String
  pub meter_id : String
  pub period_start : ℕ
  pub period_end : ℕ
  pub quantity : ℕ

-- `a ?? b`
abbrev pub or_else :
    Option BillingPlanSummary → Option BillingPlanSummary → Option BillingPlanSummary
or_else none b = b
or_else (some a) b = some a

-- `plans[0]`
abbrev pub first : List BillingPlanSummary → Option BillingPlanSummary
first [] = none
first (plan ∷ plans) = some plan

-- `input.subscription?.planId`, when it is not empty
abbrev pub subscribed_id : Option WorkspaceSubscriptionSummary → Option String
subscribed_id none = none
subscribed_id (some subscription) = elim subscription.plan_id [
  | none ↦ none
  | some id ↦ if id == "" then none else some id
]

abbrev pub plan_named : List BillingPlanSummary → Option String → Option BillingPlanSummary
plan_named plans none = none
plan_named plans (some id) = find (λ plan. plan.id == id) plans

pub resolve_workspace_plan :
    List BillingPlanSummary → Option WorkspaceSubscriptionSummary → Option BillingPlanSummary
resolve_workspace_plan plans subscription =
    or_else (plan_named plans (subscribed_id subscription))
      (or_else (find (λ plan. plan.is_default) plans) (first plans))

-- Usage is a number from 0 on. A difference is taken in ℕ, which is `Math.max(a - b, 0)`.
pub evaluate_limit : BillingLimitSummary → ℕ → Option ℕ → BillingLimitEvaluation
evaluate_limit limit current_usage amount =
    let next_usage = current_usage + get_or amount 1 in
    elim limit.value [
      | none ↦ record {
        key = limit.key;
        limit = none;
        current_usage = current_usage;
        next_usage = next_usage;
        remaining = none;
        exceeded_by = 0;
        allowed = true;
      }
      | some value ↦ record {
        key = limit.key;
        limit = some value;
        current_usage = current_usage;
        next_usage = next_usage;
        remaining = some (max (value - next_usage) 0);
        exceeded_by = max (next_usage - value) 0;
        allowed = nat_beq (max (next_usage - value) 0) 0;
      }
    ]

abbrev pub is_metered : String → String → ℕ → ℕ → MeterUsageRecord → Bool
is_metered workspace_id meter_id period_start period_end r =
    r.workspace_id == workspace_id
    && (r.meter_id == meter_id && (leb period_start r.occurred_at && ltb r.occurred_at period_end))

-- `reduce((total, record) => total + record.quantity, 0)`
pub total_quantity : List MeterUsageRecord → ℕ
total_quantity [] = 0
total_quantity (r ∷ rs) = r.quantity + total_quantity rs

pub rollup_meter_usage :
    List MeterUsageRecord
    → (workspace_id meter_id : String) → (period_start period_end : ℕ) → MeterUsageRollup
rollup_meter_usage records workspace_id meter_id period_start period_end = record {
  workspace_id = workspace_id;
  meter_id = meter_id;
  period_start = period_start;
  period_end = period_end;
  quantity =
      total_quantity (filter (is_metered workspace_id meter_id period_start period_end) records);
}
