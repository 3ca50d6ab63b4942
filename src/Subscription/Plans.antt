-- ===== src/Subscription/Plans.antt =====
-- src/subscription/domain/policy.ts: the plans, their limits and their features. A price that is a
-- fraction is its numerator and its denominator.
use synch_api.Prelude.{ℕ, ◌*◌, Bool, true, false, String, Option, none, some, or_else}

pub data PaidPlanId : Type 0 where
  starter plus : PaidPlanId

pub data PlanId : Type 0 where
  free self_hosted : PlanId
  paid : PaidPlanId → PlanId

pub data BillingInterval : Type 0 where
  monthly annual : BillingInterval

abbrev bytes_per_mb : ℕ
bytes_per_mb = 1000000

abbrev bytes_per_gb : ℕ
bytes_per_gb = 1000000000

pub record Pricing : Type 0 where
  pub monthly_usd : ℕ
  pub annual_monthly_usd : ℕ × ℕ
  pub annual_usd : ℕ

pub record PlanLimits : Type 0 where
  pub synced_vaults : ℕ
  pub storage_limit_bytes : ℕ
  pub max_file_size_bytes : ℕ
  pub version_history_retention_days : ℕ

pub record PlanFeatures : Type 0 where
  pub snapshots : Bool
  pub storage_upgrade : Bool

pub record PlanPolicy : Type 0 where
  pub id : PlanId
  pub name : String
  pub badge : Option String
  pub pricing : Option Pricing
  pub limits : PlanLimits
  pub features : PlanFeatures

-- The same features in every plan.
abbrev plan_features : PlanFeatures
plan_features = record { snapshots = true; storage_upgrade = false }

abbrev subscription_plan_policies : PlanId → PlanPolicy
subscription_plan_policies free = record {
  id = free;
  name = "Sync Free";
  badge = none;
  pricing = some (record { monthly_usd = 0; annual_monthly_usd = (0, 1); annual_usd = 0 });
  limits = record {
    synced_vaults = 1;
    storage_limit_bytes = 30 * bytes_per_mb;
    max_file_size_bytes = 3 * bytes_per_mb;
    version_history_retention_days = 1;
  };
  features = plan_features;
}
subscription_plan_policies (paid starter) = record {
  id = paid starter;
  name = "Sync Starter";
  badge = some "$1/month";
  pricing = some (record { monthly_usd = 1; annual_monthly_usd = (10, 12); annual_usd = 10 });
  limits = record {
    synced_vaults = 1;
    storage_limit_bytes = bytes_per_gb;
    max_file_size_bytes = 5 * bytes_per_mb;
    version_history_retention_days = 30;
  };
  features = plan_features;
}
subscription_plan_policies (paid plus) = record {
  id = paid plus;
  name = "Sync Plus";
  badge = none;
  pricing = some (record { monthly_usd = 9; annual_monthly_usd = (90, 12); annual_usd = 90 });
  limits = record {
    synced_vaults = 3;
    storage_limit_bytes = 5 * bytes_per_gb;
    max_file_size_bytes = 100 * bytes_per_mb;
    version_history_retention_days = 365;
  };
  features = plan_features;
}
subscription_plan_policies self_hosted = record {
  id = self_hosted;
  name = "Self Hosted";
  badge = none;
  pricing = some (record { monthly_usd = 0; annual_monthly_usd = (0, 1); annual_usd = 0 });
  limits = record {
    synced_vaults = 0;
    storage_limit_bytes = 0;
    max_file_size_bytes = 0;
    version_history_retention_days = 1;
  };
  features = plan_features;
}

unfoldable pub get_subscription_plan_policy : PlanId → PlanPolicy
get_subscription_plan_policy plan_id = subscription_plan_policies plan_id

-- The argument is the number of vaults that overrides the plan's, if there is one.
unfoldable pub apply_subscription_plan_limit_overrides : PlanPolicy → Option ℕ → PlanPolicy
apply_subscription_plan_limit_overrides policy synced_vaults = record policy {
  limits = record policy.limits {
    synced_vaults = or_else synced_vaults policy.limits.synced_vaults;
  };
}

pub record SharingPolicy : Type 0 where
  pub enabled : Bool
  pub member_limit : ℕ

unfoldable pub organization_sharing_policy : PlanId → SharingPolicy
organization_sharing_policy free = record { enabled = false; member_limit = 3 }
organization_sharing_policy (paid starter) = record { enabled = false; member_limit = 3 }
organization_sharing_policy (paid plus) = record { enabled = true; member_limit = 3 }
organization_sharing_policy self_hosted = record { enabled = true; member_limit = 0 }
