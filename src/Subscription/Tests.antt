-- ===== src/Subscription/Tests.antt =====
-- Subscriptions at given times.
use synch_api.Prelude.{◌≡◌, refl, none, some, true, [], ◌∷◌, string_dec}
use synch_api.Subscription.Plans.{
  starter, plus, paid, monthly, annual, get_subscription_plan_policy,
  apply_subscription_plan_limit_overrides, organization_sharing_policy,
}
use synch_api.Subscription.Access.{
  SubscriptionRecord, ProductIdsByPlanId, interval_with, plan_with, subscription_grants_access,
  subscription_access, subscription_access_plan_id, subscription_billing_interval,
}
use synch_api.Subscription.Answers.{IsAnswer, subscription_access-IsAnswer}

abbrev products : ProductIdsByPlanId
products =
    (starter, some ((monthly, some "p1") ∷ (annual, some "") ∷ []))
    ∷ (plus, some ((annual, some "p2") ∷ []))
    ∷ []

abbrev canceled : SubscriptionRecord
canceled = record { product_id = some "p2"; status = "canceled"; period_end = some 500 }

lasts :
    subscription_access 499 (some canceled) (some products)
    ≡ some (record { plan_id = plus; billing_interval = annual })
unfolding subscription_access subscription_grants_access plan_with interval_with string_dec
lasts = refl

ends : subscription_access 500 (some canceled) (some products) ≡ none
unfolding subscription_access subscription_grants_access plan_with interval_with string_dec
ends = refl

names_plan : subscription_access_plan_id 499 (some canceled) (some products) ≡ some plus
unfolding subscription_access subscription_grants_access plan_with interval_with string_dec
names_plan = refl

names_interval : subscription_billing_interval 499 (some canceled) (some products) ≡ some annual
unfolding subscription_access subscription_grants_access plan_with interval_with string_dec
names_interval = refl

overrides :
    (apply_subscription_plan_limit_overrides
      (get_subscription_plan_policy (paid plus))
      (some 7)).limits.synced_vaults
    ≡ 7
unfolding apply_subscription_plan_limit_overrides get_subscription_plan_policy
overrides = refl

shares : (organization_sharing_policy (paid plus)).enabled ≡ true
unfolding organization_sharing_policy
shares = refl

subscription_access-IsAnswer_example :
    IsAnswer 499 canceled products (subscription_access 499 (some canceled) (some products))
subscription_access-IsAnswer_example = subscription_access-IsAnswer 499 canceled (some products)
