-- ===== src/Subscription/Access.antt =====
-- src/subscription/domain/policy.ts: the access that a subscription gives at a time. `Date.now()` is
-- the argument `now`, and an object of products is its entries in their order.
use synch_api.Prelude.{
  ℕ, String, Bool, true, false, not, ◌&&◌, ◌||◌, Option, none, some, List, [], ◌∷◌, ltb,
  if◌then◌else◌, same, same?, or_else,
}
use synch_api.Subscription.Plans.{PaidPlanId, BillingInterval}

pub record SubscriptionRecord : Type 0 where
  pub product_id : Option String
  pub status : String
  pub period_end : Option ℕ

pub record SubscriptionAccess : Type 0 where
  pub plan_id : PaidPlanId
  pub billing_interval : BillingInterval

abbrev pub ProductIds : Type 0
ProductIds = List (BillingInterval × Option String)

abbrev pub ProductIdsByPlanId : Type 0
ProductIdsByPlanId = List (PaidPlanId × Option ProductIds)

-- `ACTIVE_ACCESS_STATUSES.has(status)`
abbrev pub is_active_status : String → Bool
is_active_status status = same status "active" || same status "trialing"

-- `PERIOD_ACCESS_STATUSES.has(status)`
abbrev pub is_period_status : String → Bool
is_period_status status = same status "canceled" || same status "past_due" || same status "unpaid"

-- Whether a period that may have an end goes on, where the last argument answers for one without end.
abbrev pub goes_on : ℕ → Option ℕ → Bool → Bool
goes_on now none endless = endless
goes_on now (some end) endless = ltb now end

unfoldable pub subscription_grants_access : ℕ → Option SubscriptionRecord → Bool
subscription_grants_access now none = false
subscription_grants_access now (some s) =
    if is_active_status s.status
    then goes_on now s.period_end true
    else if not (is_period_status s.status)
    then false
    else goes_on now s.period_end false

-- `productId && subscription.productId === productId`
abbrev pub is_product : Option String → Option String → Bool
is_product own none = false
is_product own (some id) = not (same id "") && same? own id

-- The first entry of a plan that has the product, or else what the later plans yield.
unfoldable pub interval_with :
    Option String → PaidPlanId → ProductIds → Option SubscriptionAccess → Option SubscriptionAccess
interval_with own plan [] later = later
interval_with own plan ((interval, id) ∷ ids) later =
    let rest = interval_with own plan ids later in
    if is_product own id
    then some (record { plan_id = plan; billing_interval = interval })
    else rest

unfoldable pub plan_with : Option String → ProductIdsByPlanId → Option SubscriptionAccess
plan_with own [] = none
plan_with own ((plan, ids) ∷ plans) = interval_with own plan (or_else ids []) (plan_with own plans)

unfoldable pub subscription_access :
    ℕ → Option SubscriptionRecord → Option ProductIdsByPlanId → Option SubscriptionAccess
subscription_access now none config = none
subscription_access now (some s) config =
    if subscription_grants_access now (some s)
    then plan_with s.product_id (or_else config [])
    else none

abbrev plan_id_of : Option SubscriptionAccess → Option PaidPlanId
plan_id_of none = none
plan_id_of (some a) = some a.plan_id

abbrev billing_interval_of : Option SubscriptionAccess → Option BillingInterval
billing_interval_of none = none
billing_interval_of (some a) = some a.billing_interval

abbrev pub subscription_access_plan_id :
    ℕ → Option SubscriptionRecord → Option ProductIdsByPlanId → Option PaidPlanId
subscription_access_plan_id now s config = plan_id_of (subscription_access now s config)

abbrev pub subscription_billing_interval :
    ℕ → Option SubscriptionRecord → Option ProductIdsByPlanId → Option BillingInterval
subscription_billing_interval now s config = billing_interval_of (subscription_access now s config)
