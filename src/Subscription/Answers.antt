-- ===== src/Subscription/Answers.antt =====
-- What the answer on a subscription's access says.
use synch_api.Prelude.{
  ℕ, ◌<◌, ◌≡◌, ◌↔◌, ◌⊎◌, inl, inr, refl, String, true, ◌≢◌, Option, none, some, [], ◌∷◌, arith,
  string_dec, or_else, Bool-cases, false, subst, sym,
}
use synch_api.Subscription.Plans.{PaidPlanId}
use synch_api.Subscription.Access.{
  SubscriptionRecord, SubscriptionAccess, ProductIds, ProductIdsByPlanId, is_product, interval_with,
  plan_with, goes_on, subscription_grants_access, subscription_access, is_active_status,
  is_period_status,
}

-- A product of the configuration that is the subscription's.
abbrev IsOwn : Option String → Option String → Type 0
IsOwn own id = (p : String) × (own ≡ some p) × (id ≡ some p) × (p ≢ "")

is_product-IsOwn : (own id : Option String) → is_product own id ≡ true → IsOwn own id
is_product-IsOwn own none h = absurd (ground arith)
is_product-IsOwn none (some p) h = absurd (ground arith)
is_product-IsOwn (some q) (some p) h = (p, ground arith, refl, ground arith)

IsOwn-is_product : (own id : Option String) → IsOwn own id → is_product own id ≡ true
IsOwn-is_product own none h = absurd (ground (arith, h.2))
IsOwn-is_product none (some p) h = absurd (ground (arith, h.1))
IsOwn-is_product (some q) (some p) (r, e, e', h) = ground (arith, e, e', h)

-- A plan's products sell an access with the subscription's product.
unfoldable pub SellsAt : Option String → SubscriptionAccess → PaidPlanId → ProductIds → Type 0
SellsAt own a plan [] = ⊥
SellsAt own a plan ((interval, id) ∷ ids) =
    ((a ≡ record { plan_id = plan; billing_interval = interval }) × IsOwn own id)
    ⊎ SellsAt own a plan ids

-- Some plan's products do.
unfoldable pub Sells : Option String → SubscriptionAccess → ProductIdsByPlanId → Type 0
Sells own a [] = ⊥
Sells own a ((plan, ids) ∷ plans) = SellsAt own a plan (or_else ids []) ⊎ Sells own a plans

-- The answer of a search among what `P` says of accesses.
abbrev Finds : (SubscriptionAccess → Type 0) → Option SubscriptionAccess → Type 0
Finds P none = (a : SubscriptionAccess) → ¬ P a
Finds P (some a) = P a

neither : {A B : Type 0} → ¬ A → ¬ B → ¬ (A ⊎ B)
neither f g (inl a) = f a
neither f g (inr b) = g b

regroup : {A B C : Type 0} → ¬ A → (B ⊎ C) ↔ ((A ⊎ B) ⊎ C)
regroup no_a = (
  elim [ inl b ↦ inl (inr b) | inr c ↦ inr c ],
  elim [ inl (inl a) ↦ absurd (no_a a) | inl (inr b) ↦ inl b | inr c ↦ inr c ],
)

Finds-ap :
    {P Q : SubscriptionAccess → Type 0} (o : Option SubscriptionAccess)
    → ((a : SubscriptionAccess) → P a ↔ Q a)
    → Finds P o
    → Finds Q o
Finds-ap none same h = λ a q. h a ((same a).1 q)
Finds-ap (some a) same h = (same a).0 h

interval_with-Finds :
    (own : Option String) (plan : PaidPlanId) (ids : ProductIds) (P : SubscriptionAccess → Type 0)
    (later : Option SubscriptionAccess)
    → Finds P later
    → Finds (λ a. SellsAt own a plan ids ⊎ P a) (interval_with own plan ids later)
unfolding interval_with SellsAt
interval_with-Finds own plan [] P none h = λ a. neither (λ e. e) (h a)
interval_with-Finds own plan [] P (some a) h = inr h
interval_with-Finds own plan ((interval, id) ∷ ids) P later h =
    let rest = interval_with-Finds own plan ids P later h in
    elim (Bool-cases (is_product own id)) [
      | inl is ↦ rw is (inl (inl (refl, is_product-IsOwn own id is)))
      | inr is_not ↦ rw is_not (
          Finds-ap (interval_with own plan ids later)
            (λ a. regroup (λ e. ground (arith, IsOwn-is_product own id e.1, is_not))) rest)
    ]

plan_with-Finds :
    (own : Option String) (plans : ProductIdsByPlanId)
    → Finds (λ a. Sells own a plans) (plan_with own plans)
unfolding plan_with Sells
plan_with-Finds own [] = λ a e. e
plan_with-Finds own ((plan, ids) ∷ plans) =
    interval_with-Finds own plan (or_else ids []) (λ a. Sells own a plans) (plan_with own plans)
      (plan_with-Finds own plans)

-- The status gives access at a time: without a period's end or before it, or before an end only.
abbrev pub IsGranted : ℕ → SubscriptionRecord → Type 0
IsGranted now s =
    ((s.status ≡ "active" ⊎ s.status ≡ "trialing")
      × ((end : ℕ) → s.period_end ≡ some end → now < end))
    ⊎ ((s.status ≡ "canceled" ⊎ s.status ≡ "past_due" ⊎ s.status ≡ "unpaid")
        × (end : ℕ) × (s.period_end ≡ some end)
        × (now < end))

is_active_status-same : (t : String) → (is_active_status t ≡ true) ↔ (t ≡ "active" ⊎ t ≡ "trialing")
is_active_status-same t = (
  λ h. elim (string_dec t "active") [ yes e ↦ inl e | no n ↦ inr (ground arith) ],
  λ h. ground arith,
)

is_period_status-same :
    (t : String) → (is_period_status t ≡ true) ↔ (t ≡ "canceled" ⊎ t ≡ "past_due" ⊎ t ≡ "unpaid")
is_period_status-same t = (
  λ h. elim (string_dec t "canceled") [
    | yes e ↦ inl e
    | no n ↦ elim (string_dec t "past_due") [
      | yes e ↦ inr (inl e)
      | no m ↦ inr (inr (ground arith))
    ]
  ],
  λ h. ground arith,
)

is_period_status-active : (t : String) → is_period_status t ≡ true → is_active_status t ≡ false
unfolding string_dec
is_period_status-active t h = elim ((is_period_status-same t).0 h) [
  | inl e ↦ subst (λ u. is_active_status u ≡ false) (sym e) refl
  | inr (inl e) ↦ subst (λ u. is_active_status u ≡ false) (sym e) refl
  | inr (inr e) ↦ subst (λ u. is_active_status u ≡ false) (sym e) refl
]

goes_on-endless :
    (now : ℕ) (o : Option ℕ) → (goes_on now o true ≡ true) ↔ ((end : ℕ) → o ≡ some end → now < end)
goes_on-endless now none = (λ h end e. ground arith, λ h. refl)
goes_on-endless now (some end) = (λ h last e. ground arith, λ h. ground (arith, h end refl))

goes_on-ending :
    (now : ℕ) (o : Option ℕ)
    → (goes_on now o false ≡ true) ↔ ((end : ℕ) × (o ≡ some end) × (now < end))
goes_on-ending now none = (λ h. ground arith, λ h. ground (arith, h.1))
goes_on-ending now (some end) = (λ h. (end, refl, ground arith), λ h. ground (arith, h.1, h.2))

subscription_grants_access-IsGranted :
    (now : ℕ) (s : SubscriptionRecord)
    → (subscription_grants_access now (some s) ≡ true) ↔ IsGranted now s
unfolding subscription_grants_access
subscription_grants_access-IsGranted now s = (
  λ h. elim (Bool-cases (is_active_status s.status)) [
    | inl active ↦
        let on : goes_on now s.period_end true ≡ true = ground (arith, h, active) in
        inl ((is_active_status-same s.status).0 active, (goes_on-endless now s.period_end).0 on)
    | inr idle ↦
        let period : is_period_status s.status ≡ true = ground (arith, h, idle) in
        let on : goes_on now s.period_end false ≡ true = ground (arith, h, idle) in
        let ends = (goes_on-ending now s.period_end).0 on in
        inr ((is_period_status-same s.status).0 period, ends.0, ends.1, ends.2)
  ],
  elim [
    | inl (is, ends) ↦
        rw ((is_active_status-same s.status).1 is) ((goes_on-endless now s.period_end).1 ends)
    | inr (is, end, has, later) ↦
        let period = (is_period_status-same s.status).1 is in
        rw (is_period_status-active s.status period, period)
          ((goes_on-ending now s.period_end).1 (end, has, later))
  ],
)

-- What an answer on a subscription's access says: an access, that the status gives it and a plan of
-- the configuration sells it with the subscription's product; none, that one of them fails.
abbrev pub IsAnswer :
    ℕ → SubscriptionRecord → ProductIdsByPlanId → Option SubscriptionAccess → Type 0
IsAnswer now s plans (some a) = IsGranted now s × Sells s.product_id a plans
IsAnswer now s plans none =
    IsGranted now s → (a : SubscriptionAccess) → ¬ Sells s.product_id a plans

IsAnswer-Finds :
    (now : ℕ) (s : SubscriptionRecord) (plans : ProductIdsByPlanId) (o : Option SubscriptionAccess)
    → IsGranted now s
    → Finds (λ a. Sells s.product_id a plans) o
    → IsAnswer now s plans o
IsAnswer-Finds now s plans none granted h = λ again. h
IsAnswer-Finds now s plans (some a) granted h = (granted, h)

-- The answer on a subscription's access gives a plan and an interval only if the subscription's
-- status gives access at the time and the configuration sells them with the subscription's product,
-- which is not empty, and there is no answer only if no plan and interval are so.
pub subscription_access-IsAnswer :
    (now : ℕ) (s : SubscriptionRecord) (config : Option ProductIdsByPlanId)
    → IsAnswer now s (or_else config []) (subscription_access now (some s) config)
unfolding subscription_access
subscription_access-IsAnswer now s config =
    let plans = or_else config [] in
    elim (Bool-cases (subscription_grants_access now (some s))) [
      | inl granted ↦ rw granted (
          IsAnswer-Finds now s plans (plan_with s.product_id plans)
            ((subscription_grants_access-IsGranted now s).0 granted)
            (plan_with-Finds s.product_id plans))
      | inr refused ↦ rw refused (λ granted.
          absurd (ground (arith, refused, (subscription_grants_access-IsGranted now s).1 granted)))
    ]
