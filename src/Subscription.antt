-- ===== src/Subscription.antt =====
-- src/subscription/domain/policy.ts: the plans and the access that a subscription gives.
pub mod Plans
pub mod Access
pub mod Answers
mod Tests
