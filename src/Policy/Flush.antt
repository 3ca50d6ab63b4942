-- ===== src/Policy/Flush.antt =====
-- The next flush of src/sync-coordinator/domain/health-policy.ts against the summary itself.
use synch_api.Prelude.{
  ℕ, ◌+◌, ◌<◌, ◌≤◌, ◌≡◌, refl, String, Bool, true, false, ◌&&◌, Option, none, some, List, [], ◌∷◌,
  arith, ltb, length, ◌⊎◌, inr, inl, subst, sym,
}
use synch_api.Policy.Health.{
  HealthFacts, Health, warn_if, push_reason, storage_health, is_older, without_commit,
  evaluate_health, future_due_from_age, commit_warning_due, earlier, next_health_summary_flush_at,
  staged_blob_stale_ms, pending_delete_stale_ms, pending_delete_backlog_warning_count,
}

-- An age, `d` milliseconds later.
abbrev pub aged : ℕ → Option ℕ → Option ℕ
aged d none = none
aged d (some age) = some (age + d)

-- An age that has grown by `d` or more; there may be one where there was none.
abbrev pub HasAged : ℕ → Option ℕ → Option ℕ → Type 0
HasAged d none age' = Unit
HasAged d (some age) none = ⊥
HasAged d (some age) (some age') = age + d ≤ age'

-- The facts of a vault to which nothing is done, `d` milliseconds later, but for the local vaults
-- that are active: more deletions may have become collectible, older ones among them.
pub record Passes (d : ℕ) (facts facts' : HealthFacts) : Type 0 where
  pub used : facts'.storage_used_bytes ≡ facts.storage_used_bytes
  pub limit : facts'.storage_limit_bytes ≡ facts.storage_limit_bytes
  pub last_commit : facts'.last_commit_at ≡ facts.last_commit_at
  pub staged : facts'.oldest_staged_blob_age_ms ≡ aged d facts.oldest_staged_blob_age_ms
  pub pending : HasAged d facts.oldest_pending_delete_age_ms facts'.oldest_pending_delete_age_ms
  pub backlog :
      facts.collectible_pending_delete_blob_count ≤ facts'.collectible_pending_delete_blob_count

-- Besides, the same deletions are collectible, and the same number of local vaults is active.
pub record Stays (d : ℕ) (facts facts' : HealthFacts) : Type 0 where
  pub passes : Passes d facts facts'
  pub pending_aged : facts'.oldest_pending_delete_age_ms ≡ aged d facts.oldest_pending_delete_age_ms
  pub same_backlog :
      facts'.collectible_pending_delete_blob_count ≡ facts.collectible_pending_delete_blob_count
  pub same_active : facts'.active_local_vault_count ≡ facts.active_local_vault_count

-- The time comes before a due time, if there is one.
abbrev pub Before : ℕ → Option ℕ → Type 0
Before t none = Unit
Before t (some due) = t < due

Before-earlier : (t : ℕ) (a b : Option ℕ) → Before t (earlier a b) → Before t a × Before t b
unfolding earlier
Before-earlier t none b h = (tt, h)
Before-earlier t (some a) none h = (h, tt)
Before-earlier t (some a) (some b) h = (ground arith, ground arith)

is_older-steady :
    (now d threshold : ℕ) (age : Option ℕ)
    → Before (now + d) (future_due_from_age now age threshold)
    → is_older (aged d age) threshold ≡ is_older age threshold
unfolding future_due_from_age
is_older-steady now d threshold none h = refl
is_older-steady now d threshold (some age) h = ground arith

without_commit-steady :
    (now d active : ℕ) (last : Option ℕ)
    → Before (now + d) (commit_warning_due active last now)
    → (ltb 0 active && without_commit last (now + d)) ≡ (ltb 0 active && without_commit last now)
unfolding commit_warning_due
without_commit-steady now d active none h = refl
without_commit-steady now d active (some at) h = ground arith

-- Before the time that the policy names for the next flush, the summary of a vault to which nothing
-- is done, and in which no further deletion becomes collectible and the number of active local
-- vaults is the same, stays as it is: the same status and the same reasons.
pub evaluate_health-steady :
    (facts facts' : HealthFacts) (now d : ℕ)
    → Stays d facts facts'
    → Before (now + d) (next_health_summary_flush_at facts now)
    → evaluate_health facts' (now + d) ≡ evaluate_health facts now
unfolding evaluate_health next_health_summary_flush_at
evaluate_health-steady facts facts' now d s h =
    let (commit, ages) = Before-earlier (now + d) _ _ h in
    let (staged, pending) = Before-earlier (now + d) _ _ ages in
    rw
      (
        s.passes.used,
        s.passes.limit,
        s.passes.last_commit,
        s.passes.staged,
        s.pending_aged,
        s.same_backlog,
        s.same_active,
        is_older-steady now d staged_blob_stale_ms facts.oldest_staged_blob_age_ms staged,
        is_older-steady now d pending_delete_stale_ms facts.oldest_pending_delete_age_ms pending,
        without_commit-steady now d facts.active_local_vault_count facts.last_commit_at commit,
      )
      refl

abbrev bit : Bool → ℕ
bit false = 0
bit true = 1

length-push_reason :
    (reason : String) (rs : List String) → length (push_reason reason rs) ≡ length rs + 1
length-push_reason reason [] = refl
length-push_reason reason (r ∷ rs) = ground (arith, length-push_reason reason rs)

length-warn_if :
    (test : Bool) (reason : String) (h : Health)
    → length (warn_if test reason h).reasons ≡ length h.reasons + bit test
length-warn_if false reason h = omega arith
length-warn_if true reason h = length-push_reason reason h.reasons

count-evaluate_health :
    (facts : HealthFacts) (now : ℕ)
    → length (evaluate_health facts now).reasons
      ≡ length (storage_health facts).reasons
        + bit (is_older facts.oldest_staged_blob_age_ms staged_blob_stale_ms)
        + bit (is_older facts.oldest_pending_delete_age_ms pending_delete_stale_ms)
        + bit (ltb pending_delete_backlog_warning_count facts.collectible_pending_delete_blob_count)
        + bit (ltb 0 facts.active_local_vault_count && without_commit facts.last_commit_at now)
unfolding evaluate_health
count-evaluate_health facts now =
    rw (length-warn_if, length-warn_if, length-warn_if, length-warn_if) refl

HasAged-aged : (d : ℕ) (age : Option ℕ) → HasAged d age (aged d age)
HasAged-aged d none = tt
HasAged-aged d (some age) = omega arith

is_older-grows :
    (d threshold : ℕ) (age age' : Option ℕ)
    → HasAged d age age'
    → bit (is_older age threshold) ≤ bit (is_older age' threshold)
is_older-grows d threshold none age' h = omega arith
is_older-grows d threshold (some age) none h = absurd h
is_older-grows d threshold (some age) (some age') h = ground arith

is_older-fires :
    (now d threshold : ℕ) (age age' : Option ℕ)
    → HasAged d age age'
    → future_due_from_age now age threshold ≡ some (now + d)
    → bit (is_older age threshold) < bit (is_older age' threshold)
unfolding future_due_from_age
is_older-fires now d threshold none age' h e = cc
is_older-fires now d threshold (some age) none h e = absurd h
is_older-fires now d threshold (some age) (some age') h e = ground arith

-- A local vault that was active, or another, is active.
abbrev pub StaysActive : ℕ → ℕ → Type 0
StaysActive active active' = (active ≡ 0) ⊎ (0 < active')

without_commit-grows :
    (now d active active' : ℕ) (last : Option ℕ)
    → StaysActive active active'
    → bit (ltb 0 active && without_commit last now)
      ≤ bit (ltb 0 active' && without_commit last (now + d))
without_commit-grows now d active active' none (inl idle) = ground arith
without_commit-grows now d active active' none (inr busy) = ground arith
without_commit-grows now d active active' (some at) (inl idle) = ground arith
without_commit-grows now d active active' (some at) (inr busy) = ground arith

without_commit-fires :
    (now d active active' : ℕ) (last : Option ℕ)
    → StaysActive active active'
    → commit_warning_due active last now ≡ some (now + d)
    → bit (ltb 0 active && without_commit last now)
      < bit (ltb 0 active' && without_commit last (now + d))
unfolding commit_warning_due
without_commit-fires now d active active' none stays e = cc
without_commit-fires now d active active' (some at) (inl idle) e = absurd (ground arith)
without_commit-fires now d active active' (some at) (inr busy) e = ground arith

earlier-one : (a b : Option ℕ) (t : ℕ) → earlier a b ≡ some t → (a ≡ some t) ⊎ (b ≡ some t)
unfolding earlier
earlier-one none b t e = inr e
earlier-one (some a) none t e = inl e
earlier-one (some a) (some b) t e = ground arith

-- At the time that the policy names for the next flush, the summary of a vault to which nothing is
-- done has changed, where some local vault is active then if one is now: it gives more reasons than
-- now, whatever deletions have become collectible.
pub evaluate_health-changes :
    (facts facts' : HealthFacts) (now d : ℕ)
    → Passes d facts facts'
    → StaysActive facts.active_local_vault_count facts'.active_local_vault_count
    → next_health_summary_flush_at facts now ≡ some (now + d)
    → length (evaluate_health facts now).reasons < length (evaluate_health facts' (now + d)).reasons
unfolding next_health_summary_flush_at
evaluate_health-changes facts facts' now d p active e =
    let before = count-evaluate_health facts now in
    let after = count-evaluate_health facts' (now + d) in
    let storage : length (storage_health facts').reasons ≡ length (storage_health facts).reasons =
      rw (p.used, p.limit) refl in
    let oldest =
      subst (HasAged d facts.oldest_staged_blob_age_ms) (sym p.staged)
        (HasAged-aged d facts.oldest_staged_blob_age_ms) in
    let staged = is_older-grows d staged_blob_stale_ms _ _ oldest in
    let pending = is_older-grows d pending_delete_stale_ms _ _ p.pending in
    let backlog = backlog-grows _ _ p.backlog in
    let commit = commits active p.last_commit in
    elim (earlier-one _ _ (now + d) e) [
      | inl first ↦ let fired = fires active p.last_commit first in omega arith
      | inr second ↦ elim (earlier-one _ _ (now + d) second) [
        | inl first ↦
            let fired = is_older-fires now d staged_blob_stale_ms _ _ oldest first in omega arith
        | inr last ↦
            let fired = is_older-fires now d pending_delete_stale_ms _ _ p.pending last in
            omega arith
      ]
    ]
  where
    due : HealthFacts → ℕ → ℕ
    due f t = bit (ltb 0 f.active_local_vault_count && without_commit f.last_commit_at t)

    commits :
        StaysActive facts.active_local_vault_count facts'.active_local_vault_count
        → facts'.last_commit_at ≡ facts.last_commit_at
        → due facts now ≤ due facts' (now + d)
    commits active same =
        subst
          (λ (o : Option ℕ).
            due facts now
            ≤ bit (ltb 0 facts'.active_local_vault_count && without_commit o (now + d)))
          (sym same) (without_commit-grows now d _ _ facts.last_commit_at active)

    fires :
        StaysActive facts.active_local_vault_count facts'.active_local_vault_count
        → facts'.last_commit_at ≡ facts.last_commit_at
        → commit_warning_due facts.active_local_vault_count facts.last_commit_at now
          ≡ some (now + d)
        → due facts now < due facts' (now + d)
    fires active same at =
        subst
          (λ (o : Option ℕ).
            due facts now
            < bit (ltb 0 facts'.active_local_vault_count && without_commit o (now + d)))
          (sym same) (without_commit-fires now d _ _ facts.last_commit_at active at)

    backlog-grows :
        (n n' : ℕ)
        → n ≤ n'
        → bit (ltb pending_delete_backlog_warning_count n)
          ≤ bit (ltb pending_delete_backlog_warning_count n')
    backlog-grows n n' h = ground arith
