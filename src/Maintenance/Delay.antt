-- ===== src/Maintenance/Delay.antt =====
-- When a job is due: after a failure, and in the collection's buckets.
use synch_api.Prelude.{
  ℕ, ◌+◌, ◌-◌, ◌*◌, ◌^◌, ◌≤◌, ◌<◌, ◌≡◌, suc, zero, String, min, arith, refl, ◌≢◌, ◌%◌, same_self,
}
use synch_api.Maintenance.Jobs.{
  maintenance_retry_delay_ms, maintenance_job_due_at, blob_gc_alarm_bucket_ms,
}

pow-positive : (n : ℕ) → 1 ≤ 2 ^ n
pow-positive zero = omega arith
pow-positive (suc n) = omega (arith, pow-positive n)

pow-double : (n k m : ℕ) → k ≡ suc n → m ≡ n → 2 ^ k ≡ 2 * 2 ^ m
pow-double n k m at_k at_m = rw (at_k, at_m) (omega arith)

-- The first retry waits half a minute, each further one twice as long as the one before, and none
-- longer than a quarter of an hour.
pub maintenance_retry_delay_ms-doubles :
    (n : ℕ)
    → (maintenance_retry_delay_ms 1 ≡ 30 * 1000)
      × (maintenance_retry_delay_ms (n + 2)
          ≡ min (15 * 60 * 1000) (2 * maintenance_retry_delay_ms (n + 1)))
      × (30 * 1000 ≤ maintenance_retry_delay_ms n)
unfolding maintenance_retry_delay_ms
maintenance_retry_delay_ms-doubles n = (
  refl,
  omega (arith, pow-double n (n + 2 - 1) (n + 1 - 1) (omega arith) (omega arith)),
  omega (arith, pow-positive (n - 1)),
)

-- Whatever its key, a job is due no earlier than it was asked for and less than one bucket later.
pub maintenance_job_due_at-near :
    (key : String) (t : ℕ)
    → (t ≤ maintenance_job_due_at key t)
      × (maintenance_job_due_at key t < t + blob_gc_alarm_bucket_ms)
unfolding maintenance_job_due_at
maintenance_job_due_at-near key t = ground arith

-- A collection is due at the first time from when it was asked for that is a multiple of half
-- an hour; a job with another key is due just when it was asked for.
pub maintenance_job_due_at-IsBucketed :
    (key : String) (t : ℕ)
    → key ≢ "blob_gc"
    → (maintenance_job_due_at "blob_gc" t % blob_gc_alarm_bucket_ms ≡ 0)
      × (t ≤ maintenance_job_due_at "blob_gc" t)
      × (maintenance_job_due_at "blob_gc" t < t + blob_gc_alarm_bucket_ms)
      × (maintenance_job_due_at key t ≡ t)
unfolding maintenance_job_due_at
maintenance_job_due_at-IsBucketed key t other = (
  rw (same_self "blob_gc") (omega arith),
  (maintenance_job_due_at-near "blob_gc" t).0,
  (maintenance_job_due_at-near "blob_gc" t).1,
  ground arith,
)
