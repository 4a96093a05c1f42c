-- ===== src/Core/Ids.antt =====
-- Which numbers are identifiers of a job or a schedule.
use task_harbor.Base.{◌≤◌, ◌≡◌, ◌↔◌, ℕ, some, arith}
use task_harbor.Core.{JobId, new_job_id, i64_max}

-- `JobId::new` accepts exactly the numbers from 1 to `i64::MAX`, and the identifier it gives
-- holds that number.
new_job_id-accepts :
    (value : ℕ)
    → ((1 ≤ value) × (value ≤ i64_max)) ↔ (new_job_id value ≡ some (record { get = value }))
unfolding new_job_id
new_job_id-accepts value = ground arith

new_job_id-get :
    (value : ℕ) {i : JobId}
    → new_job_id value ≡ some i
    → (i.get ≡ value) × (1 ≤ value) × (value ≤ i64_max)
unfolding new_job_id
new_job_id-get value h = ground arith
