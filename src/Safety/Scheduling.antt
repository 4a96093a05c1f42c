-- ===== src/Safety/Scheduling.antt =====
-- The invariant under a tick of the scheduler: it leaves the queue alone or inserts a waiting job.
use task_harbor.Base.{
  ℕ, ◌+◌, ◌≡◌, refl, subst, Bool, inl, inr, Option, List, arith, ok, Result-cases, Bool-cases,
  Option-cases, ◌==◌,
}
use task_harbor.Clock.{Time}
use task_harbor.Sql.{count_rows, insert_row, first_row}
use task_harbor.Tables.{Db}
use task_harbor.Queue.{ClaimedJob}
use task_harbor.Schedule.{latest_due_slot}
use task_harbor.Schedule.Store.{Store, ScheduleEntry}
use task_harbor.Schedule.Materialize.{
  ScheduleTick, materialize_next_schedule, materialize_schedule, record_occurrence,
  create_occurrence, is_due, due_before, occupies, scheduled_job, of_schedule,
}
use task_harbor.Safety.{Inv}
use task_harbor.Safety.Inserts.{insert_job-Inv}

module _ {closed : List ℕ} {claims : List ClaimedJob} where
  create_occurrence-Inv :
      (s : Store) (e : ScheduleEntry) (slot : Time) (n : ℕ) (now : Time) (job_id : ℕ) (queue' : Db)
      → Inv closed claims s.queue
      → create_occurrence s e slot n now ≡ ok (job_id, queue')
      → Inv closed claims queue'
  unfolding create_occurrence
  create_occurrence-Inv s e slot n now job_id q v h =
      let row = scheduled_job s.queue.next_job_id e slot n now in
      let kept =
        insert_job-Inv row s.queue.jobs s.queue.attempts s.queue.next_job_id s.queue.next_attempt_id
          refl refl (omega arith) v in
      let jobs' : insert_row row s.queue.jobs ≡ q.jobs = ground arith in
      let attempts' : s.queue.attempts ≡ q.attempts = ground arith in
      let next_job : s.queue.next_job_id + 1 ≡ q.next_job_id = ground arith in
      let next_attempt : s.queue.next_attempt_id ≡ q.next_attempt_id = ground arith in
      rw (← jobs', ← attempts', ← next_job, ← next_attempt) kept

  materialize_schedule-Inv :
      (s s' : Store) (e : ScheduleEntry) (as_of now : Time) (r : Option ScheduleTick)
      → Inv closed claims s.queue
      → materialize_schedule s e as_of now ≡ ok (r, s')
      → Inv closed claims s'.queue
  unfolding materialize_schedule record_occurrence
  materialize_schedule-Inv s s' e t now r v m =
      elim (Result-cases (latest_due_slot e.next_run_at e.interval_seconds t)) [
        | inl (f, failed) ↦ absurd (ground (arith, failed))
        | inr ((slot, next, k), found) ↦
            let n = count_rows (of_schedule e.id) s.inputs in
            elim (Bool-cases (count_rows (occupies e.id) s.queue.jobs == 0)) [
              | inr busy ↦
                  let same : s.queue ≡ s'.queue = ground (arith, found, busy) in
                  subst (Inv closed claims) same v
              | inl free ↦ elim (Result-cases (create_occurrence s e slot n now)) [
                | inl (f, failed) ↦ absurd (ground (arith, found, free, failed))
                | inr ((job_id, q), made) ↦
                    let same : q ≡ s'.queue = ground (arith, found, free, made) in
                    subst (Inv closed claims) same
                      (create_occurrence-Inv s e slot n now job_id q v made)
              ]
            ]
      ]

  pub materialize_next_schedule-Inv :
      (s s' : Store) (locked : ℕ → Bool) (as_of now : Time) (r : Option ScheduleTick)
      → Inv closed claims s.queue
      → materialize_next_schedule s locked as_of now ≡ ok (r, s')
      → Inv closed claims s'.queue
  unfolding materialize_next_schedule
  materialize_next_schedule-Inv s s' locked t now r v m =
      elim (Option-cases (first_row (is_due locked t) due_before s.schedules)) [
        | inl none_due ↦
            let same : s.queue ≡ s'.queue = ground (arith, none_due) in
            subst (Inv closed claims) same v
        | inr (e, first) ↦ materialize_schedule-Inv s s' e t now r v (ground (arith, first))
      ]
