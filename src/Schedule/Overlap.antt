-- ===== src/Schedule/Overlap.antt =====
-- What a tick of the scheduler does: the cursor passes the clock, and no two jobs of a schedule are
-- under way.
use task_harbor.Base.{
  ℕ, ◌+◌, ◌≤◌, ◌<◌, ◌≡◌, refl, sym, ◌∙◌, ◌++◌, Bool, ◌&&◌, ◌⊎◌, inl, inr, Option, none, some, List,
  [], ◌∷◌, String, ap, subst, All, arith, ok, leb, ◌==◌, max, Bool-cases, Option-cases,
  Result-cases,
}
use task_harbor.Clock.{Time}
use task_harbor.Sql.{count_rows, update_rows, insert_row, first_row}
use task_harbor.Sql.Counts.{count_rows-insert, insert_row-append}
use task_harbor.Sql.Order.{IsRowOrder, first_row_lem}
use task_harbor.Tables.{Db, JobEntry}
use task_harbor.Schedule.{latest_due_slot}
use task_harbor.Schedule.Recurrence.{latest_due_slot_bounds}
use task_harbor.Schedule.Store.{Store, ScheduleEntry, Outcome, Occurrence, created, skipped_overlap}
use task_harbor.Schedule.Materialize.{
  ScheduleTick, materialize_next_schedule, materialize_schedule, record_occurrence,
  create_occurrence, is_due, due_before, occupies, scheduled_job, of_schedule, overlap_reason,
  same_slot,
}

due_before-IsRowOrder : IsRowOrder due_before
unfolding due_before
due_before-IsRowOrder = record {
  irreflexive = λ x. ground arith;
  asymmetric = λ x y h. ground arith;
  not_before_trans = λ x y z h k. ground arith;
}

abbrev pub still_due : ℕ → Time → ScheduleEntry → Bool
still_due schedule_id as_of e = e.id == schedule_id && leb e.next_run_at as_of

-- The slot has one row in the ledger of occurrences now, the last one, and it says what the tick says;
-- the slot had none before.
abbrev pub Recorded : Store → ScheduleTick → Store → Type 0
Recorded s tick s' =
    (count_rows (same_slot tick.schedule_id tick.scheduled_for) s.occurrences ≡ 0)
    × ((o : Occurrence) × (s'.occurrences ≡ s.occurrences ++ o ∷ [])
        × (o.schedule_id ≡ tick.schedule_id)
        × (o.scheduled_for ≡ tick.scheduled_for)
        × (o.outcome ≡ tick.outcome)
        × (o.job_id ≡ tick.job_id)
        × (o.coalesced_slots ≡ tick.coalesced_slots))

-- The job of the slot stands behind the other jobs.
abbrev pub MakesJob : Store → ScheduleTick → Store → Type 0
MakesJob s tick s' =
    (job : JobEntry) × (s'.queue.jobs ≡ s.queue.jobs ++ job ∷ [])
    × (tick.job_id ≡ some job.id)
    × (job.schedule_id ≡ some tick.schedule_id)
    × (job.scheduled_for ≡ some tick.scheduled_for)

-- What a tick has done.
abbrev pub Ticked : Store → Time → ScheduleTick → Store → Type 0
Ticked s as_of tick s' =
    (tick.scheduled_for ≤ as_of)
    × (count_rows (still_due tick.schedule_id as_of) s'.schedules ≡ 0)
    × (count_rows (occupies tick.schedule_id) s'.queue.jobs
        ≡ max 1 (count_rows (occupies tick.schedule_id) s.queue.jobs))
    × Recorded s tick s'
    × ((tick.outcome ≡ created)
          × (count_rows (occupies tick.schedule_id) s.queue.jobs ≡ 0)
          × MakesJob s tick s'
        ⊎ (tick.outcome ≡ skipped_overlap) × (tick.job_id ≡ none) × (s'.queue ≡ s.queue))

none_due :
    (schedule_id : ℕ) (as_of next now : Time) (xs : List ScheduleEntry)
    → as_of < next
    → count_rows (still_due schedule_id as_of) (
        update_rows
          (λ e. e.id == schedule_id)
          (λ e. record e { next_run_at = next; updated_at = now })
          xs)
      ≡ 0
unfolding count_rows update_rows
none_due i t next now [] h = refl
none_due i t next now (x ∷ xs) h = ground (arith, none_due i t next now xs h)

record_occurrence_lem :
    (s s' : Store) (queue' : Db) (schedule_id : ℕ) (slot next : Time) (k : ℕ) (o : Outcome)
    (job_id : Option ℕ) (reason : Option String) (as_of now : Time) (tick : ScheduleTick)
    → as_of < next
    → record_occurrence s queue' schedule_id slot next k o job_id reason now ≡ ok (some tick, s')
    → (tick.schedule_id ≡ schedule_id)
      × (tick.scheduled_for ≡ slot)
      × (tick.outcome ≡ o)
      × (s'.queue ≡ queue')
      × (count_rows (still_due schedule_id as_of) s'.schedules ≡ 0)
      × (tick.job_id ≡ job_id)
      × Recorded s tick s'
unfolding record_occurrence
record_occurrence_lem s s' q i slot next k outcome job_id reason t now tick later e =
    let gone = none_due i t next now s.schedules later in
    let o : Occurrence = record {
      schedule_id = i;
      scheduled_for = slot;
      outcome = outcome;
      job_id = job_id;
      reason = reason;
      coalesced_slots = k;
      created_at = now;
    } in
    let rows : insert_row o s.occurrences ≡ s'.occurrences = ground arith in
    (
      ground arith,
      ground arith,
      ground arith,
      ground arith,
      ground (arith, gone),
      ground arith,
      (
        ground arith,
        (
          o,
          sym rows ∙ insert_row-append o s.occurrences,
          ground arith,
          ground arith,
          ground arith,
          ground arith,
          ground arith,
        ),
      ),
    )

create_occurrence_lem :
    (s : Store) (e : ScheduleEntry) (slot : Time) (n : ℕ) (now : Time) (job_id : ℕ) (queue' : Db)
    → create_occurrence s e slot n now ≡ ok (job_id, queue')
    → (count_rows (occupies e.id) queue'.jobs ≡ count_rows (occupies e.id) s.queue.jobs + 1)
      × ((job : JobEntry) × (queue'.jobs ≡ s.queue.jobs ++ job ∷ [])
          × (job.id ≡ job_id)
          × (job.schedule_id ≡ some e.id)
          × (job.scheduled_for ≡ some slot))
unfolding create_occurrence
create_occurrence_lem s e slot n now job_id q h =
    let row = scheduled_job s.queue.next_job_id e slot n now in
    let placed : insert_row row s.queue.jobs ≡ q.jobs = ground arith in
    (
      subst (λ xs. count_rows (occupies e.id) xs ≡ count_rows (occupies e.id) s.queue.jobs + 1)
          placed (ground (arith, count_rows-insert (occupies e.id) row s.queue.jobs)),
      (row, sym placed ∙ insert_row-append row s.queue.jobs, ground arith, refl, refl),
    )

Ticked-branch :
    (s s' : Store) (schedule_id : ℕ) (as_of : Time) (tick : ScheduleTick)
    → tick.schedule_id ≡ schedule_id
    → tick.scheduled_for ≤ as_of
    → count_rows (still_due schedule_id as_of) s'.schedules ≡ 0
    → count_rows (occupies schedule_id) s'.queue.jobs
      ≡ max 1 (count_rows (occupies schedule_id) s.queue.jobs)
    → Recorded s tick s'
    → (tick.outcome ≡ created)
        × (count_rows (occupies schedule_id) s.queue.jobs ≡ 0)
        × MakesJob s tick s'
      ⊎ (tick.outcome ≡ skipped_overlap) × (tick.job_id ≡ none) × (s'.queue ≡ s.queue)
    → Ticked s as_of tick s'
Ticked-branch s s' i t tick names due gone one ledger branch =
    (due, rw names gone, rw names one, ledger, moved branch)
  where
    moved :
        (tick.outcome ≡ created) × (count_rows (occupies i) s.queue.jobs ≡ 0) × MakesJob s tick s'
          ⊎ (tick.outcome ≡ skipped_overlap) × (tick.job_id ≡ none) × (s'.queue ≡ s.queue)
        → (tick.outcome ≡ created)
            × (count_rows (occupies tick.schedule_id) s.queue.jobs ≡ 0)
            × MakesJob s tick s'
          ⊎ (tick.outcome ≡ skipped_overlap) × (tick.job_id ≡ none) × (s'.queue ≡ s.queue)
    moved (inl (made, empty, job)) = inl (made, rw names empty, job)
    moved (inr skipped) = inr skipped

materialize_schedule_lem :
    (s s' : Store) (e : ScheduleEntry) (as_of now : Time) (tick : ScheduleTick)
    → 0 < e.interval_seconds
    → materialize_schedule s e as_of now ≡ ok (some tick, s')
    → Ticked s as_of tick s'
unfolding materialize_schedule
materialize_schedule_lem s s' e t now tick h m =
    elim (Result-cases (latest_due_slot e.next_run_at e.interval_seconds t)) [
      | inl (f, failed) ↦ absurd (ground (arith, failed))
      | inr ((slot, next, k), found) ↦
          let b = latest_due_slot_bounds e.next_run_at e.interval_seconds t slot next k h found in
          let n = count_rows (of_schedule e.id) s.inputs in
          elim (Bool-cases (count_rows (occupies e.id) s.queue.jobs == 0)) [
            | inr busy ↦
                let r =
                  record_occurrence_lem s s' s.queue e.id slot next k skipped_overlap none
                    (some overlap_reason) t now tick b.1 (ground (arith, found, busy)) in
                let same : count_rows (occupies e.id) s'.queue.jobs
                    ≡ count_rows (occupies e.id) s.queue.jobs =
                  ap (λ (d : Db). count_rows (occupies e.id) d.jobs) r.3 in
                Ticked-branch s s' e.id t tick r.0 (omega (arith, r.1, b.0)) r.4
                  (ground (arith, same)) r.6 (inr (r.2, r.5, r.3))
            | inl free ↦ elim (Result-cases (create_occurrence s e slot n now)) [
              | inl (f, failed) ↦ absurd (ground (arith, found, free, failed))
              | inr ((job_id, q), made) ↦
                  let r =
                    record_occurrence_lem s s' q e.id slot next k created (some job_id) none t now
                      tick b.1 (ground (arith, found, free, made)) in
                  let (more, (job, jobs', id, of, for)) =
                    create_occurrence_lem s e slot n now job_id q made in
                  let same : count_rows (occupies e.id) s'.queue.jobs
                      ≡ count_rows (occupies e.id) q.jobs =
                    ap (λ (d : Db). count_rows (occupies e.id) d.jobs) r.3 in
                  let empty : count_rows (occupies e.id) s.queue.jobs ≡ 0 = ground arith in
                  Ticked-branch s s' e.id t tick r.0 (omega (arith, r.1, b.0)) r.4
                    (ground (arith, same, more, empty)) r.6
                    (inl (
                      r.2,
                      empty,
                      (
                        job,
                        ap (λ (d : Db). d.jobs) r.3 ∙ jobs',
                        r.5 ∙ ap some (sym id),
                        of ∙ ap some (sym r.0),
                        for ∙ ap some (sym r.1),
                      ),
                    ))
            ]
          ]
    ]

-- A tick that finds a schedule chooses a slot that is not after the clock and was not recorded before,
-- adds one row for it to the occurrences, with the outcome, the job and the number of slots that it
-- reports, and moves the schedule's cursor past the clock, so the schedule is not due any more. Where
-- no job of the schedule is under way, it adds the job of the slot behind the others; otherwise it
-- skips the slot and leaves the queue alone. So a schedule that had at most one job under way has
-- exactly one. The intervals of the schedules are positive.
pub materialize_next_schedule-ticks :
    (s s' : Store) (locked : ℕ → Bool) (as_of now : Time) (tick : ScheduleTick)
    → All (λ e. 0 < e.interval_seconds) s.schedules
    → materialize_next_schedule s locked as_of now ≡ ok (some tick, s')
    → Ticked s as_of tick s'
unfolding materialize_next_schedule
materialize_next_schedule-ticks s s' locked t now tick positive m =
    elim (Option-cases (first_row (is_due locked t) due_before s.schedules)) [
      | inl none_found ↦ absurd (ground (arith, none_found))
      | inr (e, first) ↦
          let chosen =
            first_row_lem (is_due locked t) due_before due_before-IsRowOrder
              (λ e. 0 < e.interval_seconds) s.schedules e positive first in
          materialize_schedule_lem s s' e t now tick chosen.0 (ground (arith, first))
    ]
