-- ===== src/Schedule/Cursor.antt =====
-- The settings of schedules stay in their range, and an edit leaves no slot behind the clock.
use task_harbor.Base.{
  ℕ, ◌*◌, ◌-◌, ◌≤◌, ◌<◌, ◌≡◌, refl, sym, ap, subst, ◌&&◌, inl, inr, Option, some, List, [], ◌∷◌,
  All, arith, ok, leb, Result-cases, ◌∙◌, ◌+◌, ◌++◌, map, true, length,
}
use task_harbor.Clock.{Time, second, checked_add}
use task_harbor.Sql.{count_rows, update_rows, insert_row}
use task_harbor.Sql.Counts.{All-insert, All-update, insert_row-append}
use task_harbor.Queue.Create.{NewInputArtifact}
use task_harbor.Schedule.{next_slot_after, validate_schedule_fields}
use task_harbor.Schedule.Recurrence.{div_bounds}
use task_harbor.Schedule.Store.{
  Store, ScheduleEntry, NewSchedule, UpdateSchedule, create_schedule, update_schedule, new_schedule,
  owned_schedule, update_schedule_row, ScheduleInput, schedule_inputs,
}

-- The settings that a schedule may have.
pub record ValidSchedule (e : ScheduleEntry) : Type 0 where
  pub interval : (60 ≤ e.interval_seconds) × (e.interval_seconds ≤ 31536000)
  pub width : (1 ≤ e.max_width) × (e.max_width ≤ 8192)
  pub quality : (1 ≤ e.jpeg_quality) × (e.jpeg_quality ≤ 100)

next_slot_after_lem :
    (anchor interval as_of next : ℕ)
    → 0 < interval
    → next_slot_after anchor interval as_of ≡ ok next
    → as_of < next
unfolding next_slot_after checked_add
next_slot_after_lem n interval t next h e =
    let b = div_bounds (t - n) (interval * second) (omega arith) in ground (arith, b.1)

cursor_passed :
    (schedule_id : ℕ) (owner : Option ℕ) (r : UpdateSchedule) (as_of next now : Time)
    (xs : List ScheduleEntry)
    → as_of < next
    → count_rows
        (λ e. owned_schedule schedule_id owner e && leb e.next_run_at as_of)
        (update_rows (owned_schedule schedule_id owner) (update_schedule_row r next now) xs)
      ≡ 0
unfolding count_rows update_rows
cursor_passed i o r t next now [] h = refl
cursor_passed i o r t next now (x ∷ xs) h = ground (arith, cursor_passed i o r t next now xs h)

schedule_inputs_lem :
    (schedule_id item_index : ℕ) (xs : List NewInputArtifact) (rows : List ScheduleInput)
    → schedule_inputs schedule_id item_index xs ≡ ok rows
    → (map (λ (i : ScheduleInput). i.artifact) rows ≡ xs)
      × All (λ i. i.schedule_id ≡ schedule_id) rows
unfolding schedule_inputs
schedule_inputs_lem n k [] [] e = (refl, tt)
schedule_inputs_lem n k [] (y ∷ ys) e = absurd (ground arith)
schedule_inputs_lem n k (x ∷ xs) rows e = elim (Result-cases (schedule_inputs n (k + 1) xs)) [
  | inl (f, failed) ↦ absurd (ground (arith, failed))
  | inr (rest, found) ↦
      let row : ScheduleInput = record { schedule_id = n; item_index = k; artifact = x } in
      let same : row ∷ rest ≡ rows = ground (arith, found) in
      let more = schedule_inputs_lem n (k + 1) xs rest found in
      subst
        (λ ys.
          (map (λ (i : ScheduleInput). i.artifact) ys ≡ x ∷ xs) × All (λ i. i.schedule_id ≡ n) ys)
        same (ap (λ zs. x ∷ zs) more.0, (refl, more.1))
]

-- The row holds what the request asks for, is enabled and starts at its anchor.
abbrev pub AsRequested : ScheduleEntry → NewSchedule → Type 0
AsRequested row r =
    (row.name ≡ r.name.as_str)
    × (row.owner_user_id ≡ r.owner_user_id)
    × (row.enabled ≡ true)
    × (row.interval_seconds ≡ r.interval_seconds)
    × (row.anchor_at ≡ r.anchor_at)
    × (row.next_run_at ≡ r.anchor_at)
    × (row.priority ≡ r.priority)
    × (row.max_width ≡ r.max_width)
    × (row.jpeg_quality ≡ r.jpeg_quality)

-- The inputs of the schedule stand behind those of the others, as the request lists them.
abbrev pub InputsAdded : Store → ScheduleEntry → NewSchedule → Store → Type 0
InputsAdded s row r s' =
    (added : List ScheduleInput) × (s'.inputs ≡ s.inputs ++ added)
    × (map (λ (i : ScheduleInput). i.artifact) added ≡ r.inputs)
    × All (λ i. i.schedule_id ≡ row.id) added

-- A schedule that is created is as requested, has settings in the ranges of the service and between 1
-- and 10 inputs, which are added in the order of the request, and starts at its anchor. Its row is
-- added behind the other schedules, which stay as they are and so keep their settings in range, and
-- jobs, artifacts and occurrences stay as they are.
pub create_schedule-ValidSchedule :
    (s s' : Store) (r : NewSchedule) (now : Time) (row : ScheduleEntry)
    → All ValidSchedule s.schedules
    → create_schedule s r now ≡ ok (row, s')
    → All ValidSchedule s'.schedules
      × ValidSchedule row
      × AsRequested row r
      × (s'.schedules ≡ s.schedules ++ row ∷ [])
      × InputsAdded s row r s'
      × ((1 ≤ length r.inputs) × (length r.inputs ≤ 10))
      × (s'.queue ≡ s.queue)
      × (s'.occurrences ≡ s.occurrences)
unfolding create_schedule validate_schedule_fields
create_schedule-ValidSchedule s s' r now row valid e =
    elim (Result-cases (schedule_inputs s.next_schedule_id 0 r.inputs)) [
      | inl (f, failed) ↦ absurd (ground (arith, failed))
      | inr (added, found) ↦
          let fresh = new_schedule s.next_schedule_id r now in
          let within : ValidSchedule fresh = record {
            interval = ground arith;
            width = ground arith;
            quality = ground arith;
          } in
          let same : fresh ≡ row = ground (arith, found) in
          let rows : insert_row fresh s.schedules ≡ s'.schedules = ground (arith, found) in
          let inputs : s.inputs ++ added ≡ s'.inputs = ground (arith, found) in
          let listed = schedule_inputs_lem s.next_schedule_id 0 r.inputs added found in
          (
            subst (All ValidSchedule) rows
                (All-insert ValidSchedule fresh s.schedules within valid),
            subst ValidSchedule same within,
            subst (λ x. AsRequested x r) same
                (refl, refl, refl, refl, refl, refl, refl, refl, refl),
            subst (λ x. s'.schedules ≡ s.schedules ++ x ∷ []) same
                (sym rows ∙ insert_row-append fresh s.schedules),
            subst (λ x. InputsAdded s x r s') same (added, sym inputs, listed.0, listed.1),
            (ground arith, ground arith),
            ground (arith, found),
            ground (arith, found),
          )
    ]

-- An edit that is accepted keeps the settings of all schedules in the ranges of the service, and no
-- row that it has changed is due at its clock: the next slot of the new grid is still to come.
pub update_schedule-not_due :
    (s s' : Store) (schedule_id : ℕ) (r : UpdateSchedule) (as_of : Time) (owner : Option ℕ)
    (now : Time) (row : ScheduleEntry)
    → All ValidSchedule s.schedules
    → update_schedule s schedule_id r as_of owner now ≡ ok (some row, s')
    → All ValidSchedule s'.schedules
      × (count_rows
            (λ e. owned_schedule schedule_id owner e && leb e.next_run_at as_of)
            s'.schedules
          ≡ 0)
unfolding update_schedule validate_schedule_fields
update_schedule-not_due s s' i r t owner now row valid e =
    elim (Result-cases (next_slot_after r.anchor_at r.interval_seconds t)) [
      | inl (f, failed) ↦ absurd (ground (arith, failed))
      | inr (next, found) ↦
          let settings : ((60 ≤ r.interval_seconds) × (r.interval_seconds ≤ 31536000))
              × ((1 ≤ r.max_width) × (r.max_width ≤ 8192))
              × ((1 ≤ r.jpeg_quality) × (r.jpeg_quality ≤ 100)) =
            ground (arith, found) in
          let passed = cursor_passed i owner r t next now s.schedules (
            next_slot_after_lem r.anchor_at r.interval_seconds t next (omega (arith, settings.0.0))
              found) in
          let rows : update_rows (owned_schedule i owner) (update_schedule_row r next now)
                s.schedules
              ≡ s'.schedules =
            ground (arith, found) in
          (
            subst (All ValidSchedule) rows (
                All-update ValidSchedule ValidSchedule (owned_schedule i owner)
                  (update_schedule_row r next now)
                  (λ x h k. record {
                    interval = settings.0;
                    width = settings.1;
                    quality = settings.2;
                  })
                  (λ x h k. k) s.schedules valid),
            subst (λ xs. count_rows (λ e. owned_schedule i owner e && leb e.next_run_at t) xs ≡ 0)
                rows passed,
          )
    ]
