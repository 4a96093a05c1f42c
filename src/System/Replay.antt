-- ===== src/System/Replay.antt =====
-- A request to create an image job that is sent again with its idempotency key.
use task_harbor.Base.{
  ℕ, ◌≡◌, ◌≢◌, ◌⊎◌, sym, ◌∙◌, ap, subst, some, arith, ok, err, list_eq, list_eq_self, list_eq→eq,
  idempotency_conflict, Bool-cases, inl, inr,
}
use task_harbor.Clock.{Time}
use task_harbor.Sql.{find_row}
use task_harbor.Tables.{Db, JobEntry}
use task_harbor.Queue.Cancel.{get_job, owned_job}
use task_harbor.Queue.Create.{
  NewImageJob, IdempotencyRequest, create_image_job, validate_image_job, find_request, same_request,
}
use task_harbor.Queue.Replay.{Recorded, recorded}
use task_harbor.System.{World, Reach, initial, with_db}
use task_harbor.System.Reachable.{reached-Inv}
use task_harbor.System.Keys.{find_row-Kept, find_row-holds}
use task_harbor.System.Keeping.{Reach-Kept}

-- What is recorded of a request stays recorded, for the same job in whatever state it is by then.
Recorded-Reach :
    (w u : World) (owner : ℕ) (k : IdempotencyRequest) (j : JobEntry)
    → Reach w u
    → Recorded w.db owner k j
    → (j' : JobEntry) × (j'.id ≡ j.id)
      × (get_job u.db j.id (some owner) ≡ some j')
      × Recorded u.db owner k j'
unfolding Recorded get_job same_request
Recorded-Reach w u owner k j r (row, hit, print, read) =
    let kept = Reach-Kept r in
    let (row', hit', key) =
      find_row-Kept (same_request owner k.key) (λ a b h. ground (arith, h)) w.db.jobs u.db.jobs kept
        row hit in
    let (j', read', same) =
      find_row-Kept (owned_job row.id (some owner)) (λ a b h. ground (arith, h)) w.db.jobs u.db.jobs
        kept j read in
    let of_row : j.id ≡ row.id =
      let owned = find_row-holds (owned_job row.id (some owner)) w.db.jobs j read in ground arith in
    (
      j',
      same.0,
      subst (λ i. find_row (owned_job i (some owner)) u.db.jobs ≡ some j') (sym of_row) read',
      (
        row',
        hit',
        key.3 ∙ print,
        subst (λ i. find_row (owned_job i (some owner)) u.db.jobs ≡ some j') (sym key.0) read',
      ),
    )

-- A request with an idempotency key has made a job, or has found one, in a state of the queue that can
-- be reached. It is sent again by the same owner with the same key and the same fingerprint, behind
-- any steps of the queue: whatever else it holds and whatever the job is by then, a valid request
-- gets the same job as it now is, and the database does not change. With another fingerprint it is a
-- conflict.
pub create_image_job-replay :
    {w u : World} (db' : Db) (r again : NewImageJob) (k l : IdempotencyRequest) (now later : Time)
    (j : JobEntry)
    → Reach initial w
    → r.idempotency ≡ some k
    → create_image_job w.db r now ≡ ok (j, db')
    → Reach (with_db w db') u
    → again.idempotency ≡ some l
    → again.owner_user_id ≡ r.owner_user_id
    → l.key ≡ k.key
    → validate_image_job again ≡ ok tt
    → (l.fingerprint ≡ k.fingerprint)
        × ((j' : JobEntry) × (j'.id ≡ j.id)
            × (get_job u.db j.id (some r.owner_user_id) ≡ some j')
            × (create_image_job u.db again later ≡ ok (j', u.db)))
      ⊎ (l.fingerprint ≢ k.fingerprint)
        × (create_image_job u.db again later ≡ err idempotency_conflict)
unfolding create_image_job Recorded find_request
create_image_job-replay {w} {u} db' r again k l now later j reach key first steps key' owner
      same_key valid =
    let before =
      recorded w.db db' r k now j key ((reached-Inv reach).job_fresh w.db.next_job_id (omega arith))
        first in
    let (j', same, now_read, (row, hit, print, read)) =
      Recorded-Reach (with_db w db') u r.owner_user_id k j steps before in
    let hit' : find_row (same_request again.owner_user_id l.key) u.db.jobs ≡ some row =
      rw (owner, same_key) hit in
    let read' : get_job u.db row.id (some again.owner_user_id) ≡ some j' = rw owner read in
    elim (Bool-cases (list_eq k.fingerprint l.fingerprint)) [
      | inl h ↦ inl (
        sym (list_eq→eq _ _ h),
        (j', same, now_read, ground (arith, valid, key', hit', print, h, read')),
      )
      | inr h ↦ inr (
        λ e. ground (arith, list_eq_self k.fingerprint, ap (list_eq k.fingerprint) e),
        ground (arith, valid, key', hit', print, h),
      )
    ]
