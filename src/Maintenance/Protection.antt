-- ===== src/Maintenance/Protection.antt =====
-- The files that the cleanup of the maintenance leaves alone.
use mathlib.Core.List.{append_assoc}
use task_harbor.Base.{
  ℕ, ◌≡◌, refl, subst, Bool, true, ◌||◌, List, [], ◌∷◌, ◌++◌, map, All, arith, list_eq,
  list_eq_self, Bool-cases, inl, inr,
}
use task_harbor.Core.{Text, codes}
use task_harbor.Sql.{select_rows}
use task_harbor.Sql.Counts.{All-map}
use task_harbor.Tables.{AttemptEntry, ArtifactEntry, in_progress}
use task_harbor.Schedule.Store.{Store, ScheduleInput}
use task_harbor.Storage.{output_key, attempt_output_prefix, decimal}
use task_harbor.Storage.Files.{is_protected, starts_with, any}
use task_harbor.Maintenance.{storage_references, active_attempt_output_prefixes}

any-append_left : (p : Text → Bool) (xs ys : List Text) → any p xs ≡ true → any p (xs ++ ys) ≡ true
any-append_left p [] ys h = cc
any-append_left p (x ∷ xs) ys h = ground (arith, any-append_left p xs ys)

any-append_right : (p : Text → Bool) (xs ys : List Text) → any p ys ≡ true → any p (xs ++ ys) ≡ true
any-append_right p [] ys h = h
any-append_right p (x ∷ xs) ys h = ground (arith, any-append_right p xs ys)

-- Each item passes a test of its own image.
any_self :
    {A : Type 0} (q : A → Text → Bool) (g : A → Text) (xs : List A)
    → ((x : A) → q x (g x) ≡ true)
    → All (λ x. any (q x) (map g xs) ≡ true) xs
any_self q g [] h = tt
any_self q g (x ∷ xs) h = (
  ground (arith, h x),
  All-map (λ y. any (q y) (map g xs) ≡ true) (λ y. any (q y) (map g (x ∷ xs)) ≡ true)
      (λ y k. ground arith) xs (any_self q g xs h),
)

starts_with-append : (p rest : Text) → starts_with (p ++ rest) p ≡ true
unfolding starts_with list_eq
starts_with-append [] [] = refl
starts_with-append [] (r ∷ rest) = refl
starts_with-append (c ∷ cs) rest = ground (arith, starts_with-append cs rest)

prefix_slash : (p rest : Text) → starts_with (p ++ 0x2f ∷ rest) (p ++ 0x2f ∷ []) ≡ true
prefix_slash p rest =
    subst (λ t. starts_with t (p ++ 0x2f ∷ []) ≡ true) (append_assoc p (0x2f ∷ []) rest)
      (starts_with-append (p ++ 0x2f ∷ []) rest)

keeps_referenced :
    (key : Text) (references prefixes : List Text)
    → any (list_eq key) references ≡ true
    → is_protected references prefixes key ≡ true
unfolding is_protected
keeps_referenced key references prefixes h = ground (arith)

below_prefix :
    (key : Text) (references prefixes : List Text)
    → any (λ p. list_eq key p || starts_with key (p ++ 0x2f ∷ [])) prefixes ≡ true
    → is_protected references prefixes key ≡ true
unfolding is_protected
below_prefix key references prefixes h = elim (Bool-cases (any (list_eq key) references)) [
  | inr unlisted ↦ rw unlisted h
  | inl listed ↦ rw listed refl
]

output_key-starts :
    (job_id attempt_id input_id : ℕ)
    → starts_with
        (output_key job_id attempt_id input_id)
        (attempt_output_prefix job_id attempt_id ++ 0x2f ∷ [])
      ≡ true
unfolding output_key
output_key-starts job_id attempt_id input_id =
    prefix_slash (attempt_output_prefix job_id attempt_id)
      (codes "input-" ++ (decimal input_id ++ codes ".jpg"))

-- The keys and prefixes that the maintenance reads from the database protect, in the cleanup of
-- files, what the database knows: the key of every artifact and of every input of a schedule, and the
-- key of the output of any input in any running attempt.
pub maintenance_protects :
    (s : Store) (input_id : ℕ)
    → All
        (λ a.
          is_protected (storage_references s) (active_attempt_output_prefixes s.queue) a.storage_key
          ≡ true)
        s.queue.artifacts
      × All
          (λ i.
            is_protected
              (storage_references s)
              (active_attempt_output_prefixes s.queue)
              i.artifact.storage_key
            ≡ true)
          s.inputs
      × All
          (λ a.
            is_protected
              (storage_references s)
              (active_attempt_output_prefixes s.queue)
              (output_key a.job_id a.id input_id)
            ≡ true)
          (select_rows (λ a. in_progress a.state) s.queue.attempts)
unfolding is_protected storage_references active_attempt_output_prefixes
maintenance_protects s input_id =
    let artifact_keys = map (λ (a : ArtifactEntry). a.storage_key) s.queue.artifacts in
    let input_keys = map (λ (i : ScheduleInput). i.artifact.storage_key) s.inputs in
    let keys = artifact_keys ++ input_keys in
    let prefixes = active_attempt_output_prefixes s.queue in
    let running : List AttemptEntry = select_rows (λ a. in_progress a.state) s.queue.attempts in
    (
      All-map (λ a. any (list_eq a.storage_key) artifact_keys ≡ true)
          (λ a. is_protected keys prefixes a.storage_key ≡ true)
          (λ a h.
            keeps_referenced a.storage_key keys prefixes
              (any-append_left (list_eq a.storage_key) artifact_keys input_keys h))
          s.queue.artifacts
          (any_self (λ a. list_eq a.storage_key) (λ a. a.storage_key) s.queue.artifacts
            (λ a. list_eq_self a.storage_key)),
      All-map (λ i. any (list_eq i.artifact.storage_key) input_keys ≡ true)
          (λ i. is_protected keys prefixes i.artifact.storage_key ≡ true)
          (λ i h.
            keeps_referenced i.artifact.storage_key keys prefixes
              (any-append_right (list_eq i.artifact.storage_key) artifact_keys input_keys h))
          s.inputs
          (any_self (λ i. list_eq i.artifact.storage_key) (λ i. i.artifact.storage_key) s.inputs
            (λ i. list_eq_self i.artifact.storage_key)),
      All-map (λ a. any (covers a) prefixes ≡ true)
          (λ a. is_protected keys prefixes (output_key a.job_id a.id input_id) ≡ true)
          (λ a h. below_prefix (output_key a.job_id a.id input_id) keys prefixes h) running
          (any_self covers (λ a. attempt_output_prefix a.job_id a.id) running
            (λ a. ground (arith, output_key-starts a.job_id a.id input_id))),
    )
  where
    covers : AttemptEntry → Text → Bool
    covers a p =
        list_eq (output_key a.job_id a.id input_id) p
        || starts_with (output_key a.job_id a.id input_id) (p ++ 0x2f ∷ [])
