-- ===== src/Examples/Files.antt =====
-- The theorems on stored files and images, at a small tree of files and at small sizes.
use task_harbor.Base.{
  ℕ, ◌+◌, ◌-◌, ◌*◌, ◌/◌, ◌≤◌, ◌≡◌, ◌↔◌, ◌⊎◌, refl, true, false, some, List, [], ◌∷◌, ◌++◌, All, min,
  arith, ◌^◌, ltb, if◌then◌else◌, list_eq,
}
use task_harbor.Core.{Text, accepted, rejected, is_empty, codes}
use task_harbor.Sql.{count_rows, select_rows}
use task_harbor.Image.{resized_dimensions, blend}
use task_harbor.Image.Sizes.{resized_dimensions-bounds, blend_lem}
use task_harbor.Storage.{
  resolve_key, output_key, decimal, usage_overflow, invalid_key, components, split_slash,
  inner_components,
}
use task_harbor.Storage.Confined.{IsName, resolve_key-confined}
use task_harbor.Storage.Keys.{output_key-separates}
use task_harbor.Storage.Files.{
  Entries, end, file, folder, directory_usage, cleanup_directory, is_removed, is_protected,
  starts_with,
}
use task_harbor.Storage.Usage.{tree_bytes, directory_usage-sums}
use task_harbor.Storage.Steps.{stored_files, bytes_of, goes, stays}
use task_harbor.Tables.{in_progress}
use task_harbor.Schedule.Store.{Store}
use task_harbor.Maintenance.{storage_references, active_attempt_output_prefixes}
use task_harbor.Maintenance.Protection.{maintenance_protects}
use task_harbor.Examples.Run.{claimed}
use task_harbor.Examples.Scheduling.{one_schedule}
use task_harbor.Examples.Working.{photo}
use task_harbor.Storage.Cleanup.{cleanup_directory-keeps, cleanup_directory-removes}

resized_dimensions-bounds_example :
    ((resized_dimensions 4000 3001 1600).0 ≡ min 4000 1600)
    × (1 ≤ (resized_dimensions 4000 3001 1600).1)
    × ((resized_dimensions 4000 3001 1600).1 ≤ 3001)
    × (2 * (3001 * min 4000 1600) ≤ 2 * ((resized_dimensions 4000 3001 1600).1 * 4000) + 4000)
    × ((2 * ((resized_dimensions 4000 3001 1600).1 * 4000) ≤ 2 * (3001 * min 4000 1600) + 4000)
        ⊎ ((resized_dimensions 4000 3001 1600).1 ≡ 1))
resized_dimensions-bounds_example =
    resized_dimensions-bounds 4000 3001 1600 (omega arith) (omega arith) (omega arith) (omega arith)

blend_lem_example :
    (blend 128 20 ≡ (20 * 128 + 255 * (255 - 128) + 127) / 255)
    × (20 ≤ blend 128 20)
    × (blend 128 20 ≤ 255)
    × (blend 0 20 ≡ 255)
    × (blend 255 20 ≡ 20)
blend_lem_example = blend_lem 128 20 (omega arith) (omega arith)

resolve_key-confined_example :
    (is_empty (codes "in" ∷ codes "a.b" ∷ []) ≡ false) × All IsName (codes "in" ∷ codes "a.b" ∷ [])
unfolding resolve_key components split_slash inner_components list_eq
resolve_key-confined_example =
    resolve_key-confined (codes "in//./a.b") (codes "in" ∷ codes "a.b" ∷ []) refl

-- A key that would leave the root.
climbing : resolve_key (codes "inputs/../../outside") ≡ rejected invalid_key
unfolding resolve_key components split_slash inner_components list_eq
climbing = refl

output_key-separates_example :
    (resolve_key (output_key 12 3 4)
      ≡ accepted (
          codes "outputs"
          ∷ (codes "job-" ++ decimal 12)
          ∷ (codes "attempt-" ++ decimal 3)
          ∷ (codes "input-" ++ (decimal 4 ++ codes ".jpg"))
          ∷ []))
    × ((output_key 12 3 4 ≡ output_key 1 23 4)
        ↔ (((◌≡◌ {A = ℕ} 12 1) × (◌≡◌ {A = ℕ} 3 23) × (◌≡◌ {A = ℕ} 4 4))))
output_key-separates_example =
    output_key-separates 12 3 4 1 23 4 (omega arith) (omega arith) (omega arith) (omega arith)
      (omega arith) (omega arith)

-- An input that is referenced, an old orphan, and a young file of an attempt.
abbrev tree : Entries
tree =
    folder (codes "inputs")
      (file (codes "kept") false 5 (some 10) (file (codes "orphan") false 6 (some 10) end))
      (folder (codes "outputs") (file (codes "new") false 7 (some 90) end) end)

abbrev references : List Text
references = codes "inputs/kept" ∷ []

directory_usage-sums_example :
    directory_usage tree
    ≡ some (
        if ltb (tree_bytes tree) (2 ^ 64)
        then accepted (tree_bytes tree)
        else rejected usage_overflow)
directory_usage-sums_example = directory_usage-sums tree

cleanup_directory-keeps_example :
    select_rows
      (stays references [] 50)
      (stored_files [] (cleanup_directory references [] 50 tree).0)
    ≡ select_rows (stays references [] 50) (stored_files [] tree)
cleanup_directory-keeps_example = cleanup_directory-keeps references [] 50 tree

cleanup_directory-removes_example :
    (stored_files [] (cleanup_directory references [] 50 tree).0
      ≡ select_rows (stays references [] 50) (stored_files [] tree))
    × ((cleanup_directory references [] 50 tree).1
        ≡ accepted (record {
          files_removed = count_rows (goes references [] 50) (stored_files [] tree);
          bytes_removed = bytes_of (goes references [] 50) (stored_files [] tree);
        }))
unfolding stored_files is_removed is_protected starts_with list_eq count_rows bytes_of
cleanup_directory-removes_example =
    cleanup_directory-removes references [] 50 tree (omega arith) (omega arith)

-- A running attempt, an input of its job and an input of a schedule.
abbrev known : Store
known = record one_schedule { queue = record claimed.db { artifacts = photo ∷ [] } }

maintenance_protects_example :
    All
      (λ a.
        is_protected
          (storage_references known)
          (active_attempt_output_prefixes known.queue)
          a.storage_key
        ≡ true)
      known.queue.artifacts
    × All
        (λ i.
          is_protected
            (storage_references known)
            (active_attempt_output_prefixes known.queue)
            i.artifact.storage_key
          ≡ true)
        known.inputs
    × All
        (λ a.
          is_protected
            (storage_references known)
            (active_attempt_output_prefixes known.queue)
            (output_key a.job_id a.id 7)
          ≡ true)
        (select_rows (λ a. in_progress a.state) known.queue.attempts)
maintenance_protects_example = maintenance_protects known 7
