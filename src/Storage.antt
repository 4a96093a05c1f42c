-- ===== src/Storage.antt =====
-- The keys of stored files and the directories behind them (crates/adapters/src/storage.rs). A key
-- is resolved as on Unix: the path is split at `/`. The result is the list of the path's components
-- below the storage's root. Numbers in keys are at most 20 digits long, as those of `u64` and `i64`.
pub mod Confined
pub mod Files
pub mod Keys
pub mod Steps
pub mod Cleanup
pub mod Usage
use task_harbor.Base.{
  ℕ, zero, suc, ◌+◌, ◌/◌, ◌%◌, Bool, true, false, ◌||◌, not, List, [], ◌∷◌, ◌++◌, ltb, ◌==◌,
  if◌then◌else◌, list_eq, all,
}
use task_harbor.Core.{Text, Checked, accepted, rejected, is_empty, codes}

pub data StorageError : Type 0 where
  io : StorageError
  invalid_key : StorageError
  join_failed : StorageError
  usage_overflow : StorageError

-- `std::path::Component`, less the prefixes of Windows.
pub data Component : Type 0 where
  root_dir : Component
  cur_dir : Component
  parent_dir : Component
  normal : Text → Component

-- The pieces of a path between its slashes. There is always a first one.
abbrev pub extend : ℕ → List Text → List Text
extend c [] = (c ∷ []) ∷ []
extend c (piece ∷ pieces) = (c ∷ piece) ∷ pieces

unfoldable pub split_slash : Text → List Text
split_slash [] = [] ∷ []
split_slash (c ∷ cs) = if c == 0x2f then [] ∷ split_slash cs else extend c (split_slash cs)

-- `Path::components` behind the first piece: empty pieces and `.` are skipped.
unfoldable pub inner_components : List Text → List Component
inner_components [] = []
inner_components (piece ∷ pieces) =
    let rest = inner_components pieces in
    if is_empty piece || list_eq piece (0x2e ∷ [])
    then rest
    else if list_eq piece (0x2e ∷ 0x2e ∷ [])
    then parent_dir ∷ rest
    else normal piece ∷ rest

abbrev pub is_absolute : Text → Bool
is_absolute [] = false
is_absolute (c ∷ _) = c == 0x2f

-- `Path::components`: a `.` is a component at the start only.
abbrev pub first_components : List Text → List Component
first_components [] = []
first_components (piece ∷ pieces) =
    if list_eq piece (0x2e ∷ [])
    then cur_dir ∷ inner_components pieces
    else inner_components (piece ∷ pieces)

unfoldable pub components : Text → List Component
unfolding split_slash inner_components
components path =
    if is_absolute path
    then root_dir ∷ inner_components (split_slash path)
    else first_components (split_slash path)

abbrev pub is_normal : Component → Bool
is_normal (normal _) = true
is_normal _ = false

abbrev pub names : List Component → List Text
names [] = []
names (normal name ∷ rest) = name ∷ names rest
names (_ ∷ rest) = names rest

abbrev pub contains : ℕ → Text → Bool
contains c [] = false
contains c (d ∷ ds) = d == c || contains c ds

-- `LocalStorage::resolve_key`, below the root.
unfoldable pub resolve_key : Text → Checked StorageError (List Text)
unfolding components
resolve_key key =
    if is_empty key
      || (contains 0x5c key
          || (contains 0x3a key || (is_absolute key || not (all is_normal (components key)))))
    then rejected invalid_key
    else accepted (names (components key))

-- Decimal digits, as `format!` writes a number.
abbrev pub digit : ℕ → ℕ
digit n = 0x30 + n % 10

unfoldable pub digits_before : (rounds n : ℕ) → Text → Text
digits_before zero n rest = rest
digits_before (suc rounds) n rest =
    let more = digits_before rounds (n / 10) (digit n ∷ rest) in
    if ltb n 10 then digit n ∷ rest else more

unfoldable pub decimal : ℕ → Text
unfolding digits_before
decimal n = digits_before 20 n []

-- `LocalStorage::attempt_output_prefix` and `LocalStorage::output_key`.
unfoldable pub attempt_output_prefix : (job_id attempt_id : ℕ) → Text
unfolding decimal
attempt_output_prefix job_id attempt_id =
    codes "outputs/job-" ++ (decimal job_id ++ (codes "/attempt-" ++ decimal attempt_id))

unfoldable pub output_key : (job_id attempt_id input_id : ℕ) → Text
unfolding attempt_output_prefix
output_key job_id attempt_id input_id =
    attempt_output_prefix job_id attempt_id
    ++ (codes "/input-" ++ (decimal input_id ++ codes ".jpg"))
