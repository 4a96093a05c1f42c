-- ===== src/Storage/Files.antt =====
-- The tree of files below the storage's root, its size and the removal of files that nothing refers
-- to (`directory_usage` and `cleanup_directory`, crates/adapters/src/storage.rs). The entries of a
-- directory are a list in the order in which they are read. Nothing else writes to the tree
-- meanwhile, and the file system answers without errors.
use task_harbor.Base.{
  ℕ, zero, suc, ◌+◌, ◌%◌, ◌^◌, Bool, true, false, ◌&&◌, ◌||◌, not, Option, none, some, List, [],
  ◌∷◌, ◌++◌, ◌==◌, map, ltb, if◌then◌else◌, all, list_eq, is_at_most,
}
use task_harbor.Core.{Text, Checked, accepted, rejected}
use task_harbor.Clock.{Time}
use task_harbor.Storage.{StorageError, usage_overflow, invalid_key, resolve_key}

-- `modified` is none where the file system does not know it. A symbolic link stands among the files;
-- its size is that of the link.
pub data Entries : Type 0 where
  end : Entries
  file :
      (name : Text) (is_symlink : Bool) (size : ℕ) (modified : Option Time) (rest : Entries)
      → Entries
  folder : (name : Text) (content rest : Entries) → Entries

abbrev pub u64_range : ℕ
u64_range = 2 ^ 64

-- `checked_add` of `u64`.
abbrev pub checked_sum : ℕ → ℕ → Option ℕ
checked_sum a b = if ltb (a + b) u64_range then some (a + b) else none

-- One round of `directory_usage`: the entries of a directory, the directories that are to be read
-- (the last one found first) and the total so far.
unfoldable pub scan : Entries → List Entries → ℕ → Option (List Entries × ℕ)
scan end pending total = some (pending, total)
scan (folder _ content rest) pending total = scan rest (content ∷ pending) total
scan (file _ true _ _ rest) pending total = scan rest pending total
scan (file _ false size _ rest) pending total = elim (checked_sum total size) [
  | none ↦ none
  | some total' ↦ scan rest pending total'
]

-- The loop of `directory_usage`. `none` means that the fuel ran out.
unfoldable pub usage_rounds :
    (fuel : ℕ) → List Entries → (total : ℕ) → Option (Checked StorageError ℕ)
unfolding scan
usage_rounds zero pending total = none
usage_rounds (suc fuel) [] total = some (accepted total)
usage_rounds (suc fuel) (directory ∷ pending) total = elim (scan directory pending total) [
  | none ↦ some (rejected usage_overflow)
  | some (pending', total') ↦ usage_rounds fuel pending' total'
]

-- The directories of a tree, without its root.
unfoldable pub folders : Entries → ℕ
folders end = 0
folders (file _ _ _ _ rest) = folders rest
folders (folder _ content rest) = suc (folders content + folders rest)

unfoldable pub directory_usage : Entries → Option (Checked StorageError ℕ)
unfolding usage_rounds folders
directory_usage root = usage_rounds (suc (suc (folders root))) (root ∷ []) 0

pub record CleanupReport : Type 0 where
  pub files_removed : ℕ
  pub bytes_removed : ℕ

abbrev pub no_cleanup : CleanupReport
no_cleanup = record { files_removed = 0; bytes_removed = 0 }

-- `starts_with`.
unfoldable pub starts_with : Text → Text → Bool
starts_with text [] = true
starts_with [] (p ∷ ps) = false
starts_with (c ∷ cs) (p ∷ ps) = list_eq (c ∷ []) (p ∷ []) && starts_with cs ps

abbrev pub is_accepted : {E A : Type 0} → Checked E A → Bool
is_accepted (accepted _) = true
is_accepted (rejected _) = false

abbrev pub any {ℓ} : {A : Type ℓ} → (A → Bool) → List A → Bool
any p [] = false
any p (x ∷ xs) = p x || any p xs

-- Whether a file is kept for its key.
unfoldable pub is_protected : (referenced_keys protected_prefixes : List Text) → Text → Bool
unfolding starts_with
is_protected referenced_keys protected_prefixes relative =
    any (list_eq relative) referenced_keys
    || any (λ prefix. list_eq relative prefix || starts_with relative (prefix ++ 0x2f ∷ []))
        protected_prefixes

-- The key of an entry of a directory; that of the root is empty.
abbrev pub child_key : Text → Text → Text
child_key [] name = name
child_key (c ∷ cs) name = (c ∷ cs) ++ 0x2f ∷ name

-- `to_string_lossy().replace('\\', "/")`; a key is a text here.
abbrev pub slashed : Text → Text
slashed = map (λ c. if c == 0x5c then 0x2f else c)

abbrev pub is_end : Entries → Bool
is_end end = true
is_end _ = false

-- `+=` of `u64`, as it is compiled for release.
abbrev pub wrapping_sum : ℕ → ℕ → ℕ
wrapping_sum a b = (a + b) % u64_range

abbrev pub add_report : CleanupReport → CleanupReport → CleanupReport
add_report report child = record {
  files_removed = wrapping_sum report.files_removed child.files_removed;
  bytes_removed = wrapping_sum report.bytes_removed child.bytes_removed;
}

-- The entries that are left in a directory, and the report or the error.
abbrev pub Cleaned : Type 0
Cleaned = Entries × Checked StorageError CleanupReport

-- `remove_dir` of a directory that is empty by now, except right below the root.
abbrev pub put_folder : (at_root : Bool) → Text → Entries → Entries → Entries
put_folder at_root name content rest =
    if not at_root && is_end content then rest else folder name content rest

-- The rest of a directory behind one of its entries.
abbrev pub with_entry : (Entries → Entries) → Cleaned → Cleaned
with_entry entry (rest, report) = (entry rest, report)

module _ (referenced_keys protected_prefixes : List Text) (older_than : Time) where
  -- Whether `cleanup_directory` removes a file.
  unfoldable pub is_removed : Text → Option Time → Bool
  unfolding is_protected
  is_removed relative modified =
      not (is_protected referenced_keys protected_prefixes relative)
      && is_at_most modified older_than

  -- `cleanup_directory`, behind the report on the entries before.
  unfoldable pub cleanup_entries :
      (at_root : Bool) (directory : Text) → CleanupReport → Entries → Cleaned
  unfolding is_removed
  cleanup_entries at_root directory report end = (end, accepted report)
  cleanup_entries at_root directory report (folder name content rest) =
      let (content', found) = cleanup_entries false (child_key directory name) no_cleanup content in
      elim found [
        | rejected e ↦ (folder name content' rest, rejected e)
        | accepted child ↦
            with_entry (put_folder at_root name content')
              (cleanup_entries at_root directory (add_report report child) rest)
      ]
  cleanup_entries at_root directory report (file name is_symlink size modified rest) =
      elim (is_removed (slashed (child_key directory name)) modified) [
        | false ↦
            with_entry (file name is_symlink size modified)
              (cleanup_entries at_root directory report rest)
        | true ↦ elim (checked_sum report.bytes_removed size) [
          | none ↦ (rest, rejected usage_overflow)
          | some bytes ↦
              cleanup_entries at_root directory
                (record {
                  files_removed = wrapping_sum report.files_removed 1;
                  bytes_removed = bytes;
                })
                rest
        ]
      ]

  -- `cleanup_directory` of the root.
  unfoldable pub cleanup_directory : Entries → Cleaned
  unfolding cleanup_entries
  cleanup_directory root = cleanup_entries true [] no_cleanup root

-- `LocalStorage::cleanup_unreferenced`: each key and prefix has to resolve.
unfoldable pub cleanup_unreferenced :
    (referenced_keys protected_prefixes : List Text) (older_than : Time) → Entries → Cleaned
unfolding cleanup_directory
cleanup_unreferenced referenced_keys protected_prefixes older_than root =
    if all (λ key. is_accepted (resolve_key key)) (referenced_keys ++ protected_prefixes)
    then cleanup_directory referenced_keys protected_prefixes older_than root
    else (root, rejected invalid_key)
