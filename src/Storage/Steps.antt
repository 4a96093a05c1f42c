-- ===== src/Storage/Steps.antt =====
-- The files of a tree that the cleanup keeps and removes, and its steps on them.
use task_harbor.Base.{
  is_at_most, ◌&&◌, ℕ, ◌+◌, ◌≡◌, ◌∙◌, refl, ap, Bool, true, false, not, Option, none, some, List,
  [], ◌∷◌, ◌++◌, if◌then◌else◌, arith, inl, inr, bit, ◌⊎◌,
}
use task_harbor.Core.{Text, Checked, accepted, rejected}
use task_harbor.Clock.{Time}
use task_harbor.Sql.{select_rows, count_rows}
use task_harbor.Storage.{StorageError, usage_overflow}
use task_harbor.Storage.Files.{
  Entries, end, file, folder, CleanupReport, child_key, slashed, is_protected, cleanup_entries,
  put_folder, with_entry, add_report, checked_sum, wrapping_sum, no_cleanup, Cleaned,
}

-- A file of a tree: its key, its size and its time.
pub record StoredFile : Type 0 where
  pub key : Text
  pub size : ℕ
  pub modified : Option Time

-- The files of a directory at any depth.
unfoldable pub stored_files : Text → Entries → List StoredFile
stored_files directory end = []
stored_files directory (file name _ size modified rest) =
    record { key = child_key directory name; size = size; modified = modified }
    ∷ stored_files directory rest
stored_files directory (folder name content rest) =
    stored_files (child_key directory name) content ++ stored_files directory rest

-- The bytes of the files that meet a test.
unfoldable pub bytes_of : (StoredFile → Bool) → List StoredFile → ℕ
bytes_of p [] = 0
bytes_of p (f ∷ fs) = (if p f then f.size else 0) + bytes_of p fs

select_rows-append {ℓ} :
    {A : Type ℓ} (p : A → Bool) (xs ys : List A)
    → select_rows p (xs ++ ys) ≡ select_rows p xs ++ select_rows p ys
unfolding select_rows
select_rows-append p [] ys = refl
select_rows-append p (x ∷ xs) ys = ground (arith, select_rows-append p xs ys)

count_rows-append {ℓ} :
    {A : Type ℓ} (p : A → Bool) (xs ys : List A)
    → count_rows p (xs ++ ys) ≡ count_rows p xs + count_rows p ys
unfolding count_rows
count_rows-append p [] ys = omega arith
count_rows-append p (x ∷ xs) ys = omega (arith, count_rows-append p xs ys)

bytes_of-append :
    (p : StoredFile → Bool) (xs ys : List StoredFile)
    → bytes_of p (xs ++ ys) ≡ bytes_of p xs + bytes_of p ys
unfolding bytes_of
bytes_of-append p [] ys = omega arith
bytes_of-append p (x ∷ xs) ys = omega (arith, bytes_of-append p xs ys)

pub Checked-cases :
    {E A : Type 0} (m : Checked E A) → ((e : E) × (m ≡ rejected e)) ⊎ ((a : A) × (m ≡ accepted a))
Checked-cases (accepted a) = inr (a, refl)
Checked-cases (rejected e) = inl (e, refl)

-- An empty directory holds no file.
pub stored_files-put_folder :
    (root : Bool) (d name : Text) (content rest : Entries)
    → stored_files d (put_folder root name content rest) ≡ stored_files d (folder name content rest)
unfolding stored_files
stored_files-put_folder true d name content rest = refl
stored_files-put_folder false d name end rest = refl
stored_files-put_folder false d name (file _ _ _ _ _) rest = refl
stored_files-put_folder false d name (folder _ _ _) rest = refl

module _ (referenced protected : List Text) (older_than : Time) where
  -- Whether the cleanup removes a file or keeps it.
  abbrev pub goes : StoredFile → Bool
  goes f =
      not (is_protected referenced protected (slashed f.key)) && is_at_most f.modified older_than

  abbrev pub stays : StoredFile → Bool
  stays f = not (goes f)

  abbrev pub clean : Bool → Text → CleanupReport → Entries → Cleaned
  clean = cleanup_entries referenced protected older_than

  -- The files that stay, and the number and the bytes of the others.
  unfoldable pub kept : Text → Entries → List StoredFile
  kept d e = select_rows stays (stored_files d e)

  unfoldable pub gone : Text → Entries → ℕ
  gone d e = count_rows goes (stored_files d e)

  unfoldable pub gone_bytes : Text → Entries → ℕ
  gone_bytes d e = bytes_of goes (stored_files d e)

  pub clean-end :
      (root : Bool) (d : Text) (report : CleanupReport)
      → clean root d report end ≡ (end, accepted report)
  unfolding cleanup_entries
  clean-end root d report = refl

  pub kept-end : (d : Text) → kept d end ≡ []
  unfolding kept stored_files select_rows
  kept-end d = refl

  pub gone-end : (d : Text) → gone d end ≡ 0
  unfolding gone stored_files count_rows
  gone-end d = refl

  pub gone_bytes-end : (d : Text) → gone_bytes d end ≡ 0
  unfolding gone_bytes stored_files bytes_of
  gone_bytes-end d = refl

  module _ (d name : Text) (content rest : Entries) where
    pub kept-folder :
        kept d (folder name content rest) ≡ kept (child_key d name) content ++ kept d rest
    unfolding kept stored_files
    kept-folder =
        select_rows-append stays (stored_files (child_key d name) content) (stored_files d rest)

    pub gone-folder :
        gone d (folder name content rest) ≡ gone (child_key d name) content + gone d rest
    unfolding gone stored_files
    gone-folder =
        count_rows-append goes (stored_files (child_key d name) content) (stored_files d rest)

    pub gone_bytes-folder :
        gone_bytes d (folder name content rest)
        ≡ gone_bytes (child_key d name) content + gone_bytes d rest
    unfolding gone_bytes stored_files
    gone_bytes-folder =
        bytes_of-append goes (stored_files (child_key d name) content) (stored_files d rest)

    pub kept-put_folder :
        (root : Bool)
        → kept d (put_folder root name content rest) ≡ kept d (folder name content rest)
    unfolding kept
    kept-put_folder root = ap (select_rows stays) (stored_files-put_folder root d name content rest)

    module _ (root : Bool) (report : CleanupReport) where
      pub clean-failed :
          (e : StorageError)
          → (clean false (child_key d name) no_cleanup content).1 ≡ rejected e
          → clean root d report (folder name content rest)
            ≡ (folder name (clean false (child_key d name) no_cleanup content).0 rest, rejected e)
      unfolding cleanup_entries
      clean-failed e h = rw (h, cleanup_entries) refl

      pub clean-done :
          (child : CleanupReport)
          → (clean false (child_key d name) no_cleanup content).1 ≡ accepted child
          → clean root d report (folder name content rest)
            ≡ with_entry
                (put_folder root name (clean false (child_key d name) no_cleanup content).0)
                (clean root d (add_report report child) rest)
      unfolding cleanup_entries
      clean-done child h = rw (h, cleanup_entries) refl

  module _ (d name : Text) (link : Bool) (size : ℕ) (modified : Option Time) (rest : Entries) where
    abbrev pub this : StoredFile
    this = record { key = child_key d name; size = size; modified = modified }

    pub kept-file :
        kept d (file name link size modified rest)
        ≡ (if goes this then kept d rest else this ∷ kept d rest)
    unfolding kept stored_files select_rows
    kept-file = ground arith

    pub kept-file_stays :
        goes this ≡ false → kept d (file name link size modified rest) ≡ this ∷ kept d rest
    kept-file_stays h = kept-file ∙ rw h refl

    pub kept-file_goes : goes this ≡ true → kept d (file name link size modified rest) ≡ kept d rest
    kept-file_goes h = kept-file ∙ rw h refl

    pub gone-file : gone d (file name link size modified rest) ≡ bit (goes this) + gone d rest
    unfolding gone stored_files count_rows
    gone-file = refl

    pub gone_bytes-file :
        gone_bytes d (file name link size modified rest)
        ≡ (if goes this then size else 0) + gone_bytes d rest
    unfolding gone_bytes stored_files bytes_of
    gone_bytes-file = refl

    module _ (root : Bool) (report : CleanupReport) where
      pub clean-kept :
          goes this ≡ false
          → clean root d report (file name link size modified rest)
            ≡ with_entry (file name link size modified) (clean root d report rest)
      unfolding cleanup_entries
      clean-kept h = rw (h, cleanup_entries) refl

      pub clean-gone :
          (bytes : ℕ)
          → goes this ≡ true
          → checked_sum report.bytes_removed size ≡ some bytes
          → clean root d report (file name link size modified rest)
            ≡ clean root d
                (record {
                  files_removed = wrapping_sum report.files_removed 1;
                  bytes_removed = bytes;
                })
                rest
      unfolding cleanup_entries
      clean-gone bytes h k = rw (h, k, cleanup_entries) refl

      pub clean-over :
          goes this ≡ true
          → checked_sum report.bytes_removed size ≡ none
          → clean root d report (file name link size modified rest)
            ≡ (rest, rejected usage_overflow)
      unfolding cleanup_entries
      clean-over h k = rw (h, k, cleanup_entries) refl
