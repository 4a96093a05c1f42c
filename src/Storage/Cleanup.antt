-- ===== src/Storage/Cleanup.antt =====
-- The cleanup removes the files that it should, and no other.
use task_harbor.Base.{
  ℕ, ◌+◌, ◌<◌, ◌≡◌, ◌∙◌, refl, sym, ap, Bool, true, false, List, [], ◌∷◌, ◌++◌, some, arith, inl,
  inr, Bool-cases, Option-cases, ◌^◌,
}
use task_harbor.Core.{Text, accepted}
use task_harbor.Clock.{Time}
use task_harbor.Sql.{select_rows, count_rows}
use task_harbor.Storage.Files.{
  Entries, end, file, folder, u64_range, CleanupReport, child_key, cleanup_directory, checked_sum,
  no_cleanup, add_report, wrapping_sum, Cleaned,
}
use task_harbor.Storage.Steps
use task_harbor.Storage.Steps.{
  StoredFile, stored_files, bytes_of, goes, stays, this, Checked-cases, stored_files-put_folder,
}

module _ (referenced protected : List Text) (older_than : Time) where
  abbrev clean : Bool → Text → CleanupReport → Entries → Cleaned
  clean = Steps.clean referenced protected older_than

  abbrev kept : Text → Entries → List StoredFile
  kept = Steps.kept referenced protected older_than

  -- Whatever the outcome, the files that stay are those that stayed before.
  clean-keeps :
      (root : Bool) (d : Text) (report : CleanupReport) (e : Entries)
      → kept d (clean root d report e).0 ≡ kept d e
  clean-keeps root d report end = rw (Steps.clean-end referenced protected older_than root d report)
  clean-keeps root d report (file name link size modified rest) =
      elim (Bool-cases (
        goes referenced protected older_than
          (this referenced protected older_than d name link size modified rest))) [
            | inl old ↦
                let before = sym (
                  Steps.kept-file_goes referenced protected older_than d name link size modified
                    rest old) in
                elim (Option-cases (checked_sum report.bytes_removed size)) [
                  | inl over ↦
                      rw
                        (Steps.clean-over referenced protected older_than d name link size modified
                          rest root report old over)
                        before
                  | inr (bytes, fits) ↦
                      rw
                        (Steps.clean-gone referenced protected older_than d name link size modified
                          rest root report bytes old fits)
                        (clean-keeps root d _ rest ∙ before)
                ]
            | inr new ↦
                rw
                  (Steps.clean-kept referenced protected older_than d name link size modified rest
                    root report new)
                  (Steps.kept-file_stays referenced protected older_than d name link size modified _
                      new
                    ∙ ap
                        (λ l.
                          this referenced protected older_than d name link size modified rest ∷ l)
                        (clean-keeps root d report rest)
                    ∙ sym (
                        Steps.kept-file_stays referenced protected older_than d name link size
                          modified rest new))
          ]
  clean-keeps root d report (folder name content rest) =
      let inner = clean-keeps false (child_key d name) no_cleanup content in
      elim (Checked-cases (clean false (child_key d name) no_cleanup content).1) [
        | inl (e, failed) ↦
            rw
              (Steps.clean-failed referenced protected older_than d name content rest root report e
                failed)
              (Steps.kept-folder referenced protected older_than d name _ rest
                ∙ ap (λ l. l ++ kept d rest) inner
                ∙ sym (Steps.kept-folder referenced protected older_than d name content rest))
        | inr (child, done) ↦
            rw
              (Steps.clean-done referenced protected older_than d name content rest root report
                child done)
              (Steps.kept-put_folder referenced protected older_than d name _ _ root
                ∙ Steps.kept-folder referenced protected older_than d name _ _
                ∙ ap (λ l. l ++ kept d (clean root d (add_report report child) rest).0) inner
                ∙ ap (λ l. kept (child_key d name) content ++ l)
                    (clean-keeps root d (add_report report child) rest)
                ∙ sym (Steps.kept-folder referenced protected older_than d name content rest))
      ]

  abbrev gone : Text → Entries → ℕ
  gone = Steps.gone referenced protected older_than

  abbrev gone_bytes : Text → Entries → ℕ
  gone_bytes = Steps.gone_bytes referenced protected older_than

  abbrev with_gone : CleanupReport → Text → Entries → CleanupReport
  with_gone report d e = record {
    files_removed = report.files_removed + gone d e;
    bytes_removed = report.bytes_removed + gone_bytes d e;
  }

  -- Where the numbers fit into 64 bits, the cleanup succeeds and leaves no other file.
  clean-exact :
      (root : Bool) (d : Text) (report : CleanupReport) (e : Entries)
      → report.files_removed + gone d e < u64_range
      → report.bytes_removed + gone_bytes d e < u64_range
      → (stored_files d (clean root d report e).0 ≡ kept d e)
        × ((clean root d report e).1 ≡ accepted (with_gone report d e))
  unfolding stored_files
  clean-exact root d report end h k =
      rw (Steps.clean-end referenced protected older_than root d report) (
        sym (Steps.kept-end referenced protected older_than d),
        ground (
          arith,
          Steps.gone-end referenced protected older_than d,
          Steps.gone_bytes-end referenced protected older_than d,
        ),
      )
  clean-exact root d report (file name link size modified rest) h k =
      elim (Bool-cases (
        goes referenced protected older_than
          (this referenced protected older_than d name link size modified rest))) [
            | inl old ↦
                let n : gone d (file name link size modified rest) ≡ 1 + gone d rest =
                  Steps.gone-file referenced protected older_than d name link size modified rest
                  ∙ rw old refl in
                let b : gone_bytes d (file name link size modified rest)
                    ≡ size + gone_bytes d rest =
                  Steps.gone_bytes-file referenced protected older_than d name link size modified
                    rest
                  ∙ rw old refl in
                let fits : checked_sum report.bytes_removed size
                    ≡ some (report.bytes_removed + size) =
                  ground arith in
                let ih =
                  clean-exact root d
                    (record {
                      files_removed = wrapping_sum report.files_removed 1;
                      bytes_removed = report.bytes_removed + size;
                    })
                    rest (omega arith) (omega arith) in
                rw
                  (Steps.clean-gone referenced protected older_than d name link size modified rest
                    root report (report.bytes_removed + size) old fits)
                  (
                    ih.0
                        ∙ sym (
                            Steps.kept-file_goes referenced protected older_than d name link size
                              modified rest old),
                    ih.1 ∙ ground arith,
                  )
            | inr new ↦
                let n : gone d (file name link size modified rest) ≡ gone d rest =
                  Steps.gone-file referenced protected older_than d name link size modified rest
                  ∙ rw new (omega arith) in
                let b : gone_bytes d (file name link size modified rest) ≡ gone_bytes d rest =
                  Steps.gone_bytes-file referenced protected older_than d name link size modified
                    rest
                  ∙ rw new (omega arith) in
                let ih = clean-exact root d report rest (omega arith) (omega arith) in
                rw
                  (Steps.clean-kept referenced protected older_than d name link size modified rest
                    root report new)
                  (
                    ap
                          (λ l.
                            this referenced protected older_than d name link size modified rest ∷ l)
                          ih.0
                        ∙ sym (
                            Steps.kept-file_stays referenced protected older_than d name link size
                              modified rest new),
                    ih.1 ∙ rw (n, b) refl,
                  )
          ]
  clean-exact root d report (folder name content rest) h k =
      let n = Steps.gone-folder referenced protected older_than d name content rest in
      let b = Steps.gone_bytes-folder referenced protected older_than d name content rest in
      let child = with_gone no_cleanup (child_key d name) content in
      let inner =
        clean-exact false (child_key d name) no_cleanup content (omega arith) (omega arith) in
      let ih = clean-exact root d (add_report report child) rest (omega arith) (omega arith) in
      rw
        (Steps.clean-done referenced protected older_than d name content rest root report child
          inner.1)
        (
          stored_files-put_folder root d name _ _
              ∙ ap (λ l. l ++ stored_files d (clean root d (add_report report child) rest).0)
                  inner.0
              ∙ ap (λ l. kept (child_key d name) content ++ l) ih.0
              ∙ sym (Steps.kept-folder referenced protected older_than d name content rest),
          ih.1 ∙ ground arith,
        )

-- The cleanup of the storage keeps every file that is referenced, lies below a protected prefix, or
-- is younger than the limit or of unknown age: such files are the same afterwards, in the same
-- order, whether the cleanup succeeds or ends with an error.
pub cleanup_directory-keeps :
    (referenced protected : List Text) (older_than : Time) (root : Entries)
    → select_rows
        (stays referenced protected older_than)
        (stored_files [] (cleanup_directory referenced protected older_than root).0)
      ≡ select_rows (stays referenced protected older_than) (stored_files [] root)
unfolding cleanup_directory Steps.kept
cleanup_directory-keeps referenced protected older_than root =
    clean-keeps referenced protected older_than true [] no_cleanup root

-- Where the number and the bytes of the other files fit into 64 bits, the cleanup succeeds and
-- removes just them: what is left are the files that it keeps, and it reports the number of the
-- others and the sum of their sizes.
pub cleanup_directory-removes :
    (referenced protected : List Text) (older_than : Time) (root : Entries)
    → count_rows (goes referenced protected older_than) (stored_files [] root) < 2 ^ 64
    → bytes_of (goes referenced protected older_than) (stored_files [] root) < 2 ^ 64
    → (stored_files [] (cleanup_directory referenced protected older_than root).0
        ≡ select_rows (stays referenced protected older_than) (stored_files [] root))
      × ((cleanup_directory referenced protected older_than root).1
          ≡ accepted (record {
            files_removed =
                count_rows (goes referenced protected older_than) (stored_files [] root);
            bytes_removed = bytes_of (goes referenced protected older_than) (stored_files [] root);
          }))
unfolding cleanup_directory Steps.kept Steps.gone Steps.gone_bytes
cleanup_directory-removes referenced protected older_than root h k =
    let e =
      clean-exact referenced protected older_than true [] no_cleanup root (omega arith)
        (omega arith) in
    (e.0, e.1 ∙ ground arith)
