-- ===== src/Worker/Outputs.antt =====
-- What the worker hands over for publication, and what its task returns.
use task_harbor.Base.{
  ℕ, ◌+◌, ◌≤◌, ◌≡◌, ◌∙◌, inl, inr, refl, sym, ap, subst, true, false, List, [], ◌∷◌, ◌++◌, map,
  length, all, All, arith, Result, ok, err, RepositoryError, String, claim_lost, state_conflict,
  database, migration, invalid_data, idempotency_conflict, Bool-cases, ltb, ◌==◌,
}
use mathlib.Core.List.{append_assoc, append-nil, map-append}
use task_harbor.Core.{Text, Checked, accepted, rejected}
use task_harbor.Tables.{ArtifactEntry}
use task_harbor.Queue.{ClaimedJob, image_work}
use task_harbor.Queue.Failure.{FailureKind, transient, permanent}
use task_harbor.Queue.Publish.{PendingOutputArtifact}
use task_harbor.Image.{ImageError, ProcessedImage, failure_kind, safe_message, u32_max}
use task_harbor.Worker.{Program, returns, publishes}
use task_harbor.Worker.Process.{
  output_name, unless_cancelled, after_error, record_image_failure, publish_outputs,
  report_progress, check_usage, after_encoding, process_inputs, pending_output, process_work,
  process_claimed_inner, over_budget, unmeasured,
}
use task_harbor.Worker.Names.{output_name-fits}
use task_harbor.Worker.Later.{Always, Later, Later-Always}

-- The source, the place and the name of an output, and those that an input asks for.
abbrev pub described : PendingOutputArtifact → ℕ × ℕ × Text
described o = (o.source_artifact_id, o.item_index, o.display_name)

abbrev pub asked : ArtifactEntry → ℕ × ℕ × Text
asked input = (input.id, input.item_index, output_name input.display_name)

module _ (P : List PendingOutputArtifact → Type 0) (N : ℕ → Type 0) where
  abbrev Every : Program → Type 0
  Every = Always (λ _. Unit) P N

  unless_cancelled-Every : (p : Program) → Every p → Every (unless_cancelled p)
  unfolding unless_cancelled
  unless_cancelled-Every p h (err e) = tt
  unless_cancelled-Every p h (ok false) = h
  unless_cancelled-Every p h (ok true) = λ a.
      elim a as (λ a. Every (elim a [ err e ↦ returns (err e) | ok _ ↦ returns (ok tt) ])) [
        | err e ↦ tt
        | ok _ ↦ tt
      ]

  after_error-Every : (e : RepositoryError) → Every (after_error e)
  unfolding after_error
  after_error-Every (state_conflict operation) = unless_cancelled-Every _ tt
  after_error-Every database = tt
  after_error-Every migration = tt
  after_error-Every (invalid_data message) = tt
  after_error-Every idempotency_conflict = tt
  after_error-Every claim_lost = tt

  record_image_failure-Every :
      (kind : FailureKind) (message : String) → Every (record_image_failure kind message)
  unfolding record_image_failure
  record_image_failure-Every kind message (ok _) = tt
  record_image_failure-Every kind message (err e) = after_error-Every e

  publish_outputs-Every :
      (outputs : List PendingOutputArtifact) → P outputs → Every (publish_outputs outputs)
  unfolding publish_outputs
  publish_outputs-Every outputs h = unless_cancelled-Every _ (h, answered)
    where
      answered :
          (a : Result (Unit {0}))
          → Every (elim a [ ok _ ↦ returns (ok tt) | err e ↦ after_error e ])
      answered (ok _) = tt
      answered (err e) = after_error-Every e

  check_usage-Every : (budget : ℕ) (p : Program) → Every p → Every (check_usage budget p)
  unfolding check_usage
  check_usage-Every budget p h (accepted bytes) = elim (Bool-cases (ltb budget bytes)) [
    | inl e ↦ rw e (record_image_failure-Every permanent over_budget)
    | inr e ↦ rw e h
  ]
  check_usage-Every budget p h (rejected _) = record_image_failure-Every transient unmeasured

  report_progress-Every : (n : ℕ) (p : Program) → N n → Every p → Every (report_progress n p)
  unfolding report_progress
  report_progress-Every n p told h = elim (Bool-cases (ltb u32_max n)) [
    | inl e ↦ rw e tt
    | inr e ↦ rw e (
      told,
      λ a. elim a as (λ a. Every (elim a [ ok _ ↦ p | err e ↦ after_error e ])) [
        | ok _ ↦ h
        | err e ↦ after_error-Every e
      ],
    )
  ]

  after_encoding-Every :
      (budget : ℕ) (result : Checked ImageError ProcessedImage) (rest : ProcessedImage → Program)
      → ((processed : ProcessedImage) → Every (rest processed))
      → (recorded : Result (Unit {0})) → Every (after_encoding budget result rest recorded)
  unfolding after_encoding
  after_encoding-Every budget result rest h (err e) = tt
  after_encoding-Every budget (rejected e) rest h (ok _) =
      record_image_failure-Every (failure_kind e) (safe_message e)
  after_encoding-Every budget (accepted processed) rest h (ok _) =
      check_usage-Every budget (unless_cancelled (rest processed))
        (unless_cancelled-Every (rest processed) (h processed))

module _ (all_inputs : List ArtifactEntry) where
  -- One output for each input, in their order; progress counts the inputs.
  abbrev pub Complete : List PendingOutputArtifact → Type 0
  Complete outputs = map described outputs ≡ map asked all_inputs

  abbrev pub Counted : ℕ → Type 0
  Counted n = (1 ≤ n) × (n ≤ length all_inputs)

  process_inputs-Every :
      (c : ClaimedJob) (width quality budget n : ℕ) (outputs : List PendingOutputArtifact)
      (inputs : List ArtifactEntry)
      → n + length inputs ≡ length all_inputs
      → map described outputs ++ map asked inputs ≡ map asked all_inputs
      → Every Complete Counted (process_inputs c width quality budget n outputs inputs)
  unfolding process_inputs
  process_inputs-Every c width quality budget n outputs [] count done =
      publish_outputs-Every Complete Counted outputs
        (sym (append-nil (map described outputs)) ∙ done)
  process_inputs-Every c width quality budget n outputs (input ∷ inputs) count done =
      unless_cancelled-Every Complete Counted _ λ result.
        after_encoding-Every Complete Counted budget result _ λ processed.
          report_progress-Every Complete Counted (n + 1) _ (omega arith, omega arith)
            (process_inputs-Every c width quality budget (n + 1)
              (outputs ++ pending_output input processed ∷ []) inputs (omega arith)
              (ap (λ l. l ++ map asked inputs)
                  (map-append described outputs (pending_output input processed ∷ []))
                ∙ append_assoc (map described outputs) (asked input ∷ []) (map asked inputs)
                ∙ done))

-- An image job is processed: whatever the calls answer, the outputs that are handed over for
-- publication are one for each input, in their order, with the input as source, at its place and
-- under its output name; and the names meet the CHECK of the table, which wants 1 to 255 characters
-- that are not all spaces.
pub published_outputs :
    (c : ClaimedJob) {width quality : ℕ} {inputs : List ArtifactEntry}
    {f : Result (Unit {0}) → Program} (budget : ℕ) (outputs : List PendingOutputArtifact)
    → c.work ≡ image_work width quality inputs
    → Later (publishes outputs f) (process_claimed_inner c budget)
    → (map described outputs ≡ map asked inputs)
      × All
          (λ o.
            (1 ≤ length o.display_name)
            × (length o.display_name ≤ 255)
            × (all (λ c. c == 0x20) o.display_name ≡ false))
          outputs
unfolding process_claimed_inner process_work
published_outputs c {width} {quality} {inputs} {f} budget outputs work l =
    let every = process_inputs-Every inputs c width quality budget 0 [] inputs (omega arith) refl in
    let l' = subst (λ w. Later (publishes outputs f) (process_work c budget w)) work l in
    let same = (Later-Always (λ _. Unit) (Complete inputs) (Counted inputs) l' every).0 in
    (same, named outputs inputs same)
  where
    named :
        (outputs : List PendingOutputArtifact) (inputs : List ArtifactEntry)
        → map described outputs ≡ map asked inputs
        → All
            (λ o.
              (1 ≤ length o.display_name)
              × (length o.display_name ≤ 255)
              × (all (λ c. c == 0x20) o.display_name ≡ false))
            outputs
    named [] inputs e = tt
    named (o ∷ os) [] e = cc
    named (o ∷ os) (input ∷ inputs) e =
        let name : output_name input.display_name ≡ o.display_name = ground arith in
        (
          subst (λ t. (1 ≤ length t) × (length t ≤ 255) × (all (λ c. c == 0x20) t ≡ false)) name
              (output_name-fits input.display_name),
          named os inputs (cc),
        )
