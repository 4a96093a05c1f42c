-- ===== src/Storage/Usage.antt =====
-- The loop that measures the storage ends, and gives the sum of the sizes.
use task_harbor.Base.{
  ℕ, zero, suc, ◌+◌, ◌≤◌, ◌<◌, ◌≡◌, ◌∙◌, true, false, none, some, List, [], ◌∷◌, ltb, if◌then◌else◌,
  arith, ap, ◌^◌, Option-cases, inl, inr, Bool-cases,
}
use task_harbor.Core.{Checked, accepted, rejected}
use task_harbor.Storage.{StorageError, usage_overflow}
use task_harbor.Storage.Files.{
  Entries, end, file, folder, scan, usage_rounds, folders, directory_usage, u64_range,
}

-- The bytes of all files of a tree, symbolic links left out.
unfoldable pub tree_bytes : Entries → ℕ
tree_bytes end = 0
tree_bytes (file _ true _ _ rest) = tree_bytes rest
tree_bytes (file _ false size _ rest) = size + tree_bytes rest
tree_bytes (folder _ content rest) = tree_bytes content + tree_bytes rest

pending_bytes : List Entries → ℕ
unfolding tree_bytes
pending_bytes [] = 0
pending_bytes (d ∷ ds) = tree_bytes d + pending_bytes ds

pending_rounds : List Entries → ℕ
unfolding folders
pending_rounds [] = 0
pending_rounds (d ∷ ds) = suc (folders d + pending_rounds ds)

abbrev verdict : ℕ → Checked StorageError ℕ
verdict n = if ltb n u64_range then accepted n else rejected usage_overflow

-- A round adds the files of its directory and leaves the directories in it.
scan-some :
    (e : Entries) (pending pending' : List Entries) (total total' : ℕ)
    → scan e pending total ≡ some (pending', total')
    → total < u64_range
    → (pending_bytes pending' + total' ≡ tree_bytes e + pending_bytes pending + total)
      × (pending_rounds pending' ≡ folders e + pending_rounds pending)
      × (total' < u64_range)
unfolding scan tree_bytes pending_bytes pending_rounds
scan-some end p p' t t' e h = ground arith
scan-some (file _ true _ _ rest) p p' t t' e h = scan-some rest p p' t t' e h
scan-some (file _ false size _ rest) p p' t t' e h = elim (Bool-cases (ltb (t + size) u64_range)) [
  | inl fits ↦
      let k = scan-some rest p p' (t + size) t' (rw (fits, scan) at e) (ground arith) in
      (omega (arith, k), k.1, k.2)
  | inr over ↦ absurd (ground arith)
]
scan-some (folder _ content rest) p p' t t' e h =
    let k = scan-some rest (content ∷ p) p' t t' e h in (omega (arith, k), omega (arith, k), k.2)

scan-none :
    (e : Entries) (pending : List Entries) (total : ℕ)
    → scan e pending total ≡ none
    → u64_range ≤ tree_bytes e + total
unfolding scan tree_bytes
scan-none end p t e = cc
scan-none (file _ true _ _ rest) p t e = scan-none rest p t e
scan-none (file _ false size _ rest) p t e = elim (Bool-cases (ltb (t + size) u64_range)) [
  | inl fits ↦ omega (arith, scan-none rest p (t + size) (rw (fits, scan) at e))
  | inr over ↦ ground arith
]
scan-none (folder _ content rest) p t e = omega (arith, scan-none rest (content ∷ p) t e)

usage_rounds-total :
    (fuel : ℕ) (pending : List Entries) (total : ℕ)
    → pending_rounds pending < fuel
    → total < u64_range
    → usage_rounds fuel pending total ≡ some (verdict (pending_bytes pending + total))
unfolding usage_rounds pending_bytes pending_rounds
usage_rounds-total zero pending total h k = elim h [ ]
usage_rounds-total (suc fuel) [] total h k = ground arith
usage_rounds-total (suc fuel) (d ∷ ds) total h k = elim (Option-cases (scan d ds total)) [
  | inl over ↦ rw (over, usage_rounds) (ground (arith, scan-none d ds total over))
  | inr ((ds', total'), found) ↦
      let s = scan-some d ds ds' total total' found k in
      rw (found, usage_rounds)
        (usage_rounds-total fuel ds' total' (omega (arith, s)) s.2
          ∙ ap (λ n. some (verdict n)) (omega (arith, s)))
]

-- The storage is measured: the loop ends for every tree of files, with the sum of the sizes of all
-- files at any depth that are no symbolic links, where that fits into 64 bits, and with the error of
-- an overflow where it does not.
pub directory_usage-sums :
    (root : Entries)
    → directory_usage root
      ≡ some (
          if ltb (tree_bytes root) (2 ^ 64)
          then accepted (tree_bytes root)
          else rejected usage_overflow)
unfolding directory_usage pending_bytes pending_rounds
directory_usage-sums root =
    usage_rounds-total (suc (suc (folders root))) (root ∷ []) 0 (omega arith) (omega arith)
    ∙ ap (λ n. some (verdict n)) (omega arith)
