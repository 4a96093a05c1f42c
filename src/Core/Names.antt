-- ===== src/Core/Names.antt =====
-- Names of jobs: trimming, and what `JobName::new` accepts.
use mathlib.Core.List.{reverse-cons}
use task_harbor.Base.{
  ◌≤◌, ◌<◌, ◌≡◌, ◌↔◌, refl, Bool, true, false, ◌&&◌, List, [], ◌∷◌, ◌++◌, reverse, arith, all,
  length, ◌∙◌, ap,
}
use task_harbor.Core.{
  Text, is_whitespace, trim_start, trim, is_empty, new_job_name, accepted, rejected, empty,
  too_long, max_job_name_length,
}

module _ {ℓ} {A : Type ℓ} (p : A → Bool) where
  pub all-append : (xs ys : List A) → all p (xs ++ ys) ≡ (all p xs && all p ys)
  all-append [] ys = refl
  all-append (x ∷ xs) ys = ground (arith, all-append xs ys)

  pub all-reverse : (xs : List A) → all p (reverse xs) ≡ all p xs
  all-reverse [] = refl
  all-reverse (x ∷ xs) =
      ap (all p) (reverse-cons x xs)
      ∙ ground (arith, all-append (reverse xs) (x ∷ []), all-reverse xs)

-- A list with no item is one all of whose items fail.
is_empty-all {ℓ} : {A : Type ℓ} (xs : List A) → is_empty xs ≡ all (λ _. false) xs
is_empty-all [] = refl
is_empty-all (x ∷ xs) = refl

is_empty-reverse {ℓ} : {A : Type ℓ} (xs : List A) → is_empty (reverse xs) ≡ is_empty xs
is_empty-reverse xs = cc (is_empty-all (reverse xs), all-reverse (λ _. false) xs, is_empty-all xs)

is_empty-trim_start : (cs : Text) → is_empty (trim_start cs) ≡ all is_whitespace cs
unfolding trim_start
is_empty-trim_start [] = refl
is_empty-trim_start (c ∷ cs) = ground (arith, is_empty-trim_start cs)

all-trim_start : (cs : Text) → all is_whitespace (trim_start cs) ≡ all is_whitespace cs
unfolding trim_start
all-trim_start [] = refl
all-trim_start (c ∷ cs) = ground (arith, all-trim_start cs)

-- What is left of a text by `trim` is empty exactly when the text is blank.
pub is_empty-trim : (cs : Text) → is_empty (trim cs) ≡ all is_whitespace cs
unfolding trim
is_empty-trim cs =
    is_empty-reverse (trim_start (reverse (trim_start cs)))
    ∙ is_empty-trim_start (reverse (trim_start cs))
    ∙ all-reverse is_whitespace (trim_start cs)
    ∙ all-trim_start cs

-- A name is accepted, and kept as it was given, exactly when one of its characters is no white
-- space and it has at most 100 characters. It is rejected as empty exactly when it is blank, and
-- as too long, with the limit and its length, exactly when it is not blank and is longer.
pub new_job_name-accepts :
    (value : Text)
    → (((all is_whitespace value ≡ false) × (length value ≤ max_job_name_length))
        ↔ (new_job_name value ≡ accepted (record { as_str = value })))
      × ((all is_whitespace value ≡ true) ↔ (new_job_name value ≡ rejected empty))
      × (((all is_whitespace value ≡ false) × (max_job_name_length < length value))
          ↔ (new_job_name value ≡ rejected (too_long max_job_name_length (length value))))
unfolding new_job_name
new_job_name-accepts value = ground (arith, is_empty-trim value)
