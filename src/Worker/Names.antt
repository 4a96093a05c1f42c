-- ===== src/Worker/Names.antt =====
-- The display names of outputs.
use task_harbor.Base.{
  ℕ, ◌≤◌, ◌≡◌, refl, false, List, [], ◌∷◌, ◌++◌, length, all, arith, ◌==◌, take, length-append,
  zero, suc,
}
use task_harbor.Core.{Text, codes}
use task_harbor.Worker.Process.{output_name}

length-take {ℓ} : {A : Type ℓ} (n : ℕ) (xs : List A) → length (take n xs) ≤ n
length-take zero xs = omega arith
length-take (suc n) [] = omega arith
length-take (suc n) (x ∷ xs) = omega (arith, length-take n xs)

not_blank : (xs : Text) → all (λ c. c == 0x20) (xs ++ codes ".jpg") ≡ false
not_blank [] = refl
not_blank (x ∷ xs) = ground (arith, not_blank xs)

fits :
    (stem : Text)
    → (1 ≤ length (take 251 stem ++ codes ".jpg"))
      × (length (take 251 stem ++ codes ".jpg") ≤ 255)
      × (all (λ c. c == 0x20) (take 251 stem ++ codes ".jpg") ≡ false)
fits stem = (
  omega (arith, length-append (take 251 stem) (codes ".jpg")),
  omega (arith, length-append (take 251 stem) (codes ".jpg"), length-take 251 stem),
  not_blank (take 251 stem),
)

-- The name of an output has 1 to 255 characters, and they are not all spaces.
pub output_name-fits :
    (input_name : Text)
    → (1 ≤ length (output_name input_name))
      × (length (output_name input_name) ≤ 255)
      × (all (λ c. c == 0x20) (output_name input_name) ≡ false)
unfolding output_name
output_name-fits input_name = fits _
