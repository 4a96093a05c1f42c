-- ===== src/Upload/Bytes.antt =====
-- Bytes tell what they are made from: integers, texts, and the parts of a digest.
use mathlib.Core.List.{append_assoc}
use task_harbor.Base.{
  ℕ, zero, suc, ◌*◌, ◌/◌, ◌%◌, ◌^◌, ◌≤◌, ◌<◌, ◌≡◌, ◌∙◌, refl, sym, ap, min, List, [], ◌∷◌, ◌++◌,
  length, length-append, All, arith,
}
use task_harbor.Core.{Text}
use task_harbor.Upload.{to_be_bytes, u64_max, fingerprint_part, joined_parts, char_bytes, as_bytes}

pub append_cut :
    {A : Type 0} (xs ys : List A) {r s : List A}
    → length xs ≡ length ys
    → xs ++ r ≡ ys ++ s
    → (xs ≡ ys) × (r ≡ s)
append_cut [] [] l e = (refl, e)
append_cut [] (y ∷ ys) l e = absurd (omega arith)
append_cut (x ∷ xs) [] l e = absurd (omega arith)
append_cut (x ∷ xs) (y ∷ ys) {r} {s} l e =
    let tails : xs ++ r ≡ ys ++ s = cc in
    let (h, k) = append_cut xs ys (omega arith) tails in (cc, k)

pub length-to_be_bytes : (width n : ℕ) → length (to_be_bytes width n) ≡ width
unfolding to_be_bytes
length-to_be_bytes zero n = refl
length-to_be_bytes (suc width) n =
    length-append (to_be_bytes width (n / 256)) (n % 256 ∷ [])
    ∙ omega (arith, length-to_be_bytes width (n / 256))

-- The integers of `width` bytes.
unfoldable pub bytes_range : ℕ → ℕ
bytes_range zero = 1
bytes_range (suc width) = 256 * bytes_range width

pub to_be_bytes_injective :
    (width n m : ℕ)
    → n < bytes_range width
    → m < bytes_range width
    → to_be_bytes width n ≡ to_be_bytes width m
    → n ≡ m
unfolding to_be_bytes bytes_range
to_be_bytes_injective zero n m h k e = omega arith
to_be_bytes_injective (suc width) n m h k e =
    let (higher, lowest) =
      append_cut (to_be_bytes width (n / 256)) (to_be_bytes width (m / 256))
        (length-to_be_bytes width (n / 256) ∙ sym (length-to_be_bytes width (m / 256))) e in
    let quotient =
      to_be_bytes_injective width (n / 256) (m / 256) (omega arith) (omega arith) higher in
    let remainder : n % 256 ≡ m % 256 = cc in omega arith

abbrev pub Short : List ℕ → Type 0
Short value = length value < 2 ^ 64

fingerprint_part-cut :
    (p q : List ℕ) {r s : List ℕ}
    → Short p
    → Short q
    → fingerprint_part p ++ r ≡ fingerprint_part q ++ s
    → (p ≡ q) × (r ≡ s)
unfolding fingerprint_part bytes_range
fingerprint_part-cut p q {r} {s} h k e =
    let size_p = to_be_bytes 8 (min (length p) u64_max) in
    let size_q = to_be_bytes 8 (min (length q) u64_max) in
    let (sizes, values) =
      append_cut size_p size_q
        (length-to_be_bytes 8 (min (length p) u64_max)
          ∙ sym (length-to_be_bytes 8 (min (length q) u64_max)))
        (sym (append_assoc size_p p r) ∙ e ∙ append_assoc size_q q s) in
    let same =
      to_be_bytes_injective 8 (min (length p) u64_max) (min (length q) u64_max) (omega arith)
        (omega arith) sizes in
    append_cut p q (omega arith) values

length-fingerprint_part : (p : List ℕ) → 8 ≤ length (fingerprint_part p)
unfolding fingerprint_part
length-fingerprint_part p = omega (
  arith,
  length-append (to_be_bytes 8 (min (length p) u64_max)) p,
  length-to_be_bytes 8 (min (length p) u64_max),
)

not_empty : (p rest : List ℕ) → ([] ≡ fingerprint_part p ++ rest) → ⊥
not_empty p rest e =
    let lengths : 0 ≡ length (fingerprint_part p ++ rest) = ap length e in
    omega (arith, length-append (fingerprint_part p) rest, length-fingerprint_part p)

pub joined_parts_injective :
    (ps qs : List (List ℕ))
    → All Short ps
    → All Short qs
    → joined_parts ps ≡ joined_parts qs
    → ps ≡ qs
unfolding joined_parts
joined_parts_injective [] [] h k e = refl
joined_parts_injective [] (q ∷ qs) h k e = absurd (not_empty q (joined_parts qs) e)
joined_parts_injective (p ∷ ps) [] h k e = absurd (not_empty p (joined_parts ps) (sym e))
joined_parts_injective (p ∷ ps) (q ∷ qs) h k e =
    let (first, others) = fingerprint_part-cut p q h.0 k.0 e in
    let rest = joined_parts_injective ps qs h.1 k.1 others in cc

abbrev IsChar : ℕ → Type 0
IsChar c = c < 0x110000

char_bytes-cut :
    (c d : ℕ) {r s : List ℕ}
    → IsChar c
    → IsChar d
    → char_bytes c ++ r ≡ char_bytes d ++ s
    → (c ≡ d) × (r ≡ s)
unfolding char_bytes
char_bytes-cut c d {r} {s} h k e = ground arith

no_char : (c : ℕ) (rest : List ℕ) → ([] ≡ char_bytes c ++ rest) → ⊥
unfolding char_bytes
no_char c rest e = ground arith

pub as_bytes_injective :
    (xs ys : Text) → All IsChar xs → All IsChar ys → as_bytes xs ≡ as_bytes ys → xs ≡ ys
unfolding as_bytes
as_bytes_injective [] [] h k e = refl
as_bytes_injective [] (y ∷ ys) h k e = absurd (no_char y (as_bytes ys) e)
as_bytes_injective (x ∷ xs) [] h k e = absurd (no_char x (as_bytes xs) (sym e))
as_bytes_injective (x ∷ xs) (y ∷ ys) h k e =
    let (first, others) = char_bytes-cut x y h.0 k.0 e in
    let rest = as_bytes_injective xs ys h.1 k.1 others in cc
