-- ===== src/Storage/Confined.antt =====
-- A key that resolves stays below the storage's root, and the keys of outputs resolve.
use task_harbor.Base.{
  ℕ, ◌≡◌, refl, subst, true, false, ◌||◌, List, [], ◌∷◌, All, all, arith, inl, inr, Bool-cases,
  list_eq, ◌==◌,
}
use task_harbor.Core.{Text, accepted, is_empty}
use task_harbor.Storage.{
  split_slash, extend, inner_components, first_components, components, is_normal, names, contains,
  resolve_key,
}

-- A name of one file or directory: not empty, not `.` or `..`, and with no separator of a path.
abbrev pub IsName : Text → Type 0
IsName name =
    (is_empty name ≡ false)
    × (list_eq name (0x2e ∷ []) ≡ false)
    × (list_eq name (0x2e ∷ 0x2e ∷ []) ≡ false)
    × (contains 0x2f name ≡ false)
    × (contains 0x5c name ≡ false)
    × (contains 0x3a name ≡ false)

-- A piece between slashes, of a key without `\` and `:`.
abbrev IsPiece : Text → Type 0
IsPiece p = (contains 0x2f p ≡ false) × (contains 0x5c p ≡ false) × (contains 0x3a p ≡ false)

extend-IsPiece :
    (c : ℕ) (pieces : List Text)
    → (c == 0x2f) ≡ false
    → (c == 0x5c) ≡ false
    → (c == 0x3a) ≡ false
    → All IsPiece pieces
    → All IsPiece (extend c pieces)
extend-IsPiece c [] a b d h = ((rw a refl, rw b refl, rw d refl), tt)
extend-IsPiece c (p ∷ ps) a b d h = ((rw a h.0.0, rw b h.0.1, rw d h.0.2), h.1)

split_slash-IsPiece :
    (cs : Text) → contains 0x5c cs ≡ false → contains 0x3a cs ≡ false → All IsPiece (split_slash cs)
unfolding split_slash
split_slash-IsPiece [] b d = ((refl, refl, refl), tt)
split_slash-IsPiece (c ∷ cs) b d =
    let rest = split_slash-IsPiece cs (ground arith) (ground arith) in
    elim (Bool-cases (c == 0x2f)) [
      | inl slash ↦ rw slash ((refl, refl, refl), rest)
      | inr a ↦ rw a (extend-IsPiece c (split_slash cs) a (ground arith) (ground arith) rest)
    ]

inner_components-IsName :
    (pieces : List Text)
    → All IsPiece pieces
    → all is_normal (inner_components pieces) ≡ true
    → All IsName (names (inner_components pieces))
unfolding inner_components
inner_components-IsName [] h n = tt
inner_components-IsName (p ∷ ps) h n = elim (Bool-cases (is_empty p || list_eq p (0x2e ∷ []))) [
  | inl skip ↦ rw skip (inner_components-IsName ps h.1 (rw skip at n))
  | inr kept ↦ elim (Bool-cases (list_eq p (0x2e ∷ 0x2e ∷ []))) [
    | inl up ↦ absurd (ground arith)
    | inr name ↦
        rw (kept, name)
          (
            (ground arith, ground arith, name, h.0.0, h.0.1, h.0.2),
            inner_components-IsName ps h.1 (ground arith),
          )
  ]
]

first_components-IsName :
    (pieces : List Text)
    → All IsPiece pieces
    → all is_normal (first_components pieces) ≡ true
    → All IsName (names (first_components pieces))
first_components-IsName [] h n = tt
first_components-IsName (p ∷ ps) h n = elim (Bool-cases (list_eq p (0x2e ∷ []))) [
  | inl here ↦ absurd (ground arith)
  | inr there ↦ rw there (inner_components-IsName (p ∷ ps) h (rw there at n))
]

-- The first piece of a path that does not start with a slash is a name, where all are.
first_components-some :
    (c : ℕ) (pieces : List Text)
    → all is_normal (first_components (extend c pieces)) ≡ true
    → is_empty (names (first_components (extend c pieces))) ≡ false
unfolding inner_components
first_components-some c [] n = ground arith
first_components-some c (p ∷ ps) n = ground arith

split_slash-other :
    (c : ℕ) (cs : Text) → (c == 0x2f) ≡ false → split_slash (c ∷ cs) ≡ extend c (split_slash cs)
unfolding split_slash
split_slash-other c cs e = rw e refl

components-relative :
    (c : ℕ) (cs : Text)
    → (c == 0x2f) ≡ false
    → components (c ∷ cs) ≡ first_components (extend c (split_slash cs))
unfolding components
components-relative c cs e = ground (arith, split_slash-other c cs)

-- A key that resolves names a path below the root, and never the root itself: it has at least one
-- component, and each is a plain name, not empty, not `.` or `..`, with no slash, backslash or colon.
pub resolve_key-confined :
    (key : Text) (path : List Text)
    → resolve_key key ≡ accepted path
    → (is_empty path ≡ false) × All IsName path
unfolding resolve_key components
resolve_key-confined [] path e = cc
resolve_key-confined (c ∷ cs) path e =
    let first : (c == 0x2f) ≡ false = ground arith in
    let back : contains 0x5c (c ∷ cs) ≡ false = ground arith in
    let colon : contains 0x3a (c ∷ cs) ≡ false = ground arith in
    let normal : all is_normal (components (c ∷ cs)) ≡ true = ground arith in
    let same : names (components (c ∷ cs)) ≡ path = ground arith in
    let split = components-relative c cs first in
    let normal' = rw split at normal in
    let pieces = split_slash-IsPiece (c ∷ cs) back colon in
    subst (λ p. (is_empty p ≡ false) × All IsName p) same
      (rw split (
        first_components-some c (split_slash cs) normal',
        first_components-IsName (extend c (split_slash cs))
            (rw (split_slash-other c cs first) at pieces) normal',
      ))
