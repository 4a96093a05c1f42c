-- ===== src/Upload/Fingerprint.antt =====
-- What the fingerprint of a request tells: its bytes, before they are hashed, belong to one request.
use task_harbor.Base.{
  ℕ, zero, suc, ◌^◌, ◌≤◌, ◌<◌, ◌≡◌, ◌≢◌, ◌↔◌, ◌∙◌, refl, sym, ap, Option, none, some, List, [], ◌∷◌,
  length, All, arith, map,
}
use task_harbor.Clock.{Time, max_time}
use task_harbor.Core.{Text, JobPriority, high, normal, low, priority_as_str, codes}
use task_harbor.Queue.Create.{NewInputArtifact}
use task_harbor.Upload.{
  StagedImageFields, to_be_bytes, nanos_word, joined_parts, time_part, char_bytes, as_bytes,
  input_parts, request_parts, fingerprint_bytes,
}
use task_harbor.Upload.Bytes.{
  length-to_be_bytes, bytes_range, to_be_bytes_injective, Short, joined_parts_injective,
  as_bytes_injective,
}

-- A text of the program: its code points, and a length that fits.
abbrev pub IsText : Text → Type 0
IsText text = All (λ c. c < 0x110000) text × (length (as_bytes text) < 2 ^ 64)

abbrev pub InputFits : NewInputArtifact → Type 0
InputFits input =
    IsText input.display_name
    × IsText (codes input.media_type)
    × (input.byte_size < 2 ^ 64)
    × (input.width < 2 ^ 32)
    × (input.height < 2 ^ 32)
    × (length input.checksum_sha256 < 2 ^ 64)

abbrev pub TimeFits : Option Time → Type 0
TimeFits none = Unit
TimeFits (some t) = t ≤ max_time

abbrev pub RequestFits : StagedImageFields → Type 0
RequestFits request =
    IsText request.name.as_str
    × (request.max_width < 2 ^ 32)
    × TimeFits request.available_at
    × All InputFits request.inputs

-- What is told of an input: all but where it is stored.
abbrev pub told : NewInputArtifact → Text × Text × ℕ × ℕ × ℕ × Text
told input = (
  input.display_name,
  codes input.media_type,
  input.byte_size,
  input.width,
  input.height,
  input.checksum_sha256,
)

other_length : {xs ys : List ℕ} → xs ≡ ys → length xs ≢ length ys → {A : Type 0} → A
other_length e apart = absurd (apart (ap length e))

priority_injective :
    (p q : JobPriority)
    → as_bytes (codes (priority_as_str p)) ≡ as_bytes (codes (priority_as_str q))
    → p ≡ q
unfolding priority_as_str as_bytes char_bytes
priority_injective high high e = refl
priority_injective high normal e = other_length e (omega arith)
priority_injective high low e = other_length e (omega arith)
priority_injective normal high e = other_length e (omega arith)
priority_injective normal normal e = refl
priority_injective normal low e = other_length e (omega arith)
priority_injective low high e = other_length e (omega arith)
priority_injective low normal e = other_length e (omega arith)
priority_injective low low e = refl

time_part_injective :
    (s t : Option Time) → TimeFits s → TimeFits t → time_part s ≡ time_part t → s ≡ t
unfolding bytes_range
time_part_injective none none h k e = refl
time_part_injective none (some t) h k e =
    let lengths : 0 ≡ length (to_be_bytes 16 (nanos_word t)) = ap length e in
    absurd (omega (arith, length-to_be_bytes 16 (nanos_word t)))
time_part_injective (some s) none h k e =
    let lengths : length (to_be_bytes 16 (nanos_word s)) ≡ 0 = ap length e in
    absurd (omega (arith, length-to_be_bytes 16 (nanos_word s)))
time_part_injective (some s) (some t) h k e =
    let same =
      to_be_bytes_injective 16 (nanos_word s) (nanos_word t) (omega arith) (omega arith) e in
    ap some (omega arith)

to_be_bytes-Short : (width n : ℕ) → width < 2 ^ 64 → Short (to_be_bytes width n)
to_be_bytes-Short width n h = omega (arith, length-to_be_bytes width n)

input_parts-Short :
    (inputs : List NewInputArtifact) → All InputFits inputs → All Short (input_parts inputs)
unfolding input_parts
input_parts-Short [] h = tt
input_parts-Short (i ∷ inputs) h = (
  h.0.0.1,
  (
    h.0.1.1,
    (
      to_be_bytes-Short 8 i.byte_size (omega arith),
      (
        to_be_bytes-Short 4 i.width (omega arith),
        (to_be_bytes-Short 4 i.height (omega arith), (h.0.5, input_parts-Short inputs h.1)),
      ),
    ),
  ),
)

time_part-Short : (t : Option Time) → Short (time_part t)
time_part-Short none = omega arith
time_part-Short (some t) = to_be_bytes-Short 16 (nanos_word t) (omega arith)

priority-Short : (p : JobPriority) → Short (as_bytes (codes (priority_as_str p)))
unfolding priority_as_str as_bytes char_bytes
priority-Short high = omega arith
priority-Short normal = omega arith
priority-Short low = omega arith

request_parts-Short : (r : StagedImageFields) → RequestFits r → All Short (request_parts r)
unfolding request_parts
request_parts-Short r h = (
  h.0.1,
  (
    to_be_bytes-Short 4 r.max_width (omega arith),
    (
      omega arith,
      (priority-Short r.priority, (time_part-Short r.available_at, input_parts-Short r.inputs h.3)),
    ),
  ),
)

-- One of the parts, and the parts behind.
abbrev part : ℕ → List (List ℕ) → List ℕ
part n [] = []
part zero (p ∷ ps) = p
part (suc n) (p ∷ ps) = part n ps

abbrev behind : ℕ → List (List ℕ) → List (List ℕ)
behind zero ps = ps
behind (suc n) [] = []
behind (suc n) (p ∷ ps) = behind n ps

abbrev first_byte : List ℕ → ℕ
first_byte [] = 0
first_byte (b ∷ bs) = b

input_parts_injective :
    (xs ys : List NewInputArtifact)
    → All InputFits xs
    → All InputFits ys
    → input_parts xs ≡ input_parts ys
    → map told xs ≡ map told ys
unfolding input_parts bytes_range
input_parts_injective [] [] h k e = refl
input_parts_injective [] (y ∷ ys) h k e = cc
input_parts_injective (x ∷ xs) [] h k e = cc
input_parts_injective (x ∷ xs) (y ∷ ys) h k e =
    let name = as_bytes_injective x.display_name y.display_name h.0.0.0 k.0.0.0 (ap (part 0) e) in
    let media =
      as_bytes_injective (codes x.media_type) (codes y.media_type) h.0.1.0 k.0.1.0
        (ap (part 1) e) in
    let size = to_be_bytes_injective 8 x.byte_size y.byte_size h.0.2 k.0.2 (ap (part 2) e) in
    let width = to_be_bytes_injective 4 x.width y.width h.0.3 k.0.3 (ap (part 3) e) in
    let height = to_be_bytes_injective 4 x.height y.height h.0.4 k.0.4 (ap (part 4) e) in
    let checksum : x.checksum_sha256 ≡ y.checksum_sha256 = ap (part 5) e in
    let rest = input_parts_injective xs ys h.1 k.1 (ap (behind 6) e) in cc

told_parts : List (Text × Text × ℕ × ℕ × ℕ × Text) → List (List ℕ)
told_parts [] = []
told_parts ((name, media, size, width, height, checksum) ∷ rest) =
    as_bytes name
    ∷ as_bytes media
    ∷ to_be_bytes 8 size
    ∷ to_be_bytes 4 width
    ∷ to_be_bytes 4 height
    ∷ checksum
    ∷ told_parts rest

input_parts-told : (xs : List NewInputArtifact) → input_parts xs ≡ told_parts (map told xs)
unfolding input_parts told_parts
input_parts-told [] = refl
input_parts-told (x ∷ xs) =
    ap
      (λ rest.
        as_bytes x.display_name
        ∷ as_bytes (codes x.media_type)
        ∷ to_be_bytes 8 x.byte_size
        ∷ to_be_bytes 4 x.width
        ∷ to_be_bytes 4 x.height
        ∷ x.checksum_sha256
        ∷ rest)
      (input_parts-told xs)

-- The bytes that are hashed tell the request: two requests have the same bytes exactly if they agree
-- in name, width, quality, priority and time of start and, input by input, in the name, the type, the
-- sizes and the checksum. It holds for requests whose numbers fit their types, whose texts consist of
-- code points, whose texts and checksums have less than 2 ^ 64 bytes and whose time is not after the
-- year 9999.
pub fingerprint_bytes-tells :
    (a b : StagedImageFields)
    → RequestFits a
    → RequestFits b
    → (fingerprint_bytes a ≡ fingerprint_bytes b) ↔ (
        (a.name.as_str ≡ b.name.as_str)
        × (a.max_width ≡ b.max_width)
        × (a.jpeg_quality ≡ b.jpeg_quality)
        × (a.priority ≡ b.priority)
        × (a.available_at ≡ b.available_at)
        × (map told a.inputs ≡ map told b.inputs))
unfolding fingerprint_bytes request_parts bytes_range
fingerprint_bytes-tells a b h k = (
  λ e.
      let parts =
        joined_parts_injective (request_parts a) (request_parts b) (request_parts-Short a h)
          (request_parts-Short b k) e in
      (
        as_bytes_injective a.name.as_str b.name.as_str h.0.0 k.0.0 (ap (part 0) parts),
        to_be_bytes_injective 4 a.max_width b.max_width h.1 k.1 (ap (part 1) parts),
        ap (λ p. first_byte (part 2 p)) parts,
        priority_injective a.priority b.priority (ap (part 3) parts),
        time_part_injective a.available_at b.available_at h.2 k.2 (ap (part 4) parts),
        input_parts_injective a.inputs b.inputs h.3 k.3 (ap (behind 5) parts),
      ),
  λ same.
      let inputs =
        input_parts-told a.inputs ∙ ap told_parts same.5 ∙ sym (input_parts-told b.inputs) in
      let parts : request_parts a ≡ request_parts b = cc in ap joined_parts parts,
)
