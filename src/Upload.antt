-- ===== src/Upload.antt =====
-- What an upload hands to the queue (apps/api/src/upload.rs): the fingerprint of a request, by which
-- the repository tells a repeated request from another one, and the name of a file. SHA-256 is that
-- of a library: an argument here.
pub mod Bytes
pub mod Fingerprint
use task_harbor.Base.{
  ℕ, zero, suc, ◌+◌, ◌-◌, ◌/◌, ◌%◌, ◌^◌, min, Bool, not, Option, none, some, List, [], ◌∷◌, ◌++◌,
  ◌*◌, length, take, leb, ltb, ◌==◌, ◌||◌, ◌&&◌, if◌then◌else◌,
}
use task_harbor.Clock.{Time}
use task_harbor.Core.{
  Text, Checked, accepted, rejected, JobName, JobPriority, priority_as_str, codes, is_empty, trim,
}
use task_harbor.Queue.Create.{NewInputArtifact}
use task_harbor.Sql.{select_rows}
use task_harbor.Storage.{decimal}
use task_harbor.Storage.Files.{any}

pub record StagedImageFields : Type 0 where
  pub name : JobName
  pub max_width : ℕ
  pub jpeg_quality : ℕ
  pub available_at : Option Time
  pub priority : JobPriority
  pub interval_seconds : Option ℕ
  pub anchor_at : Option Time
  pub inputs : List NewInputArtifact

-- `to_be_bytes` of an integer of `width` bytes.
unfoldable pub to_be_bytes : (width n : ℕ) → List ℕ
to_be_bytes zero n = []
to_be_bytes (suc width) n = to_be_bytes width (n / 256) ++ n % 256 ∷ []

abbrev pub u64_max : ℕ
u64_max = 2 ^ 64 - 1

-- 1970-01-01 as a `Time`.
abbrev pub unix_epoch : Time
unix_epoch = 377705116800000000000

-- `unix_timestamp_nanos` as an `i128`, in two's complement.
abbrev pub nanos_word : Time → ℕ
nanos_word t = (t + (2 ^ 128 - unix_epoch)) % 2 ^ 128

-- What `fingerprint_part` adds to the digest.
unfoldable pub fingerprint_part : List ℕ → List ℕ
unfolding to_be_bytes
fingerprint_part value = to_be_bytes 8 (min (length value) u64_max) ++ value

unfoldable pub joined_parts : List (List ℕ) → List ℕ
unfolding fingerprint_part
joined_parts [] = []
joined_parts (value ∷ values) = fingerprint_part value ++ joined_parts values

abbrev pub time_part : Option Time → List ℕ
time_part none = []
time_part (some available_at) = to_be_bytes 16 (nanos_word available_at)

-- `as_bytes`: a text in UTF-8.
unfoldable pub char_bytes : ℕ → List ℕ
char_bytes c =
    if ltb c 0x80
    then c ∷ []
    else if ltb c 0x800
    then (0xc0 + c / 64) ∷ (0x80 + c % 64) ∷ []
    else if ltb c 0x10000
    then (0xe0 + c / 4096) ∷ (0x80 + c / 64 % 64) ∷ (0x80 + c % 64) ∷ []
    else (0xf0 + c / 262144) ∷ (0x80 + c / 4096 % 64) ∷ (0x80 + c / 64 % 64) ∷ (0x80 + c % 64) ∷ []

unfoldable pub as_bytes : Text → List ℕ
unfolding char_bytes
as_bytes [] = []
as_bytes (c ∷ cs) = char_bytes c ++ as_bytes cs

unfoldable pub input_parts : List NewInputArtifact → List (List ℕ)
unfolding to_be_bytes as_bytes
input_parts [] = []
input_parts (input ∷ inputs) =
    as_bytes input.display_name
    ∷ as_bytes (codes input.media_type)
    ∷ to_be_bytes 8 input.byte_size
    ∷ to_be_bytes 4 input.width
    ∷ to_be_bytes 4 input.height
    ∷ input.checksum_sha256
    ∷ input_parts inputs

unfoldable pub request_parts : StagedImageFields → List (List ℕ)
unfolding input_parts to_be_bytes as_bytes
request_parts request =
    as_bytes request.name.as_str
    ∷ to_be_bytes 4 request.max_width
    ∷ (request.jpeg_quality ∷ [])
    ∷ as_bytes (codes (priority_as_str request.priority))
    ∷ time_part request.available_at
    ∷ input_parts request.inputs

-- The bytes that the digest is made of.
unfoldable pub fingerprint_bytes : StagedImageFields → List ℕ
unfolding request_parts joined_parts
fingerprint_bytes request = joined_parts (request_parts request)

unfoldable pub request_fingerprint : (sha256 : List ℕ → List ℕ) → StagedImageFields → List ℕ
unfolding fingerprint_bytes
request_fingerprint sha256 request = sha256 (fingerprint_bytes request)

-- `char::is_control`.
abbrev pub is_control : ℕ → Bool
is_control c = ltb c 0x20 || leb 0x7f c && leb c 0x9f

-- `rsplit(['/', '\\']).next()`.
abbrev pub is_separator : ℕ → Bool
is_separator c = c == 0x2f || c == 0x5c

unfoldable pub basename : Text → Text
basename [] = []
basename (c ∷ cs) =
    let rest = basename cs in
    if any is_separator cs then rest else if is_separator c then cs else c ∷ cs

unfoldable pub safe_display_name : (raw_name : Text) (item_index : ℕ) → Text
unfolding basename trim decimal
safe_display_name raw_name item_index =
    let cleaned =
      take 255 (select_rows (λ character. not (is_control character)) (trim (basename raw_name))) in
    if is_empty cleaned then codes "image-" ++ decimal (item_index + 1) else cleaned
