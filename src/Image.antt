-- ===== src/Image.antt =====
-- The sizes and pixels of a resized image, the checks around the codecs and the kinds of failure
-- (crates/adapters/src/image_processing.rs). Decoding, resampling and encoding are the codec
-- library's.
pub mod Sizes
use task_harbor.Base.{
  ℕ, ◌+◌, ◌-◌, ◌*◌, ◌/◌, ◌%◌, ◌^◌, Bool, true, false, ◌&&◌, ◌||◌, not, String, ltb, leb, ◌==◌,
  if◌then◌else◌, min, max,
}
use task_harbor.Core.{Text, Checked, accepted, rejected}
use task_harbor.Schedule.{max_output_width}
use task_harbor.Queue.Failure.{FailureKind, transient, permanent}
use task_harbor.Storage.{StorageError, io, invalid_key, join_failed, usage_overflow}

abbrev pub max_image_pixels : ℕ
max_image_pixels = 12000000

abbrev pub max_image_dimension : ℕ
max_image_dimension = 12000

pub record ProcessedImage : Type 0 where
  pub storage_key : Text
  pub media_type : String
  pub byte_size : ℕ
  pub width : ℕ
  pub height : ℕ

pub data ImageError : Type 0 where
  io_failed : ImageError
  decode : ImageError
  storage : StorageError → ImageError
  task_failed : ImageError
  unsupported_format : ImageError
  animated_png : ImageError
  dimensions_too_large : ImageError
  invalid_settings : ImageError
  blocking_limit_closed : ImageError

-- `ImageError::is_invalid_input`.
unfoldable pub is_invalid_input : ImageError → Bool
is_invalid_input decode = true
is_invalid_input unsupported_format = true
is_invalid_input animated_png = true
is_invalid_input dimensions_too_large = true
is_invalid_input _ = false

-- `ImageError::safe_message`.
unfoldable pub safe_message : ImageError → String
safe_message unsupported_format = "only JPEG and PNG image data is supported"
safe_message animated_png = "animated PNG files are not supported"
safe_message dimensions_too_large = "image dimensions exceed the 12 megapixel or 12000 pixel limit"
safe_message decode = "image data is corrupt or could not be decoded"
safe_message invalid_settings = "image resize settings are invalid"
safe_message io_failed = "image processing could not be completed"
safe_message (storage _) = "image processing could not be completed"
safe_message task_failed = "image processing could not be completed"
safe_message blocking_limit_closed = "image processing could not be completed"

-- `ImageError::failure_kind`.
unfoldable pub failure_kind : ImageError → FailureKind
failure_kind decode = permanent
failure_kind unsupported_format = permanent
failure_kind animated_png = permanent
failure_kind dimensions_too_large = permanent
failure_kind invalid_settings = permanent
failure_kind (storage invalid_key) = permanent
failure_kind io_failed = transient
failure_kind (storage io) = transient
failure_kind (storage join_failed) = transient
failure_kind (storage usage_overflow) = transient
failure_kind task_failed = transient
failure_kind blocking_limit_closed = transient

-- `blend` of `flatten_on_white`: the arithmetic keeps 16 bits, the result 8.
unfoldable pub blend : (alpha channel : ℕ) → ℕ
blend alpha channel =
    let foreground = channel * alpha % 2 ^ 16 in
    let background = 255 * (255 - alpha) % 2 ^ 16 in
    ((foreground + background) % 2 ^ 16 + 127) % 2 ^ 16 / 255 % 2 ^ 8

abbrev pub u32_max : ℕ
u32_max = 4294967295

-- `u32::try_from(n).unwrap_or(u32::MAX)`.
abbrev pub saturate_u32 : ℕ → ℕ
saturate_u32 n = min n u32_max

-- The products and sums keep 64 bits. The width is positive where the division is reached.
unfoldable pub resized_dimensions : (width height max_width : ℕ) → ℕ × ℕ
resized_dimensions width height max_width =
    if leb width max_width
    then (width, height)
    else let scaled_height = (height * max_width % 2 ^ 64 + width / 2) % 2 ^ 64 / width in
      (max_width, max (saturate_u32 scaled_height) 1)

-- A product of two `u32` fits into 64 bits, so that `checked_mul` gives it.
unfoldable pub validate_dimensions : (width height : ℕ) → Checked ImageError (Unit {0})
validate_dimensions width height =
    if not (ltb (width * height) (2 ^ 64))
    then rejected dimensions_too_large
    else if width == 0
        || (height == 0
            || (ltb max_image_dimension width
                || (ltb max_image_dimension height || ltb max_image_pixels (width * height))))
    then rejected dimensions_too_large
    else accepted tt

-- The check at the start of `ImageService::resize_to_jpeg`.
unfoldable pub valid_settings : (max_width jpeg_quality : ℕ) → Bool
valid_settings max_width jpeg_quality = not (
    max_width == 0
    || (ltb max_output_width max_width || not (leb 1 jpeg_quality && leb jpeg_quality 100)))
