-- ===== src/Image/Sizes.antt =====
-- Sizes and pixels of resized images.
use task_harbor.Base.{
  ℕ, ◌+◌, ◌-◌, ◌*◌, ◌/◌, ◌%◌, ◌^◌, ◌≤◌, ◌<◌, ◌≡◌, ◌↔◌, ◌⊎◌, inl, inr, false, refl, arith, sym, ap,
  zero, suc, min, max, Bool-cases, leb,
}
use task_harbor.Core.{accepted}
use task_harbor.Image.{
  resized_dimensions, validate_dimensions, blend, saturate_u32, max_image_pixels,
  max_image_dimension, u32_max,
}

-- Exactly the sizes of 1 to 12000 pixels a side and at most 12 megapixels are accepted.
pub validate_dimensions-accepts :
    (width height : ℕ)
    → ((1 ≤ width)
        × (1 ≤ height)
        × (width ≤ max_image_dimension)
        × (height ≤ max_image_dimension)
        × (width * height ≤ max_image_pixels))
      ↔ (validate_dimensions width height ≡ accepted tt)
unfolding validate_dimensions
validate_dimensions-accepts width height = ground arith

product_le : (alpha channel : ℕ) → alpha ≤ 255 → channel ≤ 255 → channel * alpha ≤ 255 * alpha
product_le alpha channel a c = grind arith

-- (255 - channel) * (255 - alpha) is not negative.
corner : (x y c a : ℕ) → x + c ≡ 255 → y + a ≡ 255 → 255 * c ≤ c * a + 255 * y
corner x y c a e f = grind (arith, product_le y c, ap (λ (t : ℕ). c * t) f)

-- Blending a channel with white, by an alpha of 8 bits, loses nothing in its 16 bits: it is the
-- weighted mean of the channel and white, rounded. It lies between the channel and white, and is white
-- where the pixel is transparent and the channel where it is opaque.
pub blend_lem :
    (alpha channel : ℕ)
    → alpha ≤ 255
    → channel ≤ 255
    → (blend alpha channel ≡ (channel * alpha + 255 * (255 - alpha) + 127) / 255)
      × (channel ≤ blend alpha channel)
      × (blend alpha channel ≤ 255)
      × (blend 0 channel ≡ 255)
      × (blend 255 channel ≡ channel)
unfolding blend
blend_lem alpha channel a c =
    let p = product_le alpha channel a c in
    let q = corner (255 - channel) (255 - alpha) channel alpha (omega arith) (omega arith) in
    (omega arith, omega arith, omega arith, omega arith, omega arith)

div_le : (n m w : ℕ) → 0 < w → n < (m + 1) * w → n / w ≤ m
div_le n m w pos h = grind arith

le_div : (n m w : ℕ) → 0 < w → m * w ≤ n → m ≤ n / w
le_div n m w pos h = grind arith

mul_le : (h m w : ℕ) → m ≤ w → h * m ≤ h * w
mul_le h m w e = grind arith

-- The division with rounding to the nearest.
rounded :
    (n w : ℕ)
    → 0 < w
    → (2 * ((n + w / 2) / w * w) ≤ 2 * n + w) × (2 * n ≤ 2 * ((n + w / 2) / w * w) + w)
rounded n w pos = grind arith

-- A source that is wider than asked, with sides of 32 bits.
module _ (width height max_width : ℕ) (w : 1 ≤ width) (h : 1 ≤ height) (a : width ≤ u32_max)
    (b : height ≤ u32_max) (narrow : max_width < width) where
  no_overflow : height * max_width + width / 2 < 2 ^ 64
  no_overflow = omega (arith, mul_le height max_width u32_max (omega arith))

  scaled_le : (height * max_width + width / 2) / width ≤ height
  scaled_le =
      div_le _ height width (omega arith)
        (let k = mul_le height max_width width (omega arith) in grind arith)

  resized_dimensions-scaled :
      resized_dimensions width height max_width
      ≡ (max_width, max ((height * max_width + width / 2) / width) 1)
  unfolding resized_dimensions
  resized_dimensions-scaled =
      let wide : leb width max_width ≡ false = ground arith in
      let product : height * max_width % 2 ^ 64 ≡ height * max_width = omega (arith, no_overflow) in
      let sum : (height * max_width + width / 2) % 2 ^ 64 ≡ height * max_width + width / 2 =
        omega (arith, no_overflow) in
      let small : saturate_u32 ((height * max_width + width / 2) / width)
          ≡ (height * max_width + width / 2) / width =
        omega (arith, scaled_le) in
      rw (wide, product, sum, small) refl

-- A height of at least 1 that is the quotient, or 1 where the quotient is 0.
clamped :
    (n q w : ℕ)
    → 1 ≤ w
    → (2 * (q * w) ≤ 2 * n + w) × (2 * n ≤ 2 * (q * w) + w)
    → (2 * n ≤ 2 * (max q 1 * w) + w) × ((2 * (max q 1 * w) ≤ 2 * n + w) ⊎ (max q 1 ≡ 1))
clamped n zero w pos h = (omega arith, inr refl)
clamped n (suc q) w pos h =
    let same : max (suc q) 1 ≡ suc q = omega arith in (rw same h.1, inl (rw same h.0))

-- A resized image has the width of its source or the width asked for, whichever is less, and is
-- neither empty nor higher than its source. With that width `m`, its height is height * m / width
-- rounded to the nearest, or 1 where that is 0. Nothing overflows. The sides have 32 bits.
pub resized_dimensions-bounds :
    (width height max_width : ℕ)
    → 1 ≤ width
    → 1 ≤ height
    → width ≤ u32_max
    → height ≤ u32_max
    → ((resized_dimensions width height max_width).0 ≡ min width max_width)
      × (1 ≤ (resized_dimensions width height max_width).1)
      × ((resized_dimensions width height max_width).1 ≤ height)
      × (2 * (height * min width max_width)
          ≤ 2 * ((resized_dimensions width height max_width).1 * width) + width)
      × ((2 * ((resized_dimensions width height max_width).1 * width)
            ≤ 2 * (height * min width max_width) + width)
          ⊎ ((resized_dimensions width height max_width).1 ≡ 1))
unfolding resized_dimensions
resized_dimensions-bounds width height max_width w h a b = elim (Bool-cases (leb width max_width)) [
  | inl wide ↦ rw wide (
      let same : min width max_width ≡ width = ground arith in
      (sym same, h, omega arith, rw same (omega arith), inl (rw same (omega arith))))
  | inr narrow ↦
      let n : max_width < width = ground arith in
      let same : min width max_width ≡ max_width = omega arith in
      let size = resized_dimensions-scaled width height max_width w h a b n in
      let low =
        clamped (height * max_width) ((height * max_width + width / 2) / width) width w
          (rounded (height * max_width) width (omega arith)) in
      rw (size, same)
        (refl, omega arith, omega (arith, scaled_le width height max_width w h a b n), low.0, low.1)
]
