-- ===== src/Envs/Image/Layout.antt =====
-- Images that are laid out as their format says, and where `ToRGB8_HWC` of envs/common_utils.hh
-- reads and writes in them.
use gz_drl.Base.{ℕ, suc, ◌+◌, ◌*◌, ◌≤◌, ◌<◌, ◌≡◌, ap₂, arith, length, nat_eq, name_eq, both_eq}
use native.Mathlib.Nat.{mul-le-mul_right}
use gz_drl.Envs.Image.{
  u32, u64, PixelFormat, rgb_int8, bgr_int8, rgba_int8, bgra_int8, l_int8, unsupported, Image,
  stride, channel,
}
use gz_drl.Envs.Image.Loops.{at, at-lt}

-- An image whose rows hold its pixels, whose data hold its rows, and whose sizes fit their types.
pub record IsLaidOut (img : Image) : Type 0 where
  pub wide : 0 < img.width
  pub high : 0 < img.height
  pub rows_fit : img.width * stride img.pixel_format_type ≤ img.step
  pub data_fit : img.height * img.step ≤ length img.blob
  pub offsets_fit : 4 * img.width < 4294967296
  pub size_fits : img.height * img.width * 3 < 18446744073709551616

pub u32-small : (n : ℕ) → n < 4294967296 → u32 n ≡ n
u32-small n h = omega arith

pub u64-small : (n : ℕ) → n < 18446744073709551616 → u64 n ≡ n
u64-small n h = omega arith

-- The byte of the data for a channel of a pixel.
abbrev pub pixel_byte : Image → ℕ → ℕ → ℕ → ℕ
pixel_byte img y x c =
    y * img.step + (x * stride img.pixel_format_type + channel img.pixel_format_type c)

module _ (img : Image) (laid : IsLaidOut img) where
  pub row_lt : (y : ℕ) → y < img.height → y * img.step + img.step ≤ length img.blob
  row_lt y h = omega (arith, laid.data_fit, mul-le-mul_right {m = suc y} img.step h)

  stride-pos : (f : PixelFormat) (c : ℕ) → c < 3 → channel f c < stride f
  stride-pos rgb_int8 c h = omega arith
  stride-pos bgr_int8 c h = omega arith
  stride-pos rgba_int8 c h = omega arith
  stride-pos bgra_int8 c h = omega arith
  stride-pos l_int8 c h = omega arith
  stride-pos unsupported c h = omega arith

  pub pixel_byte-lt :
      (y x c : ℕ) → y < img.height → x < img.width → c < 3 → pixel_byte img y x c < length img.blob
  pixel_byte-lt y x c hy hx hc = omega (
    arith,
    row_lt y hy,
    laid.rows_fit,
    stride-pos img.pixel_format_type c hc,
    mul-le-mul_right {m = suc x} (stride img.pixel_format_type) hx,
  )

  offset-small : (f : PixelFormat) (x : ℕ) → x < img.width → u32 (x * stride f) ≡ x * stride f
  offset-small rgb_int8 x h = omega (arith, laid.offsets_fit)
  offset-small bgr_int8 x h = omega (arith, laid.offsets_fit)
  offset-small rgba_int8 x h = omega (arith, laid.offsets_fit)
  offset-small bgra_int8 x h = omega (arith, laid.offsets_fit)
  offset-small l_int8 x h = omega (arith, laid.offsets_fit)
  offset-small unsupported x h = omega (arith, laid.offsets_fit)

  pub row-small : (y : ℕ) → y < img.height → u64 (y * img.width * 3) ≡ y * img.width * 3
  row-small y h =
      u64-small (y * img.width * 3)
        (omega (arith, laid.size_fits, laid.wide, at-lt img.width img.height y 0 h laid.wide))

  pub write_at :
      (y x c : ℕ)
      → y < img.height
      → x < img.width
      → c < 3
      → u64 (y * img.width * 3) + u32 (x * 3 + c) ≡ at img.width y x c
  write_at y x c hy hx hc =
      ap₂ (λ a b. a + b) (row-small y hy) (u32-small (x * 3 + c) (omega (arith, laid.offsets_fit)))

  pub read_at :
      (y x c : ℕ)
      → x < img.width
      → y * img.step + u32 (x * stride img.pixel_format_type) + channel img.pixel_format_type c
        ≡ pixel_byte img y x c
  read_at y x c hx = omega (arith, offset-small img.pixel_format_type x hx)
