-- ===== src/Envs/Image.antt =====
-- Images: `ToRGB8_HWC` and `ResizeNearestRGB888` of envs/common_utils.hh. Buffers are lists of bytes;
-- a read or a write past the end of one has no result. Offsets into a row of `ToRGB8_HWC` are of 32
-- bits, and sizes are of 64.
pub mod Loops
pub mod Layout
pub mod Rgb
pub mod Resize
use gz_drl.Base.{
  ℕ, zero, suc, ◌+◌, ◌-◌, ◌*◌, ◌%◌, min, ◌||◌, Option, none, some, List, [], ◌∷◌, ltb, nat_beq,
  if◌then◌else◌, length, get_elem?, set, nat_eq, name_eq, both_eq,
}

-- What comes behind a step that may have no result.
abbrev pub on_some : {A B : Type 0} → Option A → (A → Option B) → Option B
on_some none next = none
on_some (some a) next = next a

-- `for (k = 0; k < n; ++k)`.
unfoldable pub repeat : {A : Type 0} → ℕ → (ℕ → A → Option A) → A → Option A
repeat zero body a = some a
repeat (suc n) body a = on_some (repeat n body a) (body n)

unfoldable pub zeros : ℕ → List ℕ
zeros zero = []
zeros (suc n) = 0 ∷ zeros n

-- The types of 32 and of 64 bits.
abbrev pub u32 : ℕ → ℕ
u32 n = n % 4294967296

abbrev pub u64 : ℕ → ℕ
u64 n = n % 18446744073709551616

-- `dst[i] = src[j]`.
unfoldable pub copy_byte : List ℕ → ℕ → ℕ → List ℕ → Option (List ℕ)
copy_byte src i j dst = elim (get_elem? src j) [
  | none ↦ none
  | some v ↦ if ltb i (length dst) then some (set dst i v) else none
]

-- `std::memcpy(dst + i, src + j, n)`.
unfoldable pub memcpy : List ℕ → ℕ → ℕ → ℕ → List ℕ → Option (List ℕ)
unfolding repeat copy_byte
memcpy src i j n dst = repeat n (λ k. copy_byte src (i + k) (j + k)) dst

pub data PixelFormat : Type 0 where
  rgb_int8 bgr_int8 rgba_int8 bgra_int8 l_int8 unsupported : PixelFormat

pub record Image : Type 0 where
  pub width : ℕ
  pub height : ℕ
  pub step : ℕ
  pub pixel_format_type : PixelFormat
  pub blob : List ℕ

-- The bytes of a pixel, and the byte that holds a channel of red, green and blue.
abbrev pub stride : PixelFormat → ℕ
stride rgba_int8 = 4
stride bgra_int8 = 4
stride l_int8 = 1
stride f = 3

abbrev pub channel : PixelFormat → ℕ → ℕ
channel bgr_int8 c = 2 - c
channel bgra_int8 c = 2 - c
channel l_int8 c = 0
channel f c = c

-- `d[x * 3 + c] = p[..]` for the three channels, where `p` is `s + x * stride`; `d` and `s` are
-- the starts of the row.
unfoldable pub convert_pixel : List ℕ → PixelFormat → ℕ → ℕ → ℕ → List ℕ → Option (List ℕ)
unfolding copy_byte
convert_pixel src f d s x out =
    let p = s + u32 (x * stride f) in
    on_some (copy_byte src (d + u32 (x * 3 + 0)) (p + channel f 0) out) (λ out.
      on_some (copy_byte src (d + u32 (x * 3 + 1)) (p + channel f 1) out)
        (λ out. copy_byte src (d + u32 (x * 3 + 2)) (p + channel f 2) out))

-- The loop over the rows and the columns.
unfoldable pub convert_rows : Image → List ℕ → Option (List ℕ)
unfolding repeat convert_pixel
convert_rows img out =
    repeat img.height
      (λ y.
        repeat img.width
          (convert_pixel img.blob img.pixel_format_type (u64 (y * img.width * 3)) (y * img.step)))
      out

unfoldable pub copy_rows : Image → List ℕ → Option (List ℕ)
unfolding repeat memcpy
copy_rows img out =
    if nat_beq img.step (u32 (3 * img.width))
    then memcpy img.blob 0 0 (u64 (img.height * img.width * 3)) out
    else repeat img.height
        (λ y. memcpy img.blob (u64 (y * img.width * 3)) (y * img.step) (img.width * 3)) out

-- The `switch` over the formats.
unfoldable pub convert : PixelFormat → Image → List ℕ → Option (List ℕ)
unfolding copy_rows convert_rows
convert rgb_int8 img out = copy_rows img out
convert unsupported img out = some out
convert f img out = convert_rows img out

unfoldable pub to_rgb8_hwc : Image → Option (List ℕ)
unfolding zeros convert
to_rgb8_hwc img =
    let size = u64 (img.height * img.width * 3) in
    if ltb (length img.blob) (img.height * img.step) || nat_beq img.width 0 || nat_beq img.height 0
    then some (zeros size)
    else convert img.pixel_format_type img (zeros size)

-- `scaled s d x` is `static_cast<int>(x * (static_cast<float>(s) / static_cast<float>(d)))`.
module _ (scaled : ℕ → ℕ → ℕ → ℕ) where
  unfoldable pub resize_pixel : List ℕ → ℕ → ℕ → ℕ → ℕ → ℕ → List ℕ → Option (List ℕ)
  unfolding copy_byte
  resize_pixel src sw dw srow drow x dst =
      let xx = min (scaled sw dw x) (sw - 1) in
      let si = xx * 3 in
      let di = x * 3 in
      on_some (copy_byte src (drow + (di + 0)) (srow + (si + 0)) dst) (λ dst.
        on_some (copy_byte src (drow + (di + 1)) (srow + (si + 1)) dst)
          (λ dst. copy_byte src (drow + (di + 2)) (srow + (si + 2)) dst))

  -- A width or a height of the source is at least 1; `sw - 1` of 0 is -1 in the source.
  unfoldable pub resize_nearest_rgb888 : List ℕ → ℕ → ℕ → ℕ → ℕ → List ℕ → Option (List ℕ)
  unfolding repeat resize_pixel
  resize_nearest_rgb888 src sw sh dw dh dst =
      repeat dh
        (λ y.
          let yy = min (scaled sh dh y) (sh - 1) in
          repeat dw (resize_pixel src sw dw (yy * sw * 3) (y * dw * 3)))
        dst
