-- ===== src/Envs/Tests/Image.antt =====
-- Runs of the conversions of images, and their theorems at concrete inputs.
use gz_drl.Base.{
  ℕ, ◌*◌, ◌/◌, ◌<◌, ◌≡◌, refl, none, some, List, [], ◌∷◌, arith, length, get_elem?, nat_eq, name_eq,
  both_eq,
}
use gz_drl.Envs.Image.{
  Image, rgb_int8, bgr_int8, repeat, zeros, copy_byte, memcpy, convert_pixel, convert_rows,
  copy_rows, convert, to_rgb8_hwc, resize_pixel, resize_nearest_rgb888,
}
use gz_drl.Envs.Image.Loops.{at}
use gz_drl.Envs.Image.Layout.{IsLaidOut, pixel_byte}
use gz_drl.Envs.Image.Rgb.{to_rgb8_hwc-at}
use gz_drl.Envs.Image.Resize.{nearest, resize_nearest_rgb888-at}

-- Two rows of two pixels, each with a byte of padding.
abbrev padded : Image
padded = record {
  width = 2;
  height = 2;
  step = 7;
  pixel_format_type = bgr_int8;
  blob = 1 ∷ 2 ∷ 3 ∷ 4 ∷ 5 ∷ 6 ∷ 0 ∷ 8 ∷ 9 ∷ 10 ∷ 11 ∷ 12 ∷ 13 ∷ 0 ∷ [];
}

padded-IsLaidOut : IsLaidOut padded
padded-IsLaidOut = record {
  wide = omega arith;
  high = omega arith;
  rows_fit = omega arith;
  data_fit = omega arith;
  offsets_fit = omega arith;
  size_fits = omega arith;
}

padded_run : to_rgb8_hwc padded ≡ some (3 ∷ 2 ∷ 1 ∷ 6 ∷ 5 ∷ 4 ∷ 10 ∷ 9 ∷ 8 ∷ 13 ∷ 12 ∷ 11 ∷ [])
unfolding to_rgb8_hwc zeros convert convert_rows convert_pixel repeat copy_byte
padded_run = refl

-- A step that is too small for the width passes the test of the size, and is read past its end.
short_step_run : to_rgb8_hwc (record padded { height = 1; step = 3; blob = 1 ∷ 2 ∷ 3 ∷ [] }) ≡ none
unfolding to_rgb8_hwc zeros convert convert_rows convert_pixel repeat copy_byte
short_step_run = refl

-- Data that are too short give a black image.
short_data_run :
    to_rgb8_hwc (record padded { blob = 1 ∷ 2 ∷ 3 ∷ [] })
    ≡ some (0 ∷ 0 ∷ 0 ∷ 0 ∷ 0 ∷ 0 ∷ 0 ∷ 0 ∷ 0 ∷ 0 ∷ 0 ∷ 0 ∷ [])
unfolding to_rgb8_hwc zeros
short_data_run = refl

rgb_run :
    to_rgb8_hwc (record padded { height = 1; step = 6; pixel_format_type = rgb_int8 })
    ≡ some (1 ∷ 2 ∷ 3 ∷ 4 ∷ 5 ∷ 6 ∷ [])
unfolding to_rgb8_hwc zeros convert copy_rows memcpy repeat copy_byte
rgb_run = refl

to_rgb8_hwc-at_example :
    (out : List ℕ) × (to_rgb8_hwc padded ≡ some out)
    × (length out ≡ padded.height * padded.width * 3)
    × ((y x c : ℕ)
        → y < padded.height
        → x < padded.width
        → c < 3
        → get_elem? out (at padded.width y x c) ≡ get_elem? padded.blob (pixel_byte padded y x c))
to_rgb8_hwc-at_example = to_rgb8_hwc-at padded padded-IsLaidOut (λ e. ground (arith, e))

abbrev scaled_down : ℕ → ℕ → ℕ → ℕ
scaled_down s d x = x * s / d

abbrev some_pixels : List ℕ
some_pixels = 1 ∷ 2 ∷ 3 ∷ 4 ∷ 5 ∷ 6 ∷ []

abbrev blank : List ℕ
blank = 0 ∷ 0 ∷ 0 ∷ 0 ∷ 0 ∷ 0 ∷ 0 ∷ 0 ∷ 0 ∷ []

resize_run :
    resize_nearest_rgb888 scaled_down some_pixels 2 1 3 1 blank
    ≡ some (1 ∷ 2 ∷ 3 ∷ 1 ∷ 2 ∷ 3 ∷ 4 ∷ 5 ∷ 6 ∷ [])
unfolding resize_nearest_rgb888 resize_pixel repeat copy_byte
resize_run = refl

resize_nearest_rgb888-at_example :
    (out : List ℕ) × (resize_nearest_rgb888 scaled_down some_pixels 2 1 3 1 blank ≡ some out)
    × (length out ≡ 1 * 3 * 3)
    × ((y x c : ℕ)
        → y < 1
        → x < 3
        → c < 3
        → get_elem? out (at 3 y x c) ≡ get_elem? some_pixels (nearest scaled_down 2 1 3 1 y x c))
resize_nearest_rgb888-at_example =
    resize_nearest_rgb888-at scaled_down some_pixels 2 1 3 1 blank (omega arith) (omega arith) refl
      refl
