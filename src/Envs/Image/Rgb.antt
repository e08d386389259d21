-- ===== src/Envs/Image/Rgb.antt =====
-- `ToRGB8_HWC` of envs/common_utils.hh for images that are laid out as their format says.
use gz_drl.Base.{
  ℕ, zero, suc, ◌+◌, ◌-◌, ◌*◌, ◌/◌, ◌≤◌, ◌<◌, ◌≡◌, refl, ap, subst, ◌∙◌, ◌≢◌, inl, inr, some, List,
  arith, nat_beq, nat_beq_iff, Bool-cases, length, get_elem?, nat_eq, name_eq, both_eq,
}
use gz_drl.Envs.Image.{
  repeat, zeros, u32, u64, copy_byte, memcpy, PixelFormat, rgb_int8, bgr_int8, rgba_int8, bgra_int8,
  l_int8, unsupported, Image, stride, channel, convert_pixel, convert_rows, copy_rows, convert,
  to_rgb8_hwc,
}
use gz_drl.Envs.Image.Layout.{
  IsLaidOut, u32-small, u64-small, pixel_byte, row_lt, pixel_byte-lt, row-small, write_at, read_at,
}
use gz_drl.Envs.Image.Loops.{
  repeat-induct, at, at-lt, rows_apart, Filled, copy_byte-Filled, pixel-Filled, start-Filled,
  rows-Filled,
}

length-zeros : (n : ℕ) → length (zeros n) ≡ n
unfolding zeros
length-zeros zero = refl
length-zeros (suc n) = ap suc (length-zeros n)

module _ (img : Image) (laid : IsLaidOut img) where
  abbrev size : ℕ
  size = img.height * img.width * 3

  abbrev Done : ℕ → List ℕ → Type 0
  Done = Filled img.blob img.width (pixel_byte img) size

  convert_rows-Filled :
      (out : List ℕ)
      → Done 0 out
      → (out' : List ℕ) × (convert_rows img out ≡ some out') × Done size out'
  unfolding convert_rows convert_pixel
  convert_rows-Filled out start =
      rows-Filled img.blob img.width (pixel_byte img) size img.height
        (λ y. convert_pixel img.blob img.pixel_format_type (u64 (y * img.width * 3)) (y * img.step))
        out
        (λ y x b hy hx f.
          pixel-Filled img.blob img.width (pixel_byte img) size y x _ _ _ _ _ _ b hx
            (at-lt img.width img.height y x hy hx) (λ c hc. pixel_byte-lt img laid y x c hy hx hc)
            (
              write_at img laid y x 0 hy hx (omega arith),
              write_at img laid y x 1 hy hx (omega arith),
              write_at img laid y x 2 hy hx (omega arith),
            )
            (read_at img laid y x 0 hx, read_at img laid y x 1 hx, read_at img laid y x 2 hx) f)
        start

  memcpy-Filled :
      (i j n : ℕ) (b : List ℕ)
      → i + n ≤ size
      → j + n ≤ length img.blob
      → ((k y x c : ℕ)
          → k < n
          → x < img.width
          → c < 3
          → at img.width y x c ≡ i + k
          → pixel_byte img y x c ≡ j + k)
      → Done i b
      → (b' : List ℕ) × (memcpy img.blob i j n b ≡ some b') × Done (i + n) b'
  unfolding memcpy
  memcpy-Filled i j n b room inside here start =
      repeat-induct (λ k b. Done (i + k) b) (λ k. copy_byte img.blob (i + k) (j + k)) n b
        (subst (λ s. Done s b) (omega arith) start)
        (λ k b hk f.
          let (b', runs, f') =
            copy_byte-Filled img.blob img.width (pixel_byte img) size (i + k) (j + k) b
              (omega arith) (omega arith) (λ y x c hx hc e. here k y x c hk hx hc e) f in
          (b', runs, subst (λ s. Done s b') (omega arith) f'))

  module _ (is_rgb : img.pixel_format_type ≡ rgb_int8) where
    rgb_byte : (y x c : ℕ) → pixel_byte img y x c ≡ y * img.step + (x * 3 + c)
    rgb_byte y x c = ap (λ f. y * img.step + (x * stride f + channel f c)) is_rgb

    rgb_rows_fit : img.width * 3 ≤ img.step
    rgb_rows_fit = subst (λ f. img.width * stride f ≤ img.step) is_rgb laid.rows_fit

    -- Without padding the rows are one block.
    one_block :
        (out : List ℕ)
        → img.step ≡ 3 * img.width
        → Done 0 out
        → (out' : List ℕ) × (memcpy img.blob 0 0 (u64 size) out ≡ some out') × Done size out'
    one_block out tight start =
        let whole = u64-small size laid.size_fits in
        let block : img.height * img.step ≡ size = omega (arith, ap (λ s. img.height * s) tight) in
        let (b, runs, f) =
          memcpy-Filled 0 0 size out (omega arith) (omega (arith, laid.data_fit))
            (λ k y x c hk hx hc e. rgb_byte y x c ∙ omega (arith, ap (λ s. y * s) tight)) start in
        (b, ap (λ n. memcpy img.blob 0 0 n out) whole ∙ runs, subst (λ s. Done s b) (omega arith) f)

    row_by_row :
        (out : List ℕ)
        → Done 0 out
        → (out' : List ℕ) × (repeat img.height
              (λ y. memcpy img.blob (u64 (y * img.width * 3)) (y * img.step) (img.width * 3))
              out
            ≡ some out')
          × Done size out'
    row_by_row out start =
        repeat-induct (λ y b. Done (y * img.width * 3) b)
          (λ y. memcpy img.blob (u64 (y * img.width * 3)) (y * img.step) (img.width * 3)) img.height
          out (subst (λ s. Done s out) (omega arith) start)
          (λ y b hy f.
            let last = at-lt img.width img.height y (img.width - 1) hy (omega (arith, laid.wide)) in
            let (b', runs, f') =
              memcpy-Filled (y * img.width * 3) (y * img.step) (img.width * 3) b
                (omega (arith, laid.wide)) (omega (arith, row_lt img laid y hy, rgb_rows_fit))
                (λ k y' x c hk hx hc e.
                  let (ey, ex) =
                    rows_apart img.width y' y x (k / 3) hx (omega arith) (omega arith) in
                  rgb_byte y' x c
                  ∙ omega (arith, ap (λ i. i * img.step) ey, ap (λ i. i * img.width) ey))
                f in
            (b', rw (row-small img laid y hy) runs, subst (λ s. Done s b') (omega arith) f'))

    copy_rows-Filled :
        (out : List ℕ)
        → Done 0 out
        → (out' : List ℕ) × (copy_rows img out ≡ some out') × Done size out'
    unfolding copy_rows
    copy_rows-Filled out start =
        let narrow : u32 (3 * img.width) ≡ 3 * img.width =
          u32-small (3 * img.width) (omega (arith, laid.offsets_fit)) in
        elim (Bool-cases (nat_beq img.step (u32 (3 * img.width)))) [
          | inl e ↦
              let (b, runs, f) =
                one_block out ((nat_beq_iff img.step (u32 (3 * img.width))).0 e ∙ narrow) start in
              (b, rw (copy_rows, e) runs, f)
          | inr e ↦ let (b, runs, f) = row_by_row out start in (b, rw (copy_rows, e) runs, f)
        ]

  convert-Filled :
      (f : PixelFormat) (out : List ℕ)
      → img.pixel_format_type ≡ f
      → f ≢ unsupported
      → Done 0 out
      → (out' : List ℕ) × (convert f img out ≡ some out') × Done size out'
  unfolding convert
  convert-Filled rgb_int8 out is_f known start = copy_rows-Filled is_f out start
  convert-Filled bgr_int8 out is_f known start = convert_rows-Filled out start
  convert-Filled rgba_int8 out is_f known start = convert_rows-Filled out start
  convert-Filled bgra_int8 out is_f known start = convert_rows-Filled out start
  convert-Filled l_int8 out is_f known start = convert_rows-Filled out start
  convert-Filled unsupported out is_f known start = absurd (known refl)

  -- An image of a supported format that is laid out as the format says is converted without a read or
  -- a write out of bounds, with and without padding behind its rows: the result has three bytes for
  -- each pixel, and each is the byte of the data that holds the channel of the pixel.
  pub to_rgb8_hwc-at :
      img.pixel_format_type ≢ unsupported
      → (out : List ℕ) × (to_rgb8_hwc img ≡ some out)
        × (length out ≡ img.height * img.width * 3)
        × ((y x c : ℕ)
            → y < img.height
            → x < img.width
            → c < 3
            → get_elem? out (at img.width y x c) ≡ get_elem? img.blob (pixel_byte img y x c))
  unfolding to_rgb8_hwc
  to_rgb8_hwc-at known =
      let black = zeros (u64 size) in
      let e : length black ≡ size = length-zeros (u64 size) ∙ u64-small size laid.size_fits in
      let (out, runs, f) =
        convert-Filled img.pixel_format_type black refl known
          (start-Filled img.blob img.width (pixel_byte img) size black e) in
      (
        out,
        ground (arith, laid.data_fit, laid.wide, laid.high, runs),
        f.same_length,
        λ y x c hy hx hc. f.bytes y x c hx hc (omega (arith, at-lt img.width img.height y x hy hx)),
      )
