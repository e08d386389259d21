-- ===== src/Envs/Image/Resize.antt =====
-- `ResizeNearestRGB888` of envs/common_utils.hh stays in its buffers.
use gz_drl.Base.{
  ℕ, ◌-◌, ◌*◌, ◌<◌, min, ◌≡◌, refl, some, List, arith, length, get_elem?, nat_eq, name_eq, both_eq,
}
use gz_drl.Envs.Image.{resize_pixel, resize_nearest_rgb888}
use gz_drl.Envs.Image.Loops.{at, at-lt, pixel-Filled, start-Filled, rows-Filled}

module _ (scaled : ℕ → ℕ → ℕ → ℕ) where
  -- The byte of the source for a byte of a pixel.
  abbrev pub nearest : ℕ → ℕ → ℕ → ℕ → ℕ → ℕ → ℕ → ℕ
  nearest sw sh dw dh y x c =
      at sw (min (scaled sh dh y) (sh - 1)) (min (scaled sw dw x) (sw - 1)) c

  -- However the scaled positions round, an image that is not empty is resized without a read or a
  -- write outside of the buffers, where these have the sizes of the images: the buffer keeps its
  -- length, and each byte of a pixel is the same channel of the pixel at the scaled position, which
  -- the last row and column bound.
  pub resize_nearest_rgb888-at :
      (src : List ℕ) (sw sh dw dh : ℕ) (dst : List ℕ)
      → 0 < sw
      → 0 < sh
      → length src ≡ sh * sw * 3
      → length dst ≡ dh * dw * 3
      → (out : List ℕ) × (resize_nearest_rgb888 scaled src sw sh dw dh dst ≡ some out)
        × (length out ≡ dh * dw * 3)
        × ((y x c : ℕ)
            → y < dh
            → x < dw
            → c < 3
            → get_elem? out (at dw y x c) ≡ get_elem? src (nearest sw sh dw dh y x c))
  unfolding resize_nearest_rgb888 resize_pixel
  resize_nearest_rgb888-at src sw sh dw dh dst pw ph es ed =
      let size = dh * dw * 3 in
      let from = nearest sw sh dw dh in
      let (out, runs, f) =
        rows-Filled src dw from size dh
          (λ y. resize_pixel scaled src sw dw (min (scaled sh dh y) (sh - 1) * sw * 3) (y * dw * 3))
          dst
          (λ y x b hy hx g.
            let yy = min (scaled sh dh y) (sh - 1) in
            let xx = min (scaled sw dw x) (sw - 1) in
            let inside = at-lt sw sh yy xx (omega arith) (omega arith) in
            pixel-Filled src dw from size y x _ _ _ _ _ _ b hx (at-lt dw dh y x hy hx)
              (λ c hc. omega arith) (refl, refl, refl) (refl, refl, refl) g)
          (start-Filled src dw from size dst ed) in
      (
        out,
        runs,
        f.same_length,
        λ y x c hy hx hc. f.bytes y x c hx hc (omega (arith, at-lt dw dh y x hy hx)),
      )
