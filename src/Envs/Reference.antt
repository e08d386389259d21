-- ===== src/Envs/Reference.antt =====
-- `TrajectoryTrackingReference` of GzDRL/include/common/trajectory_tracking_reference.hh. A read past
-- the end of one of its vectors has no result.
pub mod Valid
use gz_drl.Base.{
  ℕ, zero, suc, Bool, true, not, ◌&&◌, ◌||◌, Option, none, some, List, [], ◌∷◌, nat_beq,
  if◌then◌else◌, length, get_elem?, nat_eq, name_eq, both_eq, invalid_argument, Result, ok, throws,
  ◌>>=◌,
}

-- Floating-point numbers. `sums` is the angle `f * t + p` of an axis, `yaw` is `atan2`, and
-- `rotation` the nine entries of the matrix of the normalized quaternion, row by row.
pub record Floats : Type 1 where
  pub Float : Type 0
  pub nought : Float
  pub is_finite : Float → Bool
  pub is_positive : Float → Bool
  pub plus : Float → Float → Float
  pub minus : Float → Float → Float
  pub times : Float → Float → Float
  pub sin : Float → Float
  pub cos : Float → Float
  pub atan2 : Float → Float → Float
  pub half : Float → Float
  pub of_nat : ℕ → Float
  pub rotation : Float → Float → ℕ → Float

module _ (F : Floats) where
  pub record Curve : Type 0 where
    pub amplitudes : List F.Float
    pub frequencies : List F.Float
    pub phases : List F.Float
    pub height_offset : F.Float
    pub control_dt : F.Float
    pub fixed_zero_yaw : Bool

  -- The loop of `Validate`, behind the test of the sizes.
  unfoldable pub axes_fit : List F.Float → List F.Float → List F.Float → Bool
  axes_fit [] fs ps = true
  axes_fit (a ∷ rest) [] ps = true
  axes_fit (a ∷ rest) (f ∷ fs) [] = true
  axes_fit (a ∷ rest) (f ∷ fs) (p ∷ ps) =
      (F.is_finite a && F.is_finite f && F.is_finite p && F.is_positive f) && axes_fit rest fs ps

-- The coefficients of a vector; none is read behind its end.
abbrev pub entries : {A : Type 0} → A → List A → ℕ → A
entries z [] i = z
entries z (x ∷ xs) zero = x
entries z (x ∷ xs) (suc i) = entries z xs i

-- One round of the loop of `State`: the position and the velocity along an axis.
abbrev pub axis_of :
    (F : Floats)
    → Option F.Float
    → Option F.Float
    → Option F.Float
    → F.Float
    → Option (F.Float × F.Float)
axis_of F none f p time = none
axis_of F (some a) none p time = none
axis_of F (some a) (some f) none time = none
axis_of F (some a) (some f) (some p) time =
    let angle = F.plus (F.times f time) p in
    some (F.times a (F.sin angle), F.times (F.times a f) (F.cos angle))

-- A row of `Errors`, from the reference of its step.
abbrev pub error_row :
    (F : Floats) → Option (List F.Float) → (ℕ → F.Float) → Bool → Option (List F.Float)
error_row F none s include_rotation = none
error_row F (some reference) s include_rotation =
    let r = entries F.nought reference in
    let m = F.rotation (r 6) (r 9) in
    some (
      F.minus (r 0) (s 0)
      ∷ F.minus (r 1) (s 1)
      ∷ F.minus (r 2) (s 2)
      ∷ F.minus (r 3) (s 3)
      ∷ F.minus (r 4) (s 4)
      ∷ F.minus (r 5) (s 5)
      ∷ (if include_rotation then m 0 ∷ m 1 ∷ m 2 ∷ m 3 ∷ m 4 ∷ m 5 ∷ m 6 ∷ m 7 ∷ m 8 ∷ [] else []))

abbrev pub with_row : {A : Type 0} → Option A → Option (List A) → Option (List A)
with_row none rows = none
with_row (some row) none = none
with_row (some row) (some rows) = some (row ∷ rows)

module _ {F : Floats} where
  unfoldable pub validate : Curve F → Result (Unit {0})
  unfolding axes_fit
  validate c =
      if not (nat_beq (length c.amplitudes) 3)
        || not (nat_beq (length c.frequencies) 3)
        || not (nat_beq (length c.phases) 3)
      then throws invalid_argument
      else if not (F.is_finite c.height_offset)
          || not (F.is_finite c.control_dt)
          || not (F.is_positive c.control_dt)
      then throws invalid_argument
      else if axes_fit F c.amplitudes c.frequencies c.phases
      then ok tt
      else throws invalid_argument

  -- The constructor.
  unfoldable pub new_reference : Curve F → Result (Curve F)
  unfolding validate
  new_reference c = validate c >>= λ _. ok c

  unfoldable pub update_curve :
      List F.Float
      → List F.Float
      → List F.Float
      → F.Float
      → Bool
      → Curve F
      → Result (Unit {0}) × Curve F
  unfolding validate
  update_curve amplitudes frequencies phases height_offset fixed_zero_yaw c =
      let c' : Curve F = record {
        amplitudes = amplitudes;
        frequencies = frequencies;
        phases = phases;
        height_offset = height_offset;
        control_dt = c.control_dt;
        fixed_zero_yaw = fixed_zero_yaw;
      } in
      (validate c', c')

  unfoldable pub axis : ℕ → Curve F → F.Float → Option (F.Float × F.Float)
  axis i c time =
      axis_of F (get_elem? c.amplitudes i) (get_elem? c.frequencies i) (get_elem? c.phases i) time

  -- The state from the three axes: position, velocity, quaternion, angular velocity.
  abbrev pub state_with :
      Curve F
      → Option (F.Float × F.Float)
      → Option (F.Float × F.Float)
      → Option (F.Float × F.Float)
      → Option (List F.Float)
  state_with c none y z = none
  state_with c (some x) none z = none
  state_with c (some x) (some y) none = none
  state_with c (some (x, vx)) (some (y, vy)) (some (z, vz)) =
      let yaw = if c.fixed_zero_yaw then F.nought else F.atan2 vy vx in
      let half_yaw = F.half yaw in
      some (
        x
        ∷ y
        ∷ F.plus z c.height_offset
        ∷ vx
        ∷ vy
        ∷ vz
        ∷ F.cos half_yaw
        ∷ F.nought
        ∷ F.nought
        ∷ F.sin half_yaw
        ∷ F.nought
        ∷ F.nought
        ∷ F.nought
        ∷ [])

  unfoldable pub state : Curve F → F.Float → Option (List F.Float)
  unfolding axis
  state c time = state_with c (axis 0 c time) (axis 1 c time) (axis 2 c time)

  -- The rows from a step on; `horizon` counts those that are left.
  unfoldable pub error_rows :
      Curve F → (ℕ → F.Float) → F.Float → ℕ → ℕ → Bool → Option (List (List F.Float))
  unfolding state
  error_rows c s time step zero include_rotation = some []
  error_rows c s time step (suc horizon) include_rotation =
      with_row
        (error_row F (state c (F.plus time (F.times (F.of_nat step) c.control_dt))) s
          include_rotation)
        (error_rows c s time (suc step) horizon include_rotation)

  unfoldable pub errors :
      Curve F → (ℕ → F.Float) → F.Float → ℕ → Bool → Option (List (List F.Float))
  unfolding error_rows
  errors c s time horizon include_rotation = error_rows c s time 0 horizon include_rotation
