-- ===== src/Envs/Reference/Valid.antt =====
-- Which references of GzDRL/include/common/trajectory_tracking_reference.hh can be evaluated.
use gz_drl.Base.{
  ℕ, zero, suc, ◌<◌, ◌≡◌, refl, sym, ap, ap₂, ◌∙◌, Bool, true, false, some, List, [], ◌∷◌, arith,
  if◌then◌else◌, length, get_elem?-some, All, nat_eq, name_eq, both_eq, Result, ok, >>=-eq-ok,
}
use gz_drl.Envs.Reference.{
  Floats, Curve, validate, new_reference, update_curve, axis, state_with, state, error_row,
  with_row, error_rows, errors,
}

-- A call of `UpdateCurve`.
pub record Update (F : Floats) : Type 0 where
  pub amplitudes : List F.Float
  pub frequencies : List F.Float
  pub phases : List F.Float
  pub height_offset : F.Float
  pub fixed_zero_yaw : Bool

abbrev pub features : Bool → ℕ
features include_rotation = if include_rotation then 15 else 6

error_row-some :
    (F : Floats) (r : List F.Float) (s : ℕ → F.Float) (b : Bool)
    → (row : List F.Float) × (error_row F (some r) s b ≡ some row) × (length row ≡ features b)
error_row-some F r s true = (_, refl, refl)
error_row-some F r s false = (_, refl, refl)

module _ {F : Floats} where
  -- The updates of a client that goes on when one throws, and the result of the last of them.
  unfoldable pub update_all :
      List (Update F) → Result (Unit {0}) → Curve F → Result (Unit {0}) × Curve F
  unfolding update_curve
  update_all [] r c = (r, c)
  update_all (u ∷ us) r c =
      let (r', c') =
        update_curve u.amplitudes u.frequencies u.phases u.height_offset u.fixed_zero_yaw c in
      update_all us r' c'

  update_all-validate :
      (us : List (Update F)) (r : Result (Unit {0})) (c : Curve F)
      → r ≡ validate c
      → (update_all us r c).0 ≡ validate (update_all us r c).1
  unfolding update_all update_curve
  update_all-validate [] r c e = e
  update_all-validate (u ∷ us) r c e =
      update_all-validate us _
        (update_curve u.amplitudes u.frequencies u.phases u.height_offset u.fixed_zero_yaw c).1 refl

  validate-sizes :
      (c : Curve F)
      → validate c ≡ ok tt
      → (length c.amplitudes ≡ 3) × (length c.frequencies ≡ 3) × (length c.phases ≡ 3)
  unfolding validate
  validate-sizes c e = ground (arith, e)

  axis-some :
      (i : ℕ) (c : Curve F) (time : F.Float)
      → i < 3
      → validate c ≡ ok tt
      → (p : F.Float × F.Float) × (axis i c time ≡ some p)
  unfolding axis
  axis-some i c time h e =
      let (ea, ef, ep) = validate-sizes c e in
      let (a, ra) = get_elem?-some c.amplitudes i (omega (arith, ea)) in
      let (f, rf) = get_elem?-some c.frequencies i (omega (arith, ef)) in
      let (p, rp) = get_elem?-some c.phases i (omega (arith, ep)) in
      let angle = F.plus (F.times f time) p in
      ((F.times a (F.sin angle), F.times (F.times a f) (F.cos angle)), rw (ra, rf, rp) refl)

  state_with-some :
      (c : Curve F) (x y z : F.Float × F.Float)
      → (s : List F.Float) × (state_with c (some x) (some y) (some z) ≡ some s) × (length s ≡ 13)
  state_with-some c x y z = (_, refl, refl)

  state-some :
      (c : Curve F) (time : F.Float)
      → validate c ≡ ok tt
      → (s : List F.Float) × (state c time ≡ some s) × (length s ≡ 13)
  unfolding state
  state-some c time e =
      let (x, ex) = axis-some 0 c time (omega arith) e in
      let (y, ey) = axis-some 1 c time (omega arith) e in
      let (z, ez) = axis-some 2 c time (omega arith) e in
      let (s, r, l) = state_with-some c x y z in (s, rw (ex, ey, ez) r, l)

  error_rows-some :
      (c : Curve F) (s : ℕ → F.Float) (time : F.Float) (step horizon : ℕ) (b : Bool)
      → validate c ≡ ok tt
      → (rows : List (List F.Float)) × (error_rows c s time step horizon b ≡ some rows)
        × (length rows ≡ horizon)
        × All (λ row. length row ≡ features b) rows
  unfolding error_rows
  error_rows-some c s time step zero b e = ([], refl, refl, tt)
  error_rows-some c s time step (suc horizon) b e =
      let at = F.plus time (F.times (F.of_nat step) c.control_dt) in
      let (reference, er, lr) = state-some c at e in
      let (row, made, wide) = error_row-some F reference s b in
      let (rows, rest, many, all_wide) = error_rows-some c s time (suc step) horizon b e in
      let first : error_row F (state c at) s b ≡ some row = ap (λ o. error_row F o s b) er ∙ made in
      (row ∷ rows, ap₂ with_row first rest, ap suc many, (wide, all_wide))

  -- After a construction that returned and any updates, of which those that threw were ignored,
  -- `Validate` would do what the last of these calls did. Where that returned, every state has 13
  -- entries and every table of errors a row of 15 or 6 entries for each step of the horizon, with
  -- no read out of bounds.
  pub errors-update_all :
      (c0 c : Curve F) (updates : List (Update F)) (s : ℕ → F.Float) (time : F.Float) (horizon : ℕ)
      (include_rotation : Bool)
      → new_reference c0 ≡ ok c
      → (update_all updates (ok tt) c).0 ≡ ok tt
      → (let now = (update_all updates (ok tt) c).1 in
          ((state_now : List F.Float) × (state now time ≡ some state_now) × (length state_now ≡ 13))
          × ((rows : List (List F.Float)) × (errors now s time horizon include_rotation ≡ some rows)
              × (length rows ≡ horizon)
              × All (λ row. length row ≡ features include_rotation) rows))
  unfolding new_reference errors
  errors-update_all c0 c updates s time horizon include_rotation made last =
      let (u, checked, same) = >>=-eq-ok (validate c0) (λ _. ok c0) made in
      let built : c0 ≡ c = cc in
      let start : ok tt ≡ validate c = sym (sym (ap (λ k. validate {F = F} k) built) ∙ checked) in
      let fits : validate (update_all updates (ok tt) c).1 ≡ ok tt =
        sym (update_all-validate updates (ok tt) c start) ∙ last in
      (
        state-some (update_all updates (ok tt) c).1 time fits,
        error_rows-some (update_all updates (ok tt) c).1 s time 0 horizon include_rotation fits,
      )
