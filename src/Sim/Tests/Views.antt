-- ===== src/Sim/Tests/Views.antt =====
-- Runs of the views, the control states and the limiters, and their theorems at concrete inputs.
use gz_drl.Base.{
  ℕ, ◌+◌, ◌*◌, ◌/◌, ◌≡◌, refl, subst, false, some, List, [], ◌∷◌, arith, ltb, if◌then◌else◌, Name,
  codes, nat_eq, name_eq, both_eq,
}
use gz_drl.Base.Map.{Map, IsUnique, find, insert, emplace}
use gz_drl.Sim.Views.{
  Reals, Reading, View, World, empty_view, cache_slot, cache_slots, measured, raw_state, states_of,
  state_info, post_update,
}
use gz_drl.Sim.Views.Slots.{IsView, cache_slots_lem}
use gz_drl.Sim.Views.Measures.{next_state, state_info-post_update}
use gz_drl.Sim.Controls.{Derivative, control_of, control_at, update_control_states}
use gz_drl.Sim.Controls.Current.{has_name, entry, control_at-update_control_states}
use gz_drl.Sim.Update.{cache_links}
use gz_drl.Sim.Limits.{
  Filtering, new_filter, smooth, update_filter, limit_by, limit, set_time_constants, reset_limiter,
  limit_all, limit-reset_limiter,
}
use gz_drl.Sim.Tests.{one_model}

-- Numbers in place of floating point; a rotation does nothing.
abbrev pub some_reals : Reals
some_reals = record { Real = ℕ; nought = 0; plus = λ a b. a + b; rotate_reverse = λ q v. v }

abbrev pub base : Name
base = codes "base"

-- The model of one link, behind `init_method`.
abbrev pub one_view : View some_reals ℕ
one_view = record {
  link_map = (base, 8) ∷ [];
  state_map = (base, λ i. 0) ∷ [];
  contact_map = (base, []) ∷ [];
  slots = (8, base) ∷ [];
}

cache_slots_lem_example :
    ((
      (cache_slots {R = some_reals} {C = ℕ} one_model (8 ∷ 8 ∷ []) empty_view []).0.link_map,
      (cache_slots {R = some_reals} {C = ℕ} one_model (8 ∷ 8 ∷ []) empty_view []).1,
    )
      ≡ cache_links one_model (8 ∷ 8 ∷ []) [] [])
    × IsView (cache_slots {R = some_reals} {C = ℕ} one_model (8 ∷ 8 ∷ []) empty_view []).0
cache_slots_lem_example = cache_slots_lem one_model (8 ∷ 8 ∷ []) []

cache_slots_run :
    (cache_slots {R = some_reals} {C = ℕ} one_model (8 ∷ []) empty_view []).0 ≡ one_view
unfolding cache_slots cache_slot emplace find
cache_slots_run = refl

abbrev some_reading : Reading some_reals
some_reading = record {
  pos = λ i. i + 1;
  rot = λ i. 20 + i;
  vel = λ i. 30 + i;
  omega = λ i. 40 + i;
  accel = λ i. 50 + i;
  alpha = λ i. 60 + i;
}

-- Every link is measured, its one collision reports the contact 5.
abbrev one_world : World some_reals ℕ
one_world = record {
  reading = λ e. some some_reading;
  collisions = λ e. 11 ∷ [];
  contact_data = λ c. some 5;
  name_of_link = λ e. some base;
}

one_view-IsView : IsView one_view
one_view-IsView = subst IsView cache_slots_run (cache_slots_lem one_model (8 ∷ []) []).1

abbrev pub uav : Name
uav = codes "uav"

abbrev pub some_views : Map Name (View some_reals ℕ)
some_views = (uav, one_view) ∷ []

abbrev some_noise : Name → ℕ → ℕ
some_noise name i = 100

state_info-post_update_example :
    find base (state_info uav (post_update one_world false some_noise some_views)) ≡ (
      if false
      then find base one_view.state_map
      else next_state one_world (some_noise uav) (some some_reading) (find base one_view.state_map))
unfolding find
state_info-post_update_example =
    state_info-post_update one_world false some_noise some_views uav base one_view 8 refl
      one_view-IsView refl

abbrev pub some_derivative : Derivative some_reals
some_derivative q w i = q i + w i

pub some_views-IsUnique : (m : Name) → IsUnique (states_of (find m some_views))
unfolding find
some_views-IsUnique m = ground arith

control_at-update_control_states_example :
    control_at uav base (update_control_states some_derivative (uav ∷ []) some_views []) ≡ (
      if has_name uav (uav ∷ [])
      then entry some_derivative
          (find base (states_of (find uav some_views)))
          (control_at uav base [])
      else control_at uav base [])
control_at-update_control_states_example =
    control_at-update_control_states some_derivative (uav ∷ []) some_views [] uav base
      some_views-IsUnique

control_of_run :
    (control_of {R = some_reals} some_derivative (measured (λ i. 100) some_reading)).state 3 ≡ 130
unfolding control_of measured raw_state
control_of_run = refl

abbrev some_filtering : Filtering
some_filtering = record {
  Real = ℕ;
  gt = λ a b. ltb b a;
  decay = λ dt tau. tau;
  blend = λ a p x. (a * p + x) / (a + 1);
  of_two_lengths = λ p x. x;
}

abbrev some_commands : List (Name × Name × List ℕ)
some_commands = (uav, base, 8 ∷ 4 ∷ []) ∷ (uav, codes "arm", 1 ∷ []) ∷ (uav, base, 2 ∷ 2 ∷ []) ∷ []

limit-reset_limiter_example :
    (let tuned = set_time_constants {F = some_filtering} uav base 1 3 (0 ∷ 0 ∷ []) [] in
      let after = (limit_all 1 some_commands tuned).1 in
      (find (uav, base) (reset_limiter uav base after) ≡ find (uav, base) tuned)
      × ((limit 1 uav base (6 ∷ 6 ∷ []) (reset_limiter uav base after)).0
          ≡ (limit 1 uav base (6 ∷ 6 ∷ []) tuned).0))
limit-reset_limiter_example =
    limit-reset_limiter 1 uav base 1 3 (0 ∷ 0 ∷ []) some_commands [] (6 ∷ 6 ∷ [])

limit_all_run :
    (limit_all 1 some_commands
      (set_time_constants {F = some_filtering} uav base 1 3 (0 ∷ 0 ∷ []) [])).0
    ≡ (4 ∷ 2 ∷ []) ∷ (1 ∷ []) ∷ (3 ∷ 2 ∷ []) ∷ []
unfolding limit_all set_time_constants limit limit_by update_filter smooth new_filter insert find
limit_all_run = refl
