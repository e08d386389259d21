-- ===== src/Sim/Tests/Inertials.antt =====
-- Runs of the writes of masses and inertias, and their theorem at a concrete input.
use gz_drl.Base.{
  ℕ, ◌+◌, ◌-◌, ◌≡◌, refl, ◌&&◌, [], ◌∷◌, if◌then◌else◌, Name, codes, name_beq, nat_eq, name_eq,
  both_eq, runtime_error, ok, throws,
}
use gz_drl.Base.Map.{find, insert}
use gz_drl.Sim.Inertials.{
  Frames, Descriptions, link_inertial, write_inertial, answer, set_mass, set_inertia, get_mass,
  get_inertia,
}
use gz_drl.Sim.Inertials.Writes.{get_mass-set_mass}

abbrev some_frames : Frames
some_frames = record {
  Real = ℕ;
  Matrix = ℕ;
  Moments = ℕ;
  Pose = ℕ;
  in_frame = λ p m. p + m;
  moments = λ m. m;
  moi = λ m p. m - p;
}

abbrev uav : Name
uav = codes "uav"

abbrev base : Name
base = codes "base"

abbrev some_descriptions : Descriptions some_frames
some_descriptions = (uav, (base, record { mass = 3; mass_moments = 7; pose = 1 }) ∷ []) ∷ []

get_mass-set_mass_example :
    (let here = name_beq uav uav && name_beq base base in
      (get_mass uav base (set_mass uav base 5 some_descriptions) ≡ (
        if here
        then answer (λ i. 5) (link_inertial uav base some_descriptions)
        else get_mass uav base some_descriptions))
      × (get_inertia uav base (set_mass uav base 5 some_descriptions)
          ≡ get_inertia uav base some_descriptions)
      × (get_mass uav base (set_inertia uav base 9 some_descriptions)
          ≡ get_mass uav base some_descriptions)
      × (get_inertia uav base (set_inertia uav base 9 some_descriptions) ≡ (
          if here
          then answer
              (λ i. some_frames.moi (some_frames.moments (some_frames.in_frame i.pose 9)) i.pose)
              (link_inertial uav base some_descriptions)
          else get_inertia uav base some_descriptions)))
get_mass-set_mass_example = get_mass-set_mass uav base uav base 5 9 some_descriptions

set_mass_run : get_mass uav base (set_mass uav base 5 some_descriptions) ≡ ok 5
unfolding get_mass set_mass write_inertial link_inertial find insert
set_mass_run = refl

set_inertia_run : get_inertia uav base (set_inertia uav base 9 some_descriptions) ≡ ok 9
unfolding get_inertia set_inertia write_inertial link_inertial find insert
set_inertia_run = refl

unknown_run :
    get_mass uav (codes "arm") (set_mass uav (codes "arm") 5 some_descriptions)
    ≡ throws runtime_error
unfolding get_mass set_mass write_inertial link_inertial find
unknown_run = refl
