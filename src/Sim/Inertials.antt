-- ===== src/Sim/Inertials.antt =====
-- Masses and inertias of links: `set_mass`, `get_mass`, `set_inertia` and `get_inertia` of
-- `DRLHelperSystem` in GzDRL/src/rl_server.cc, on the descriptions of the models.
pub mod Writes
use gz_drl.Base.{
  ℕ, zero, suc, Option, none, some, Name, nat_eq, name_eq, both_eq, runtime_error, Result, ok,
  throws,
}
use gz_drl.Base.Map.{Map, find, insert}

-- What the source takes from the math library: an inertia seen in the frame of a pose, which is
-- `R^T * I * R`, and the moments of inertia of a mass matrix at a pose.
pub record Frames : Type 1 where
  pub Real : Type 0
  pub Matrix : Type 0
  pub Moments : Type 0
  pub Pose : Type 0
  pub in_frame : Pose → Matrix → Matrix
  -- The diagonal and the upper triangle.
  pub moments : Matrix → Moments
  pub moi : Moments → Pose → Matrix

module _ (F : Frames) where
  pub record Inertial : Type 0 where
    pub mass : F.Real
    pub mass_moments : F.Moments
    pub pose : F.Pose

  -- `model_sdf_objs`, of which each has its links by name.
  abbrev pub Descriptions : Type 0
  Descriptions = Map Name (Map Name Inertial)

module _ {F : Frames} where
  -- The link of a model, where both are known.
  abbrev pub row_inertial : Option (Map Name (Inertial F)) → Name → Option (Inertial F)
  row_inertial none link_name = none
  row_inertial (some links) link_name = find link_name links

  unfoldable pub link_inertial : Name → Name → Descriptions F → Option (Inertial F)
  link_inertial model_name link_name ds = row_inertial (find model_name ds) link_name

  -- `link->SetInertial`, behind the early returns.
  abbrev pub write_row :
      (Inertial F → Inertial F)
      → Name
      → Name
      → Option (Map Name (Inertial F))
      → Option (Inertial F)
      → Descriptions F
      → Descriptions F
  write_row f model_name link_name none old ds = ds
  write_row f model_name link_name (some links) none ds = ds
  write_row f model_name link_name (some links) (some old) ds =
      insert model_name (insert link_name (f old) links) ds

  unfoldable pub write_inertial :
      (Inertial F → Inertial F) → Name → Name → Descriptions F → Descriptions F
  unfolding link_inertial
  write_inertial f model_name link_name ds =
      write_row f model_name link_name (find model_name ds) (link_inertial model_name link_name ds)
        ds

  unfoldable pub set_mass : Name → Name → F.Real → Descriptions F → Descriptions F
  unfolding write_inertial
  set_mass model_name link_name mass ds =
      write_inertial (λ i. record i { mass = mass }) model_name link_name ds

  unfoldable pub set_inertia : Name → Name → F.Matrix → Descriptions F → Descriptions F
  unfolding write_inertial
  set_inertia model_name link_name inertia ds =
      write_inertial (λ i. record i { mass_moments = F.moments (F.in_frame i.pose inertia) })
        model_name link_name ds

  abbrev pub answer : {A : Type 0} → (Inertial F → A) → Option (Inertial F) → Result A
  answer f none = throws runtime_error
  answer f (some i) = ok (f i)

  unfoldable pub get_mass : Name → Name → Descriptions F → Result F.Real
  unfolding link_inertial
  get_mass model_name link_name ds = answer (λ i. i.mass) (link_inertial model_name link_name ds)

  unfoldable pub get_inertia : Name → Name → Descriptions F → Result F.Matrix
  unfolding link_inertial
  get_inertia model_name link_name ds =
      answer (λ i. F.moi i.mass_moments i.pose) (link_inertial model_name link_name ds)
