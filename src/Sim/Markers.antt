-- ===== src/Sim/Markers.antt =====
-- `MarkerManagerDRL` of GzDRL/include/common/common.hh: the markers of a model's trajectory, by their
-- ids. Both layers have a request for each marker that is shown, the halo's first. The settings are
-- `int`s in the source; 0 stands for every number that is not positive. The counters have 64 bits.
pub mod Ids
use gz_drl.Base.{
  ℕ, zero, suc, ◌+◌, ◌%◌, ◌^◌, Bool, not, List, [], ◌∷◌, nat_beq, if◌then◌else◌, nat_eq, name_eq,
  invalid_argument, Result, ok, throws,
}

pub data Layer : Type 0 where
  core_marker halo_marker : Layer

pub data MarkerRequest (P : Type 0) : Type 0 where
  show : Layer → ℕ → P → MarkerRequest P
  delete_namespace : Layer → MarkerRequest P

-- The latest request stands first.
pub record MarkerManager (P : Type 0) : Type 0 where
  pub max_markers : ℕ
  pub marker_interval : ℕ
  pub samples_seen : ℕ
  pub markers_published : ℕ
  pub requests : List (MarkerRequest P)

module _ {P : Type 0} where
  -- The transport may refuse the partition.
  unfoldable pub new_manager : ℕ → ℕ → Bool → Result (MarkerManager P)
  new_manager max_markers marker_interval partition_accepted =
      if nat_beq max_markers 0
      then throws invalid_argument
      else if nat_beq marker_interval 0
      then throws invalid_argument
      else if not partition_accepted
      then throws invalid_argument
      else ok (record {
        max_markers = max_markers;
        marker_interval = marker_interval;
        samples_seen = 0;
        markers_published = 0;
        requests = [];
      })

  unfoldable pub set_marker : P → MarkerManager P → MarkerManager P
  set_marker pos m =
      let sample = m.samples_seen in
      let seen = (sample + 1) % 2 ^ 64 in
      let id = 1 + m.markers_published % m.max_markers in
      if not (nat_beq (sample % m.marker_interval) 0)
      then record m { samples_seen = seen }
      else record m {
        samples_seen = seen;
        markers_published = (m.markers_published + 1) % 2 ^ 64;
        requests = show core_marker id pos ∷ show halo_marker id pos ∷ m.requests;
      }

  unfoldable pub reset_markers : MarkerManager P → MarkerManager P
  reset_markers m = record m {
    samples_seen = 0;
    markers_published = 0;
    requests = delete_namespace halo_marker ∷ delete_namespace core_marker ∷ m.requests;
  }

  -- The positions of a trajectory, one after another.
  unfoldable pub set_markers : List P → MarkerManager P → MarkerManager P
  unfolding set_marker
  set_markers [] m = m
  set_markers (pos ∷ ps) m = set_markers ps (set_marker pos m)
