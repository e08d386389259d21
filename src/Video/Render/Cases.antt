-- ===== src/Video/Render/Cases.antt =====
-- What a command does to the recordings: nothing, one more, or one less.
use gz_drl.Base.{◌≡◌, ◌⊎◌, inl, inr, arith, Name, name_eq}
use gz_drl.Base.Map.{Map, insert, erase}
use gz_drl.Video.Defs.{
  Types, CameraConfig, Command, k_start, k_update_pose, k_stop, Rendering, Recording, Manager,
}
use gz_drl.Video.Render.{new_recording, do_start, do_stop, do_command}

-- The recordings after a command for the name.
abbrev pub Changed : {T : Types} → Name → Map Name (Recording T) → Map Name (Recording T) → Type 0
Changed {T} name old new =
    (new ≡ old)
    ⊎ ((output : Name) × (config : CameraConfig T) × (new
          ≡ insert name (new_recording output config) old))
    ⊎ (new ≡ erase name old)

module _ {T : Types} (R : Rendering T) (m : Manager T) where
  do_start_cases :
      (name : Name) (pose : T.Pose) (output : Name) (config : CameraConfig T)
      → let new = (do_start R name pose output config m).recordings in
        (new ≡ m.recordings) ⊎ (new ≡ insert name (new_recording output config) m.recordings)
  unfolding do_start
  do_start_cases name pose output config = ground arith

  do_stop_cases :
      (name : Name)
      → let new = (do_stop R name m).recordings in
        (new ≡ m.recordings) ⊎ (new ≡ erase name m.recordings)
  unfolding do_stop
  do_stop_cases name = ground arith

  pub do_command_cases :
      (c : Command T) → (name : Name) × Changed name m.recordings (do_command R c m).recordings
  unfolding do_command
  do_command_cases (k_start name pose output config) = (
    name,
    elim (do_start_cases name pose output config) [
      | inl e ↦ inl e
      | inr e ↦ inr (inl (output, config, e))
    ],
  )
  do_command_cases (k_update_pose name pose) = (name, inl (ground arith))
  do_command_cases (k_stop name) =
      (name, elim (do_stop_cases name) [ inl e ↦ inl e | inr e ↦ inr (inr e) ])
