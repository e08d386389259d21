-- ===== src/Sim/Commands/Rotors.antt =====
-- The thrust and the torque of rotors: `DRLHelperSystem::set_srt_cmd` of GzDRL/src/rl_server.cc.
use gz_drl.Base.{
  ℕ, ◌≡◌, refl, ap, inl, inr, Bool, true, false, Option, none, some, List, [], ◌∷◌, ◌++◌, map,
  arith, nat_beq, if◌then◌else◌, Option-cases, length, Name, nat_eq, name_eq, both_eq, Result, ok,
  throws,
}
use mathlib.Core.List.{reverse, reverse_aux, reverse_aux-eq}
use gz_drl.Base.Map.{Map, find}
use gz_drl.Sim.Defs.{Helper}
use gz_drl.Sim.Commands.{Mechanics, Target, CommandCall, add_world_wrench, find_link}

abbrev pub row_or_none : Option (Map Name ℕ) → Map Name ℕ
row_or_none none = []
row_or_none (some row) = row

module _ {M : Mechanics} (t : Target M) (ktau : M.Real) where
  -- The loop over `link_names`, with the rest of `turning_dir` and of `cmd`: the moments, `none` where
  -- it returns early, and the calls. There is no result where it reads past the end of either.
  unfoldable pub rotor_loop :
      List Name
      → List M.Direction
      → List M.Real
      → Map Name ℕ
      → M.Vector
      → List (CommandCall M)
      → Option (Option M.Vector × List (CommandCall M))
  rotor_loop [] dirs cmd row moments calls = some (some moments, calls)
  rotor_loop (link_name ∷ names) dirs cmd row moments calls = elim (find link_name row) [
    | none ↦ some (none, calls)
    | some link ↦ elim (t.world_pose_of calls link) [
      | none ↦ some (none, calls)
      | some pose ↦ elim dirs [
        | [] ↦ none
        | d ∷ dirs' ↦ elim cmd [
          | [] ↦ none
          | c ∷ cmd' ↦
              rotor_loop names dirs' cmd' row
                (M.add moments (M.rotate pose (M.along_z (M.spin d ktau c))))
                (add_world_wrench link (M.rotate pose (M.along_z c)) M.zero_vec ∷ calls)
        ]
      ]
    ]
  ]

  -- The wrench of the base link, behind a loop that has not returned.
  abbrev pub base_wrench :
      ℕ → Option (Option M.Vector × List (CommandCall M)) → Option (List (CommandCall M))
  base_wrench base none = none
  base_wrench base (some (none, calls)) = some calls
  base_wrench base (some (some moments, calls)) =
      some (add_world_wrench base M.zero_vec moments ∷ calls)

  abbrev pub srt_on :
      Result (Option ℕ)
      → (ℕ → Option (List (CommandCall M)))
      → List (CommandCall M)
      → Result (Option (List (CommandCall M)))
  srt_on (throws e) rotors calls = throws e
  srt_on (ok none) rotors calls = ok (some calls)
  srt_on (ok (some base)) rotors calls = ok (rotors base)

  unfoldable pub set_srt_cmd :
      {P : Type 0}
      → Bool
      → Name
      → Name
      → List Name
      → List M.Direction
      → List M.Real
      → Helper P
      → List (CommandCall M)
      → Result (Option (List (CommandCall M)))
  unfolding find_link rotor_loop
  set_srt_cmd configured model_name base_link link_names turning_dir cmd h calls =
      srt_on (find_link configured model_name base_link h)
        (λ base. base_wrench base (
          rotor_loop link_names turning_dir cmd (row_or_none (find model_name h.cached_links))
            M.zero_vec calls))
        calls

-- A rotor that is in the cache and has a pose: its link, its pose, its direction, its command.
abbrev pub Placed : Mechanics → Type 0
Placed M = ℕ × M.Pose × M.Direction × M.Real

module _ (M : Mechanics) (pose_of : ℕ → Option M.Pose) where
  -- The pose of a link in the cache.
  abbrev pub site_of : Map Name ℕ → Name → Option (ℕ × M.Pose)
  site_of row name = elim (find name row) [
    | none ↦ none
    | some link ↦ elim (pose_of link) [ none ↦ none | some pose ↦ some (link, pose) ]
  ]

  -- The rotors before the first whose link is not in the cache, or has no pose.
  unfoldable pub leading : Map Name ℕ → List (Name × M.Direction × M.Real) → List (Placed M)
  leading row [] = []
  leading row ((name, d, c) ∷ rotors) = elim (site_of row name) [
    | none ↦ []
    | some (link, pose) ↦ (link, pose, d, c) ∷ leading row rotors
  ]

module _ (M : Mechanics) where
  abbrev pub thrust : Placed M → CommandCall M
  thrust (link, pose, d, c) = add_world_wrench link (M.rotate pose (M.along_z c)) M.zero_vec

  -- The sum of the rotors' torques, behind `moments`.
  abbrev pub torque_sum : M.Real → M.Vector → List (Placed M) → M.Vector
  torque_sum ktau moments [] = moments
  torque_sum ktau moments ((link, pose, d, c) ∷ ps) =
      torque_sum ktau (M.add moments (M.rotate pose (M.along_z (M.spin d ktau c)))) ps

-- The poses that the simulation answers in a step, which wrenches do not move.
abbrev pub Stable : (M : Mechanics) → Target M → (ℕ → Option M.Pose) → Type 0
Stable M t pose_of = (calls : List (CommandCall M)) (e : ℕ) → t.world_pose_of calls e ≡ pose_of e

module _ {M : Mechanics} (t : Target M) (ktau : M.Real) (pose_of : ℕ → Option M.Pose) where
  abbrev loop_end :
      List (Placed M) → ℕ → M.Vector → List (CommandCall M) → Option M.Vector × List (CommandCall M)
  loop_end ps n moments calls = (
    if nat_beq (length ps) n then some (torque_sum M ktau moments ps) else none,
    reverse_aux (map (thrust M) ps) calls,
  )

  rotor_loop-eq :
      (row : Map Name ℕ) (rotors : List (Name × M.Direction × M.Real))
      (more_dirs : List M.Direction) (more_cmd : List M.Real) (moments : M.Vector)
      (calls : List (CommandCall M))
      → Stable M t pose_of
      → rotor_loop t ktau
          (map (λ r. r.0) rotors)
          (map (λ r. r.1) rotors ++ more_dirs)
          (map (λ r. r.2) rotors ++ more_cmd)
          row
          moments
          calls
        ≡ some (loop_end (leading M pose_of row rotors) (length rotors) moments calls)
  unfolding rotor_loop leading
  rotor_loop-eq row [] ds cs moments calls stable = refl
  rotor_loop-eq row ((name, d, c) ∷ rotors) ds cs moments calls stable =
      let later = λ (link : ℕ) (pose : M.Pose).
        rotor_loop-eq row rotors ds cs (M.add moments (M.rotate pose (M.along_z (M.spin d ktau c))))
          (add_world_wrench link (M.rotate pose (M.along_z c)) M.zero_vec ∷ calls) stable in
      elim (Option-cases (find name row)) [
        | inl e ↦ rw (rotor_loop, leading, e) (ground arith)
        | inr (link, e) ↦ elim (Option-cases (pose_of link)) [
          | inl e' ↦ rw (rotor_loop, leading, e, stable calls link, e') (ground arith)
          | inr (pose, e') ↦
              rw (rotor_loop, leading, e, stable calls link, e', later link pose) (ground arith)
        ]
      ]

  end_calls :
      (base : ℕ) (ps : List (Placed M)) (n : ℕ) (calls : List (CommandCall M))
      → base_wrench t ktau base (some (loop_end ps n M.zero_vec calls))
        ≡ some (
            (if nat_beq (length ps) n
              then add_world_wrench base M.zero_vec (torque_sum M ktau M.zero_vec ps) ∷ []
              else [])
            ++ reverse (map (thrust M) ps)
            ++ calls)
  end_calls base ps n calls = go (nat_beq (length ps) n)
    where
      go :
          (b : Bool)
          → base_wrench t ktau base (
              some (
                if b then some (torque_sum M ktau M.zero_vec ps) else none,
                reverse_aux (map (thrust M) ps) calls,
              ))
            ≡ some (
                (if b
                  then add_world_wrench base M.zero_vec (torque_sum M ktau M.zero_vec ps) ∷ []
                  else [])
                ++ reverse (map (thrust M) ps)
                ++ calls)
      go true = rw (reverse_aux-eq (map (thrust M) ps) calls) refl
      go false = rw (reverse_aux-eq (map (thrust M) ps) calls) refl

  -- Where the base link is known, and there are a direction and a command for each rotor, the rotors
  -- before the first that is not in the cache or has no pose get their thrusts, in order. The base
  -- link gets the sum of their torques where these are all the rotors, and nothing otherwise: the
  -- thrusts that were added stay without their torque.
  pub set_srt_cmd-leading :
      {P : Type 0} (h : Helper P) (configured : Bool) (model_name base_link : Name) (base : ℕ)
      (rotors : List (Name × M.Direction × M.Real)) (more_dirs : List M.Direction)
      (more_cmd : List M.Real) (calls : List (CommandCall M))
      → Stable M t pose_of
      → find_link configured model_name base_link h ≡ ok (some base)
      → (let row = row_or_none (find model_name h.cached_links) in
          let ps = leading M pose_of row rotors in
          set_srt_cmd t ktau configured model_name base_link
            (map (λ r. r.0) rotors)
            (map (λ r. r.1) rotors ++ more_dirs)
            (map (λ r. r.2) rotors ++ more_cmd)
            h
            calls
          ≡ ok (
              some (
                (if nat_beq (length ps) (length rotors)
                  then add_world_wrench base M.zero_vec (torque_sum M ktau M.zero_vec ps) ∷ []
                  else [])
                ++ reverse (map (thrust M) ps)
                ++ calls)))
  unfolding set_srt_cmd
  set_srt_cmd-leading h configured model_name base_link base rotors ds cs calls stable known =
      let row = row_or_none (find model_name h.cached_links) in
      rw (known, rotor_loop-eq row rotors ds cs M.zero_vec calls stable)
        (ap ok (end_calls base (leading M pose_of row rotors) (length rotors) calls))
