-- ===== src/Sim/Server/Writes.antt =====
-- What the steps of a reset of one model write to the simulation.
use gz_drl.Base.{
  ℕ, ◌≡◌, sym, ap, subst, ◌∙◌, true, Option, none, some, List, [], ◌∷◌, arith, Name, nat_eq,
  name_eq, ok,
}
use gz_drl.Base.Map.{contains}
use gz_drl.Sim.Defs.{
  world_pose_cmd, linear_velocity_cmd, angular_velocity_cmd, Value, at_pose, zero_vector, Call, Ecm,
  Helper,
}
use gz_drl.Sim.Resets.{reset_uav_commands, release_velocity_cmds}
use gz_drl.Sim.Resets.Holds.{standing, Stays, standing-Stays, found-Stays, reset_uav_commands-Stays}
use gz_drl.Sim.Update.{Outcome, go_on, reset_pos, run_steps, reset_all, release_all, pre_update}
use gz_drl.Sim.Update.Keeps.{Names, reset_uav_commands-some}
use gz_drl.Sim.Server.{run_n, reset_model_pos}

module _ {P : Type 0} where
  -- A system without requests.
  unfoldable pub at_rest : Helper P → Helper P
  at_rest h = record h {
    reset_queue = [];
    post_reset_queue = [];
    respawn_queue = [];
    post_respawn_queue = [];
  }

  -- The pose and the velocities that a model is held at.
  abbrev pub HeldAt : ℕ → P → Option (Value P) → List (Call P) → Type 0
  HeldAt entity pose velocity calls =
      (standing entity world_pose_cmd calls ≡ some (at_pose pose))
      × (standing entity linear_velocity_cmd calls ≡ velocity)
      × (standing entity angular_velocity_cmd calls ≡ velocity)

module _ {P : Type 0} (ecm : Ecm P) (N : Names ecm) where
  one_reset :
      (name : Name) (pose : P) (entity : ℕ) (h : Helper P)
      → ecm.entity_by_name h.calls name ≡ some entity
      → contains name h.model_sdf_objs ≡ true
      → (calls : List (Call P)) × (reset_all ecm ((name, pose) ∷ []) h.model_sdf_objs h.calls
          ≡ some calls)
        × (ecm.entity_by_name calls name ≡ some entity)
        × HeldAt entity pose (some zero_vector) calls
  unfolding reset_all
  one_reset name pose entity h found known =
      let (calls, e) =
        reset_uav_commands-some ecm N name entity pose h.model_sdf_objs h.calls found known in
      let written = λ (o : Option (List (Call P))). elim o as (λ x. Option (List (Call P))) [
        | none ↦ none
        | some made ↦ some made
      ] in
      let stays = λ (Q : List (Call P) → Type 0) (S : Stays Q).
        reset_uav_commands-Stays ecm Q S entity pose h.model_sdf_objs h.calls calls e in
      (
        calls,
        ap
              (λ o. elim o as (λ x. Option (List (Call P))) [
                | none ↦ some h.calls
                | some k ↦ written (reset_uav_commands ecm k pose h.model_sdf_objs h.calls)
              ])
              found
            ∙ ap written e,
        stays _ (found-Stays ecm N name (some entity)) (
            N.set_found _ name entity _ _
            ∙ N.set_found _ name entity _ _
            ∙ N.set_found _ name entity _ _
            ∙ found),
        (
          stays _ (standing-Stays entity world_pose_cmd _ (omega arith)) (ground arith),
          stays _ (standing-Stays entity linear_velocity_cmd _ (omega arith)) (ground arith),
          stays _ (standing-Stays entity angular_velocity_cmd _ (omega arith)) (ground arith),
        ),
      )

  one_release :
      (name : Name) (pose : P) (entity : ℕ) (calls : List (Call P))
      → ecm.entity_by_name calls name ≡ some entity
      → HeldAt entity pose (some zero_vector) calls
      → HeldAt entity pose none (release_all ecm ((name, pose) ∷ []) calls)
  unfolding release_all release_velocity_cmds
  one_release name pose entity calls found (placed, still, steady) =
      let step : release_all ecm ((name, pose) ∷ []) calls
          ≡ release_velocity_cmds ecm entity calls =
        ap
          (λ o. elim o as (λ x. List (Call P)) [
            | none ↦ calls
            | some e ↦ release_velocity_cmds ecm e calls
          ])
          found in
      subst (HeldAt entity pose none) (sym step)
        (ground (arith, placed), ground arith, ground arith)

  -- `reset_pos` of a model that the simulation knows and that has a description, by a system without
  -- requests: after the first step the commands hold the model at the pose with no velocity, after
  -- the second its velocities are released and the pose stands, and the third, the last, writes
  -- nothing. It returns, no request is left, and only the calls of the simulation are new. The
  -- entity that is found by a name has it, and writing or removing a component changes no name.
  pub reset_model_pos_lem :
      (name : Name) (pose : P) (entity : ℕ) (h : Helper P)
      → ecm.entity_by_name h.calls name ≡ some entity
      → contains name h.model_sdf_objs ≡ true
      → (held released : List (Call P)) × (run_steps ecm 1 (reset_pos name pose (at_rest h))
          ≡ some (ok tt, record (at_rest h) { post_reset_queue = (name, pose) ∷ []; calls = held }))
        × HeldAt entity pose (some zero_vector) held
        × (run_steps ecm 2 (reset_pos name pose (at_rest h))
            ≡ some (ok tt, record (at_rest h) { calls = released }))
        × HeldAt entity pose none released
        × (reset_model_pos ecm name pose (at_rest h)
            ≡ some (ok tt, record (at_rest h) { calls = released }))
  unfolding reset_model_pos run_n run_steps pre_update reset_pos at_rest
  reset_model_pos_lem name pose entity h found known =
      let (calls, e, found', held) = one_reset name pose entity h found known in
      let after = λ (o : Option (List (Call P))). elim o as (λ x. Option (Outcome (Helper P))) [
        | none ↦ none
        | some made ↦ some (
          ok tt,
          record h {
            reset_queue = [];
            post_reset_queue = (name, pose) ∷ [];
            respawn_queue = [];
            post_respawn_queue = [];
            calls = made;
          },
        )
      ] in
      (
        calls,
        release_all ecm ((name, pose) ∷ []) calls,
        ap (λ o. go_on (after o) (λ k. some (ok tt, k))) e,
        held,
        ap (λ o. go_on (after o) (λ k. run_steps ecm 1 k)) e,
        one_release name pose entity calls found' held,
        ap (λ o. go_on (after o) (λ k. run_steps ecm 2 k)) e,
      )
