-- ===== src/Sim/Setters.antt =====
-- `set_ctbr_cmd`, with and without gains, and `set_ctbt_cmd` of GzDRL/src/rl_server.cc, up to the
-- wrench and the angular velocity that they send on.
use gz_drl.Base.{
  ℕ, ◌+◌, ◌≡◌, refl, ap, ◌∙◌, Bool, true, Option, none, some, List, [], ◌∷◌, if◌then◌else◌, leb,
  length, Name, nat_eq, name_eq, both_eq, out_of_range, Result, ok, throws,
}
use gz_drl.Base.Map.{Map, find, IsUnique}
use gz_drl.Sim.Views.{Reals, View, vector, states_of}
use gz_drl.Sim.Limits.{Filtering, Limiters, limit}
use gz_drl.Sim.Controls.{Control, Controls, Derivative, control_at, update_control_states}
use gz_drl.Sim.Controls.Current.{has_name, entry, control_at-update_control_states}

-- The arithmetic of the states, of the limiters and of the commands.
pub record Flight : Type 1 where
  pub reals : Reals
  pub gt : reals.Real → reals.Real → Bool
  pub decay : reals.Real → reals.Real → reals.Real
  pub blend : reals.Real → reals.Real → reals.Real → reals.Real
  pub of_two_lengths : List reals.Real → List reals.Real → List reals.Real
  pub minus : reals.Real → reals.Real → reals.Real
  pub times : reals.Real → reals.Real → reals.Real
  -- A vector turned by the quaternion of a state.
  pub rotate : (ℕ → reals.Real) → (ℕ → reals.Real) → ℕ → reals.Real

abbrev pub filtering : Flight → Filtering
filtering F = record {
  Real = F.reals.Real;
  gt = F.gt;
  decay = F.decay;
  blend = F.blend;
  of_two_lengths = F.of_two_lengths;
}

-- The command: a thrust with rates or torques of the body.
pub data Setter (F : Flight) : Type 0 where
  body_rates body_torques : Setter F
  -- With the gains `kp` and `kd`.
  body_rates_by : (ℕ → F.reals.Real) → (ℕ → F.reals.Real) → Setter F

-- The calls of `set_wrench`, of a force and moments, and of `set_angular_velocity_cmd`.
pub data Sent (F : Flight) : Type 0 where
  wrench : (ℕ → F.reals.Real) → (ℕ → F.reals.Real) → Sent F
  angular_velocity_of : (ℕ → F.reals.Real) → Sent F

module _ (F : Flight) where
  abbrev pub body_part : (ℕ → F.reals.Real) → ℕ → F.reals.Real
  body_part cmd i = cmd (1 + i)

  -- The calls for a limited command, in order.
  unfoldable pub sent_by : Setter F → Control F.reals → (ℕ → F.reals.Real) → List (Sent F)
  sent_by setter c cmd =
      let quat = vector F.reals.nought (c.state 6 ∷ c.state 7 ∷ c.state 8 ∷ c.state 9 ∷ []) in
      let up = vector F.reals.nought (F.reals.nought ∷ F.reals.nought ∷ cmd 0 ∷ []) in
      let force = F.rotate quat up in
      let none_of = λ (i : ℕ). F.reals.nought in
      elim setter [
        | body_rates ↦ wrench force none_of ∷ angular_velocity_of (body_part cmd) ∷ []
        | body_torques ↦ wrench force (F.rotate quat (body_part cmd)) ∷ []
        | body_rates_by kp kd ↦
            wrench force (
              F.rotate quat (λ i.
                F.minus (F.times (F.minus (body_part cmd i) (c.state (10 + i))) (kp i))
                  (F.times (kd i) (c.state_dot (10 + i)))))
            ∷ []
      ]

  -- Behind the lookup of the control state by `at`. What is sent is `none` where the command has
  -- fewer than four entries: the source reads past its end.
  unfoldable pub send_with :
      Setter F
      → Option (Control F.reals)
      → F.reals.Real
      → Name
      → Name
      → List F.reals.Real
      → Limiters (filtering F)
      → Option (Result (List (Sent F))) × Limiters (filtering F)
  unfolding limit sent_by
  send_with setter none dt model_name link_name cmd limiters =
      (some (throws out_of_range), limiters)
  send_with setter (some c) dt model_name link_name cmd limiters =
      let (cmd', limiters') = limit dt model_name link_name cmd limiters in
      let sent = ok (sent_by setter c (vector F.reals.nought cmd')) in
      (if leb 4 (length cmd') then some sent else none, limiters')

  -- `limiters` are those of the command, `dt` the size of a step.
  unfoldable pub set_body_cmd :
      {C : Type 0}
      → Derivative F.reals
      → Setter F
      → List Name
      → Map Name (View F.reals C)
      → F.reals.Real
      → Name
      → Name
      → List F.reals.Real
      → Controls F.reals × Limiters (filtering F)
      → Option (Result (List (Sent F))) × Controls F.reals × Limiters (filtering F)
  unfolding send_with update_control_states control_at
  set_body_cmd d setter names views dt model_name link_name cmd (controls, limiters) =
      let controls' = update_control_states d names views controls in
      let (sent, limiters') =
        send_with setter (control_at model_name link_name controls') dt model_name link_name cmd
          limiters in
      (sent, controls', limiters')

  -- What a command comes to, by the control state of its link.
  abbrev pub promised :
      Setter F
      → F.reals.Real
      → Name
      → Name
      → List F.reals.Real
      → Limiters (filtering F)
      → Option (Control F.reals)
      → Option (Result (List (Sent F))) × Limiters (filtering F)
  promised setter dt n k cmd limiters none = (some (throws out_of_range), limiters)
  promised setter dt n k cmd limiters (some c) = (
    if leb 4 (length (limit dt n k cmd limiters).0)
        then some (ok (sent_by setter c (vector F.reals.nought (limit dt n k cmd limiters).0)))
        else none,
    (limit dt n k cmd limiters).1,
  )

  send_with-promised :
      (setter : Setter F) (o : Option (Control F.reals)) (dt : F.reals.Real) (n k : Name)
      (cmd : List F.reals.Real) (limiters : Limiters (filtering F))
      → send_with setter o dt n k cmd limiters ≡ promised setter dt n k cmd limiters o
  unfolding send_with
  send_with-promised setter none dt n k cmd limiters = refl
  send_with-promised setter (some c) dt n k cmd limiters = refl

  -- A command of thrust with body rates or torques to a link of a model that the server looks after
  -- is computed from the state that the model's view has for the link, or from the one kept where the
  -- view has none, and from the command as the limiter passes it on; where there is no state at all
  -- it throws out_of_range, and the limiters stay; a command that the limiter passes on with fewer than
  -- four entries is undefined. The states of a view are a map: a link has one.
  pub set_body_cmd-entry :
      {C : Type 0} (d : Derivative F.reals) (setter : Setter F) (names : List Name)
      (views : Map Name (View F.reals C)) (dt : F.reals.Real) (n k : Name) (cmd : List F.reals.Real)
      (controls : Controls F.reals) (limiters : Limiters (filtering F))
      → has_name n names ≡ true
      → ((m : Name) → IsUnique (states_of (find m views)))
      → ((set_body_cmd d setter names views dt n k cmd (controls, limiters)).0
          ≡ (promised setter dt n k cmd limiters
              (entry d (find k (states_of (find n views))) (control_at n k controls))).0)
        × ((set_body_cmd d setter names views dt n k cmd (controls, limiters)).2
            ≡ (promised setter dt n k cmd limiters
                (entry d (find k (states_of (find n views))) (control_at n k controls))).1)
  unfolding set_body_cmd
  set_body_cmd-entry d setter names views dt n k cmd controls limiters served unique =
      let old = control_at n k controls in
      let fresh : control_at n k (update_control_states d names views controls)
          ≡ entry d (find k (states_of (find n views))) old =
        control_at-update_control_states d names views controls n k unique
        ∙ ap (λ b. if b then entry d (find k (states_of (find n views))) old else old) served in
      let same =
        ap (λ o. send_with setter o dt n k cmd limiters) fresh
        ∙ send_with-promised setter (entry d (find k (states_of (find n views))) old) dt n k cmd
            limiters in
      (ap (λ r. r.0) same, ap (λ r. r.1) same)
