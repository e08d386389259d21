-- ===== src/Envs/Hover.antt =====
-- The actions that `HoverProcessor` of envs/processors/hover_processor.hh remembers, and where it
-- puts them into an observation.
pub mod Memory
use gz_drl.Base.{
  ℕ, zero, suc, ◌*◌, List, [], ◌∷◌, map, ltb, if◌then◌else◌, length, nat_eq, name_eq, both_eq,
}

-- The numbers of the processor: what it makes of a policy's action, in [0, 2300], and of that in
-- the history, and of the wanted and of the measured state the entries of an observation.
pub record Processing : Type 1 where
  pub Float : Type 0
  -- `isnan(a) ? 0 : a`, plus 1, times 1150; and `v / 1300 - 1`.
  pub rotor_velocity : Float → Float
  pub shown : Float → Float
  pub reset_value : Float
  pub minus : Float → Float → Float
  -- `desired_hover_pos_(3)` less the yaw of the normalized quaternion.
  pub yaw_error : (ℕ → Float) → (ℕ → Float) → Float

module _ {ℓ} {A : Type ℓ} where
  unfoldable pub pop_back : List A → List A
  pop_back [] = []
  pop_back (x ∷ []) = []
  pop_back (x ∷ y ∷ xs) = x ∷ pop_back (y ∷ xs)

  unfoldable pub fill : ℕ → A → List A
  fill zero x = []
  fill (suc n) x = x ∷ fill n x

  -- One round of the loop of `PushAction`; `n` is `action_history_size_ * act_dim_`.
  unfoldable pub push_front : ℕ → A → List A → List A
  unfolding pop_back
  push_front n x history =
      if ltb n (length (x ∷ history)) then pop_back (x ∷ history) else x ∷ history

  -- The loop goes from the last entry to the first.
  unfoldable pub push_action : ℕ → List A → List A → List A
  unfolding push_front
  push_action n [] history = history
  push_action n (x ∷ xs) history = push_front n x (push_action n xs history)

pub record Hover (P : Processing) : Type 0 where
  pub action_history_size : ℕ
  pub act_dim : ℕ
  pub action_history : List P.Float
  pub desired_hover_pos : ℕ → P.Float

module _ {P : Processing} where
  unfoldable pub reset : (ℕ → P.Float) → Hover P → Hover P
  unfolding fill
  reset hover_pos h = record h {
    action_history = fill (h.action_history_size * h.act_dim) P.reset_value;
    desired_hover_pos = hover_pos;
  }

  -- `policy_action` has `act_dim_` entries.
  unfoldable pub process_action : List P.Float → Hover P → List P.Float × Hover P
  unfolding push_action
  process_action policy_action h =
      let processed = map P.rotor_velocity policy_action in
      (
        processed,
        record h {
          action_history =
              push_action (h.action_history_size * h.act_dim) (map P.shown processed)
                h.action_history;
        },
      )

  -- `processed_obs` from its first entry.
  unfoldable pub process_observation : (ℕ → P.Float) → Hover P → List P.Float
  process_observation uav_state h =
      P.minus (h.desired_hover_pos 0) (uav_state 0)
      ∷ P.minus (h.desired_hover_pos 1) (uav_state 1)
      ∷ P.minus (h.desired_hover_pos 2) (uav_state 2)
      ∷ P.yaw_error h.desired_hover_pos uav_state
      ∷ uav_state 3
      ∷ uav_state 4
      ∷ uav_state 5
      ∷ uav_state 6
      ∷ uav_state 7
      ∷ uav_state 8
      ∷ uav_state 9
      ∷ uav_state 10
      ∷ uav_state 11
      ∷ uav_state 12
      ∷ h.action_history

  -- The calls of `ProcessAction` of an episode.
  unfoldable pub process_actions : List (List P.Float) → Hover P → Hover P
  unfolding process_action
  process_actions [] h = h
  process_actions (a ∷ later) h = process_actions later (process_action a h).1

module _ {A : Type 0} where
  -- The history behind one action after another.
  unfoldable pub push_actions : ℕ → List (List A) → List A → List A
  unfolding push_action
  push_actions n [] history = history
  push_actions n (ys ∷ later) history = push_actions n later (push_action n ys history)
