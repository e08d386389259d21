-- ===== src/Sim/Tracking/Latest.antt =====
-- A controller acts on what the simulation measured last, not on what the server kept.
use gz_drl.Base.{
  ℕ, zero, suc, ◌≡◌, refl, ap, ◌∙◌, true, Option, none, some, List, Name, nat_eq, name_eq, both_eq,
  out_of_range, Result, ok, throws,
}
use gz_drl.Base.Map.{Map, find, IsUnique}
use gz_drl.Sim.Views.{Reals, GzState, states_of}
use gz_drl.Sim.Markers.{MarkerManager}
use gz_drl.Sim.Controls.{Traces, mark, Control, Derivative, control_at, control_of}
use gz_drl.Sim.Controls.Current.{has_name, control_at-update_control_states}
use gz_drl.Sim.Tracking.{
  done, Plant, Tracked, current, refresh, track, track_from, then_mark, control_with_rotor_velocity,
  control_with_wrench, UavController, Wrench, wrench_of,
}

module _ {R : Reals} {C K : Type 0} (d : Derivative R) (P : Plant R C K) where
  -- The loop as it is meant: in each round, the command for what is measured now, and a step.
  abbrev pub closed_loop :
      Name
      → Name
      → (P.Memory → Control R → K × P.Memory)
      → (P.Sim → GzState R)
      → ℕ
      → P.Sim × P.Memory
      → Result (Unit {0}) × P.Sim × P.Memory
  closed_loop n k command measure zero (w, m) = (ok tt, w, m)
  closed_loop n k command measure (suc i) (w, m) =
      let commanded = command m (control_of d (measure w)) in
      let acted = P.act n k commanded.0 w in
      let rest = closed_loop n k command measure i (acted.1, commanded.1) in
      elim acted.0 [ throws e ↦ (throws e, acted.1, commanded.1) | ok _ ↦ rest ]

  -- What a loop did, less the states and traces that the server keeps.
  abbrev pub effect :
      Result (Unit {0}) × Tracked R P.Sim P.Memory → Result (Unit {0}) × P.Sim × P.Memory
  effect (r, s) = (r, s.sim, s.memory)

module _ {R : Reals} {C K : Type 0} (d : Derivative R) (P : Plant R C K) (names : List Name)
    (n k : Name) (measure : P.Sim → GzState R) (served : has_name n names ≡ true)
    (unique : (w : P.Sim) (m : Name) → IsUnique (states_of (find m (P.views w))))
    (measured : (w : P.Sim) → find k (states_of (find n (P.views w))) ≡ some (measure w)) where
  refreshed :
      (s : Tracked R P.Sim P.Memory)
      → control_at n k (refresh d P names s).controls ≡ some (control_of d (measure s.sim))
  unfolding refresh
  refreshed s =
      control_at-update_control_states d names (P.views s.sim) s.controls n k (unique s.sim)
      ∙ rw (served, measured s.sim)

  effect-elim :
      (r : Result (Unit {0})) (s : Tracked R P.Sim P.Memory)
      (rest : Result (Unit {0}) × Tracked R P.Sim P.Memory)
      (rest' : Result (Unit {0}) × P.Sim × P.Memory)
      → effect d P rest ≡ rest'
      → effect d P (elim r [ throws e ↦ (throws e, s) | ok _ ↦ rest ])
        ≡ (elim r [ throws e ↦ (throws e, s.sim, s.memory) | ok _ ↦ rest' ])
  effect-elim (throws e) s rest rest' same = refl
  effect-elim (ok _) s rest rest' same = same

  track-closed_loop :
      (command : P.Memory → Control R → K × P.Memory) (i : ℕ) (c : Control R)
      (s : Tracked R P.Sim P.Memory)
      → effect d P (track d P names n k command i c s)
        ≡ closed_loop d P n k command measure i (s.sim, s.memory)
  unfolding track refresh
  track-closed_loop command zero c s = refl
  track-closed_loop command (suc i) c s =
      let s' = refresh d P names s in
      let acted = λ (c' : Control R). P.act n k (command s.memory c').0 s.sim in
      let s'' =
        λ (c' : Control R). record s' { sim = (acted c').1; memory = (command s.memory c').1 } in
      let round : Control R → Result (Unit {0}) × Tracked R P.Sim P.Memory = λ (c' : Control R).
        elim (acted c').0 [
          | throws e ↦ (throws e, s'' c')
          | ok _ ↦ track d P names n k command i c' (s'' c')
        ] in
      let now = control_of d (measure s.sim) in
      ap (λ o. effect d P (round (current c o))) (refreshed s)
      ∙ effect-elim (acted now).0 (s'' now) (track d P names n k command i now (s'' now))
          (closed_loop d P n k command measure i ((acted now).1, (command s.memory now).1))
          (track-closed_loop command i now (s'' now))

  There : Tracked R P.Sim P.Memory → Type 0
  There s = (c : Control R) × (control_at n k s.controls ≡ some c)

  elim-There :
      (r : Result (Unit {0})) (s : Tracked R P.Sim P.Memory)
      (rest : Result (Unit {0}) × Tracked R P.Sim P.Memory)
      → There s
      → There rest.1
      → There (
          (elim r as (λ _. Result (Unit {0}) × Tracked R P.Sim P.Memory) [
            | throws e ↦ (throws e, s)
            | ok _ ↦ rest
          ]).1)
  elim-There (throws e) s rest here later = here
  elim-There (ok _) s rest here later = later

  track-There :
      (command : P.Memory → Control R → K × P.Memory) (i : ℕ) (c : Control R)
      (s : Tracked R P.Sim P.Memory)
      → There s
      → There (track d P names n k command i c s).1
  unfolding track There
  track-There command zero c s there = there
  track-There command (suc i) c s there =
      let s' = refresh d P names s in
      let c' = current c (control_at n k s'.controls) in
      let commanded = command s'.memory c' in
      let acted = P.act n k commanded.0 s'.sim in
      let s'' = record s' { sim = acted.1; memory = commanded.1 } in
      let here : There s'' = (control_of d (measure s.sim), refreshed s) in
      elim-There acted.0 s'' (track d P names n k command i c' s'') here
        (track-There command i c' s'' here)

  done-mark :
      (o : Option (MarkerManager (List R.Real))) (c : Control R) (traces : Traces (List R.Real))
      → done (mark o (some c) (n, k) traces).0 ≡ ok tt
  unfolding mark
  done-mark none c traces = refl
  done-mark (some m) c traces = refl

  effect-then_mark :
      (o : Result (Unit {0}) × Tracked R P.Sim P.Memory)
      → There o.1
      → effect d P (then_mark d P names n k o) ≡ effect d P o
  unfolding then_mark There
  effect-then_mark (throws e, s) there = refl
  effect-then_mark (ok _, s) (c, e) =
      ap (λ x. (done (mark (find (n, k) s.traces) x (n, k) s.traces).0, s.sim, s.memory)) e
      ∙ ap (λ r. (r, s.sim, s.memory)) (done-mark (find (n, k) s.traces) c s.traces)

  track_from-closed_loop :
      (command : P.Memory → Control R → K × P.Memory) (rounds : ℕ) (o : Option (Control R))
      (s : Tracked R P.Sim P.Memory)
      → control_at n k s.controls ≡ o
      → effect d P (track_from d P names n k command rounds o s) ≡ (elim o [
        | none ↦ (throws out_of_range, s.sim, s.memory)
        | some _ ↦ closed_loop d P n k command measure rounds (s.sim, s.memory)
      ])
  unfolding track_from There
  track_from-closed_loop command rounds none s e = refl
  track_from-closed_loop command rounds (some c) s e =
      effect-then_mark (track d P names n k command rounds c s)
        (track-There command rounds c s (c, e))
      ∙ track-closed_loop command rounds c s

  -- Where every view of the simulation has one state of the link, of a model that the server looks
  -- after, and the controller is known, `control_with_rotor_velocity` does what a loop does that in
  -- each round gives the controller the state measured behind the round before: whatever control
  -- states were kept, to the simulation and to what the controllers keep, up to the first exception.
  pub control_with_rotor_velocity-closed_loop :
      (controllers : Map (Name × Name) (P.Memory → Control R → K × P.Memory))
      (command : P.Memory → Control R → K × P.Memory) (rounds : ℕ) (s : Tracked R P.Sim P.Memory)
      → find (n, k) controllers ≡ some command
      → effect d P (control_with_rotor_velocity d P names controllers n k rounds s)
        ≡ closed_loop d P n k command measure rounds (s.sim, s.memory)
  unfolding control_with_rotor_velocity refresh
  control_with_rotor_velocity-closed_loop controllers command rounds s known =
      let s' = refresh d P names s in
      let found : Option (P.Memory → Control R → K × P.Memory)
          → Result (Unit {0}) × Tracked R P.Sim P.Memory =
        λ o. elim o [
          | none ↦ (throws out_of_range, s)
          | some c ↦ track_from d P names n k c rounds (control_at n k s'.controls) s'
        ] in
      let now = some (control_of d (measure s.sim)) in
      ap (λ o. effect d P (found o)) known
      ∙ ap (λ o. effect d P (track_from d P names n k command rounds o s')) (refreshed s)
      ∙ track_from-closed_loop command rounds now s' (refreshed s)

module _ {R : Reals} {C : Type 0} (d : Derivative R) (P : Plant R C (Wrench R)) (names : List Name)
    (n k : Name) (measure : P.Sim → GzState R) (served : has_name n names ≡ true)
    (unique : (w : P.Sim) (m : Name) → IsUnique (states_of (find m (P.views w))))
    (measured : (w : P.Sim) → find k (states_of (find n (P.views w))) ≡ some (measure w)) where
  -- Where every view of the simulation has one state of the link, of a model that the server looks
  -- after, the controller is known and the server keeps a control state of the link, whatever it is,
  -- `control_with_wrench` does what a loop does that in each round gives the controller the state
  -- measured behind the round before and sends the wrench of its force and moments, up to the first
  -- exception; where the server keeps none, it throws out_of_range, and neither the simulation nor
  -- what the controllers keep changes.
  pub control_with_wrench-closed_loop :
      (rotate : (ℕ → R.Real) → (ℕ → R.Real) → ℕ → R.Real)
      (controllers : Map (Name × Name) (UavController R P.Memory))
      (controller : UavController R P.Memory) (rounds : ℕ) (s : Tracked R P.Sim P.Memory)
      → find (n, k) controllers ≡ some controller
      → effect d P (control_with_wrench d P rotate names controllers n k rounds s)
        ≡ (elim (control_at n k s.controls) [
          | none ↦ (throws out_of_range, s.sim, s.memory)
          | some _ ↦
              closed_loop d P n k (wrench_of rotate controller) measure rounds (s.sim, s.memory)
        ])
  unfolding control_with_wrench
  control_with_wrench-closed_loop rotate controllers controller rounds s known =
      let found : Option (UavController R P.Memory) → Result (Unit {0}) × Tracked R P.Sim P.Memory =
        λ o. elim o [
          | none ↦ (throws out_of_range, s)
          | some c ↦
              track_from d P names n k (wrench_of rotate c) rounds (control_at n k s.controls) s
        ] in
      ap (λ o. effect d P (found o)) known
      ∙ track_from-closed_loop d P names n k measure served unique measured
          (wrench_of rotate controller) rounds (control_at n k s.controls) s refl
