-- ===== src/Sim/Views/Measures.antt =====
-- What a step of the simulation leaves in the states that clients read.
use gz_drl.Base.{
  ℕ, ◌≡◌, refl, sym, ap, ap₂, ◌∙◌, inl, inr, Bool, true, false, Option, none, some, List, [], ◌∷◌,
  arith, if◌then◌else◌, Bool-cases, All, Name, name_beq, name_beq_iff, nat_eq, name_eq,
}
use gz_drl.Base.Map.{Map, find, find-insert}
use gz_drl.Sim.Views.{
  Reals, GzState, Reading, View, World, measured, measure_slot, measure_slots, measure_models,
  post_update, states_of, state_info,
}
use gz_drl.Sim.Views.Slots.{IsView, PointsTo, has_slot}

module _ {R : Reals} {C : Type 0} (w : World R C) where
  -- What the state of a link becomes.
  abbrev pub next_state : GzState R → Option (Reading R) → Option (GzState R) → Option (GzState R)
  next_state noise none old = old
  next_state noise (some r) old = some (measured noise r)

  measure_slot-state :
      (noise : GzState R) (link : ℕ) (lname l : Name) (o : Option (Reading R)) (v : View R C)
      → find l (measure_slot w noise link lname o v).state_map
        ≡ (if name_beq lname l then next_state noise o (find l v.state_map) else find l v.state_map)
  unfolding measure_slot
  measure_slot-state noise link lname l none v = ground arith
  measure_slot-state noise link lname l (some r) v =
      find-insert lname l (measured noise r) v.state_map

  -- Writing twice what the same reading gives is writing once.
  twice :
      (noise : GzState R) (o : Option (Reading R)) (old : Option (GzState R))
      → next_state noise o (next_state noise o old) ≡ next_state noise o old
  twice noise none old = refl
  twice noise (some r) old = refl

  measure_slots-state :
      (noise : GzState R) (slots : List (ℕ × Name)) (links : Map Name ℕ) (v : View R C) (l : Name)
      (e : ℕ)
      → All (PointsTo links) slots
      → find l links ≡ some e
      → find l (measure_slots w noise slots v).state_map ≡ (
          if has_slot l slots
          then next_state noise (w.reading e) (find l v.state_map)
          else find l v.state_map)
  unfolding measure_slots has_slot
  measure_slots-state noise [] links v l e p h = refl
  measure_slots-state noise ((link, lname) ∷ slots) links v l e (p, ps) h =
      let v' = measure_slot w noise link lname (w.reading link) v in
      let later = measure_slots-state noise slots links v' l e ps h in
      let now = measure_slot-state noise link lname l (w.reading link) v in
      elim (Bool-cases (name_beq lname l)) [
        | inl here ↦
            let same : lname ≡ l = (name_beq_iff lname l).0 here in
            let alike : ◌≡◌ {A = Option ℕ} (some link) (some e) =
              sym p ∙ ap (λ n. find n links) same ∙ h in
            let link_is : link ≡ e = ground arith in
            let written : find l v'.state_map
                ≡ next_state noise (w.reading e) (find l v.state_map) =
              now ∙ rw (here, link_is) in
            rw here (later ∙ rw written (go (has_slot l slots)))
        | inr there ↦
            let left : find l v'.state_map ≡ find l v.state_map = now ∙ rw there in
            rw there (later ∙ rw left)
      ]
    where
      go :
          (b : Bool)
          → (if b
              then next_state noise
                  (w.reading e)
                  (next_state noise (w.reading e) (find l v.state_map))
              else next_state noise (w.reading e) (find l v.state_map))
            ≡ next_state noise (w.reading e) (find l v.state_map)
      go true = twice noise (w.reading e) (find l v.state_map)
      go false = refl

  measure_models-find :
      (noise : Name → GzState R) (views : Map Name (View R C)) (m : Name) (v : View R C)
      → find m views ≡ some v
      → find m (measure_models w noise views) ≡ some (measure_slots w (noise m) v.slots v)
  unfolding find measure_models
  measure_models-find noise [] m v h = ground arith
  measure_models-find noise ((name, u) ∷ views) m v h = elim (Bool-cases (name_beq name m)) [
    | inl here ↦
        let same : name ≡ m = (name_beq_iff name m).0 here in
        let e : ◌≡◌ {A = Option (View R C)} (some u) (some v) =
          sym (ap (λ b. if b then some u else find m views) here) ∙ h in
        let u_is_v : u ≡ v = cc in
        rw here (ap₂ (λ n x. some (measure_slots w (noise n) x.slots x)) same u_is_v)
    | inr there ↦
        let e : find m views ≡ some v =
          sym (ap (λ b. if b then some u else find m views) there) ∙ h in
        rw there (measure_models-find noise views m v e)
  ]

  -- A step that is not paused writes to the state of a link what its reading gives, the noise of the
  -- model added, and leaves the state alone where the simulation lacks a part of the reading; in a
  -- step that is paused all states stay. The view of the model is as `init_method` makes it.
  pub state_info-post_update :
      (paused : Bool) (noise : Name → GzState R) (views : Map Name (View R C)) (m l : Name)
      (v : View R C) (e : ℕ)
      → find m views ≡ some v
      → IsView v
      → find l v.link_map ≡ some e
      → find l (state_info m (post_update w paused noise views)) ≡ (
          if paused
          then find l v.state_map
          else next_state (noise m) (w.reading e) (find l v.state_map))
  unfolding state_info post_update
  state_info-post_update true noise views m l v e known valid is_link =
      ap (λ o. find l (states_of o)) known
  state_info-post_update false noise views m l v e known valid is_link =
      let has : has_slot l v.slots ≡ true = ground (arith, valid.listed l, is_link) in
      ap (λ o. find l (states_of o)) (measure_models-find noise views m v known)
      ∙ measure_slots-state (noise m) v.slots v.link_map v l e valid.points is_link
      ∙ rw has
