-- ===== src/Envs/States/Shifts.antt =====
-- What `GazeboEnvpool::UpdateControlStates` of envs/gazebo_envpool/gazebo_envpool.hh makes of the states.
use gz_drl.Base.{
  ◌≡◌, refl, sym, ap, subst, ◌∙◌, inl, inr, true, false, Option, none, some, List, [], ◌∷◌, ◌++◌,
  if◌then◌else◌, Bool-cases, Name, name_beq, name_beq_iff, nat_eq, name_eq, both_eq,
}
use gz_drl.Base.Map.{Map, find, insert, find-insert}
use gz_drl.Envs.States.{
  States, Link, state_key, value_or, update_link, update_link_names, update_control_states,
}

-- The links of the models, in the order of the loops.
abbrev pub links_with : Name → List Name → List Link
links_with model_name [] = []
links_with model_name (l ∷ link_names) = (model_name, l) ∷ links_with model_name link_names

abbrev pub all_links : List (Name × List Name) → List Link
all_links [] = []
all_links ((model_name, link_names) ∷ models) = links_with model_name link_names ++ all_links models

-- The first link with a key.
unfoldable pub link_with : Name → List Link → Option Link
unfolding state_key
link_with key [] = none
link_with key (link ∷ links) =
    if name_beq (state_key link) key then some link else link_with key links

-- No two links have a key in common.
abbrev pub Distinct : List Link → Type 0
Distinct [] = Unit
Distinct (link ∷ links) = (link_with (state_key link) links ≡ none) × Distinct links

module _ {V : Type 0} (control : Link → V × V) (made : V) where
  abbrev update_each : List Link → States V → States V
  update_each [] s = s
  update_each (link ∷ links) s = update_each links (update_link control made link s)

  update_each-append :
      (ks ls : List Link) (s : States V)
      → update_each (ks ++ ls) s ≡ update_each ls (update_each ks s)
  update_each-append [] ls s = refl
  update_each-append (k ∷ ks) ls s = update_each-append ks ls (update_link control made k s)

  update_link_names-each :
      (m : Name) (ls : List Name) (s : States V)
      → update_link_names control made m ls s ≡ update_each (links_with m ls) s
  unfolding update_link_names
  update_link_names-each m [] s = refl
  update_link_names-each m (l ∷ ls) s =
      update_link_names-each m ls (update_link control made (m, l) s)

  update_control_states-each :
      (models : List (Name × List Name)) (s : States V)
      → update_control_states control made models s ≡ update_each (all_links models) s
  unfolding update_control_states
  update_control_states-each [] s = refl
  update_control_states-each ((m, ls) ∷ models) s =
      ap (update_control_states control made models) (update_link_names-each m ls s)
      ∙ update_control_states-each models (update_each (links_with m ls) s)
      ∙ sym (update_each-append (links_with m ls) (all_links models) s)

  -- What becomes of a key.
  abbrev pub Shifted : Name → Option Link → States V → States V → Type 0
  Shifted key none s s' =
      (find key s'.current_state ≡ find key s.current_state)
      × (find key s'.current_state_dot ≡ find key s.current_state_dot)
      × (find key s'.last_state ≡ find key s.last_state)
      × (find key s'.last_state_dot ≡ find key s.last_state_dot)
  Shifted key (some link) s s' =
      (find key s'.current_state ≡ some (control link).0)
      × (find key s'.current_state_dot ≡ some (control link).1)
      × (find key s'.last_state ≡ some (value_or made (find key s.current_state)))
      × (find key s'.last_state_dot ≡ some (value_or made (find key s.current_state_dot)))

  written :
      (k j : Name) (v : V) (m : Map Name V) → name_beq k j ≡ true → find j (insert k v m) ≡ some v
  written k j v m e = find-insert k j v m ∙ ap (λ b. if b then some v else find j m) e

  kept :
      (k j : Name) (v : V) (m : Map Name V)
      → name_beq k j ≡ false
      → find j (insert k v m) ≡ find j m
  kept k j v m e = find-insert k j v m ∙ ap (λ b. if b then some v else find j m) e

  update_link-here :
      (link : Link) (key : Name) (s : States V)
      → name_beq (state_key link) key ≡ true
      → Shifted key (some link) s (update_link control made link s)
  unfolding update_link
  update_link-here link key s e =
      let k = state_key link in
      let same : k ≡ key = (name_beq_iff k key).0 e in
      let old = λ (m : Map Name V). ap (λ n. some (value_or made (find n m))) same in
      (
        written k key _ _ e,
        written k key _ _ e,
        written k key _ _ e ∙ old s.current_state,
        written k key _ _ e ∙ old s.current_state_dot,
      )

  update_link-there :
      (link : Link) (key : Name) (s : States V)
      → name_beq (state_key link) key ≡ false
      → Shifted key none s (update_link control made link s)
  unfolding update_link
  update_link-there link key s e =
      let k = state_key link in
      (kept k key _ _ e, kept k key _ _ e, kept k key _ _ e, kept k key _ _ e)

  -- A key that one part shifts and the other leaves is shifted by both together.
  then_kept :
      (key : Name) (o : Option Link) (s s' s'' : States V)
      → Shifted key o s s'
      → Shifted key none s' s''
      → Shifted key o s s''
  then_kept key none s s' s'' (a, b, c, d) (a', b', c', d') = (a' ∙ a, b' ∙ b, c' ∙ c, d' ∙ d)
  then_kept key (some link) s s' s'' (a, b, c, d) (a', b', c', d') =
      (a' ∙ a, b' ∙ b, c' ∙ c, d' ∙ d)

  kept_then :
      (key : Name) (o : Option Link) (s s' s'' : States V)
      → Shifted key none s s'
      → Shifted key o s' s''
      → Shifted key o s s''
  kept_then key none s s' s'' (a, b, c, d) (a', b', c', d') = (a' ∙ a, b' ∙ b, c' ∙ c, d' ∙ d)
  kept_then key (some link) s s' s'' (a, b, c, d) (a', b', c', d') =
      (a', b', c' ∙ ap (λ o. some (value_or made o)) a, d' ∙ ap (λ o. some (value_or made o)) b)

  update_each-Shifted :
      (links : List Link) (key : Name) (s : States V)
      → Distinct links
      → Shifted key (link_with key links) s (update_each links s)
  unfolding link_with
  update_each-Shifted [] key s u = (refl, refl, refl, refl)
  update_each-Shifted (link ∷ links) key s (new, u) =
      let s' = update_link control made link s in
      let later = update_each-Shifted links key s' u in
      elim (Bool-cases (name_beq (state_key link) key)) [
        | inl e ↦
            let same : state_key link ≡ key = (name_beq_iff (state_key link) key).0 e in
            let last : link_with key links ≡ none = ap (λ n. link_with n links) (sym same) ∙ new in
            subst
              (λ b.
                Shifted key (if b then some link else link_with key links) s (update_each links s'))
              (sym e)
              (then_kept key (some link) s s' _ (update_link-here link key s e)
                (subst (λ o. Shifted key o s' (update_each links s')) last later))
        | inr e ↦
            subst
              (λ b.
                Shifted key (if b then some link else link_with key links) s (update_each links s'))
              (sym e)
              (kept_then key (link_with key links) s s' _ (update_link-there link key s e) later)
      ]

  -- Where no two links have a key in common, an update makes the last state of each link what was
  -- its current one, or a new one where there was none, makes the current state what the server
  -- has, and so for the derivatives; a key of no link keeps its states.
  pub update_control_states-Shifted :
      (models : List (Name × List Name)) (key : Name) (s : States V)
      → Distinct (all_links models)
      → Shifted key
          (link_with key (all_links models))
          s
          (update_control_states control made models s)
  update_control_states-Shifted models key s u =
      subst (Shifted key (link_with key (all_links models)) s)
        (sym (update_control_states-each models s)) (update_each-Shifted (all_links models) key s u)
