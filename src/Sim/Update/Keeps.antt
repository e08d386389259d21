-- ===== src/Sim/Update/Keeps.antt =====
-- What the parts of `PreUpdate` leave alone, and that they return.
use gz_drl.Base.{
  ℕ, All, ◌≡◌, refl, sym, subst, ◌∙◌, Bool, true, false, Option, none, some, List, [], ◌∷◌, arith,
  if◌then◌else◌, Name, name_beq, nat_eq, name_eq, ok, throws,
}
use gz_drl.Base.Map.{Map, find, insert, contains, find-insert}
use gz_drl.Sim.Defs.{
  Component, Value, SdfModel, Call, set_component, remove_component, Ecm, Request, Helper,
}
use gz_drl.Sim.Splitter.{model_name_splitter}
use gz_drl.Sim.Resets.{reset_uav_commands}
use gz_drl.Sim.Update.{
  Outcome, and_then, cache_model, cache_parts, spawn_found, cache_models, reset_all, spawn,
  spawn_all,
}

-- A test that there is something, as the thing.
some_of :
    {A B : Type 0} (o : Option A) (f : A → B)
    → (elim o [ none ↦ false | some a ↦ true ]) ≡ true
    → (b : B) × ((elim o as (λ x. Option B) [ none ↦ none | some a ↦ some (f a) ]) ≡ some b)
some_of none f h = ground arith
some_of (some a) f h = (f a, refl)

module _ {P : Type 0} (ecm : Ecm P) where
  -- What is relied on of names: the entity that is found by a name has it, and writing or removing a
  -- component, of which none is a name, changes neither what is found by a name nor a name.
  pub record Names : Type 0 where
    pub found_name :
        (calls : List (Call P)) (n : Name) (e : ℕ)
        → ecm.entity_by_name calls n ≡ some e
        → ecm.name_of calls e ≡ n
    pub set_found :
        (calls : List (Call P)) (n : Name) (e : ℕ) (c : Component) (v : Value P)
        → ecm.entity_by_name (set_component e c v ∷ calls) n ≡ ecm.entity_by_name calls n
    pub removed_found :
        (calls : List (Call P)) (n : Name) (e : ℕ) (c : Component)
        → ecm.entity_by_name (remove_component e c ∷ calls) n ≡ ecm.entity_by_name calls n
    pub set_name :
        (calls : List (Call P)) (e k : ℕ) (c : Component) (v : Value P)
        → ecm.name_of (set_component e c v ∷ calls) k ≡ ecm.name_of calls k

-- The models that are to be reset have descriptions.
abbrev pub Covers : {P : Type 0} → List (Request P) → Map Name (SdfModel P) → Type 0
Covers requests sdfs = All (λ q. contains q.0 sdfs ≡ true) requests

-- Whatever has a description keeps one.
abbrev pub Grows : {P : Type 0} → Map Name (SdfModel P) → Map Name (SdfModel P) → Type 0
Grows sdfs sdfs' = (n : Name) → contains n sdfs ≡ true → contains n sdfs' ≡ true

module _ {P : Type 0} (ecm : Ecm P) where
  pub reset_uav_commands-some :
      (N : Names ecm) (name : Name) (e : ℕ) (pose : P) (sdfs : Map Name (SdfModel P))
      (calls : List (Call P))
      → ecm.entity_by_name calls name ≡ some e
      → contains name sdfs ≡ true
      → (calls' : List (Call P)) × (reset_uav_commands ecm e pose sdfs calls ≡ some calls')
  unfolding reset_uav_commands
  reset_uav_commands-some N name e pose sdfs calls found described =
      let same =
        N.set_name _ e e _ _
        ∙ N.set_name _ e e _ _
        ∙ N.set_name _ e e _ _
        ∙ N.found_name calls name e found in
      some_of _ _ (subst (λ n. contains n sdfs ≡ true) (sym same) described)

  pub reset_all-some :
      (N : Names ecm) (requests : List (Request P)) (sdfs : Map Name (SdfModel P))
      (calls : List (Call P))
      → Covers requests sdfs
      → (calls' : List (Call P)) × (reset_all ecm requests sdfs calls ≡ some calls')
  unfolding reset_all
  reset_all-some N [] sdfs calls described = (calls, refl)
  reset_all-some N ((name, pose) ∷ requests) sdfs calls (described, others) =
      go (ecm.entity_by_name calls name) refl (λ made. reset_all-some N requests sdfs made others)
    where
      go :
          (o : Option ℕ)
          → ecm.entity_by_name calls name ≡ o
          → ((made : List (Call P))
              → (calls' : List (Call P)) × (reset_all ecm requests sdfs made ≡ some calls'))
          → (calls' : List (Call P)) × ((elim o as (λ x. Option (List (Call P))) [
            | none ↦ reset_all ecm requests sdfs calls
            | some e ↦ elim (reset_uav_commands ecm e pose sdfs calls) [
              | none ↦ none
              | some made ↦ reset_all ecm requests sdfs made
            ]
          ])
              ≡ some calls')
      go none found later = later calls
      go (some e) found later =
          let (made, h) = reset_uav_commands-some N name e pose sdfs calls found described in
          let (calls', h') = later made in (calls', rw h h')

  -- What the caches and the spawning leave alone.
  pub record Keeps (h h' : Helper P) : Type 0 where
    pub same_reset : h'.reset_queue ≡ h.reset_queue
    pub same_post_reset : h'.post_reset_queue ≡ h.post_reset_queue
    pub same_respawn : h'.respawn_queue ≡ h.respawn_queue
    pub same_post_respawn : h'.post_respawn_queue ≡ h.post_respawn_queue
    pub grows : Grows h.model_sdf_objs h'.model_sdf_objs

  unchanged : (h : Helper P) → Keeps h h
  unchanged h = record {
    same_reset = refl;
    same_post_reset = refl;
    same_respawn = refl;
    same_post_respawn = refl;
    grows = λ n d. d;
  }

  in_turn : (g h k : Helper P) → Keeps g h → Keeps h k → Keeps g k
  in_turn g h k a b = record {
    same_reset = b.same_reset ∙ a.same_reset;
    same_post_reset = b.same_post_reset ∙ a.same_post_reset;
    same_respawn = b.same_respawn ∙ a.same_respawn;
    same_post_respawn = b.same_post_respawn ∙ a.same_post_respawn;
    grows = λ n d. b.grows n (a.grows n d);
  }

  cache_parts-Keeps :
      (name : Name) (parts : List Name) (h : Helper P) → Keeps h ((cache_parts ecm name parts h).1)
  unfolding cache_parts cache_model
  cache_parts-Keeps name [] h = unchanged h
  cache_parts-Keeps name (base ∷ nested) h = go (ecm.entity_by_name h.calls base)
    where
      go : (o : Option ℕ) → Keeps h ((cache_model ecm name nested o h).1)
      go none = unchanged h
      go (some entity) = record {
        same_reset = refl;
        same_post_reset = refl;
        same_respawn = refl;
        same_post_respawn = refl;
        grows = λ n d. d;
      }

  pub cache_models-Keeps :
      (names : List Name) (h : Helper P) → Keeps h ((cache_models ecm names h).1)
  unfolding cache_models
  cache_models-Keeps [] h = unchanged h
  cache_models-Keeps (name ∷ names) h =
      go (cache_parts ecm name (model_name_splitter name) h)
        (cache_parts-Keeps name (model_name_splitter name) h) (λ h'. cache_models-Keeps names h')
    where
      go :
          (o : Outcome (Helper P))
          → Keeps h o.1
          → ((h' : Helper P) → Keeps h' ((cache_models ecm names h').1))
          → Keeps h ((and_then o (λ h'. cache_models ecm names h')).1)
      go (throws e, h') k later = k
      go (ok _, h') k later = in_turn h h' _ k (later h')

  insert-Grows :
      (name : Name) (sdf : SdfModel P) (sdfs : Map Name (SdfModel P))
      → Grows sdfs (insert name sdf sdfs)
  insert-Grows name sdf sdfs n d =
      let here = name_beq name n in
      subst (λ o. (elim o as (λ x. Bool) [ none ↦ false | some v ↦ true ]) ≡ true)
        (sym (find-insert name n sdf sdfs)) (go n here d)
    where
      go :
          (n : Name) (here : Bool)
          → contains n sdfs ≡ true
          → (elim (if here then some sdf else find n sdfs) as (λ x. Bool) [
            | none ↦ false
            | some v ↦ true
          ])
            ≡ true
      go n true h = refl
      go n false h = h

  spawn_found-Keeps :
      (name : Name) (pose : P) (o : Option (SdfModel P)) (h : Helper P)
      → Keeps h (spawn_found ecm name pose o h)
  unfolding spawn_found spawn
  spawn_found-Keeps name pose none h = unchanged h
  spawn_found-Keeps name pose (some sdf) h = record {
    same_reset = refl;
    same_post_reset = refl;
    same_respawn = refl;
    same_post_respawn = refl;
    grows = insert-Grows name _ _;
  }

  pub spawn_all-Keeps :
      (requests : List (Request P)) (h : Helper P) → Keeps h (spawn_all ecm requests h)
  unfolding spawn_all
  spawn_all-Keeps [] h = unchanged h
  spawn_all-Keeps ((name, pose) ∷ requests) h =
      in_turn h (spawn_found ecm name pose (find name h.model_sdf_objs) h) _
        (spawn_found-Keeps name pose (find name h.model_sdf_objs) h) (spawn_all-Keeps requests _)
