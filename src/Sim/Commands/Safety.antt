-- ===== src/Sim/Commands/Safety.antt =====
-- When the commands to a link cannot throw: `links.at` in the setters of `DRLHelperSystem`, against
-- the caches that `init_method` fills, of GzDRL/src/rl_server.cc.
use gz_drl.Base.{
  ℕ, zero, suc, ◌≡◌, refl, ap, subst, ◌∙◌, Bool, true, false, Option, none, some, List, [], ◌∷◌,
  ◌++◌, arith, if◌then◌else◌, Name, nat_eq, name_eq, both_eq, Result, ok, throws,
}
use gz_drl.Base.Map.{Map, find, insert, contains, find-insert}
use gz_drl.Sim.Defs.{SdfModel, Call, Ecm, Request, Helper}
use gz_drl.Sim.Splitter.{model_name_splitter}
use gz_drl.Sim.Update.{
  Outcome, and_then, go_on, cache_model, cache_parts, cache_models, init_caches, spawn, spawn_found,
  spawn_all, reset_all, pre_update, run_steps,
}
use gz_drl.Sim.Commands.{
  Mechanics, Target, CommandCall, add_world_wrench, LinkCommand, component_of, write_command,
  link_of_model, find_link, on_link, set_link_cmd, set_wrench,
}

-- The link of a model, by the cache of links alone.
abbrev pub entry_in : Option (Map Name ℕ) → Name → Option ℕ
entry_in none link_name = none
entry_in (some row) link_name = find link_name row

link_of_model-eq :
    (a : Option ℕ) (b : Option (Map Name ℕ)) (l : Name)
    → (elim a as (λ x. Bool) [ none ↦ false | some v ↦ true ])
      ≡ (elim b as (λ x. Bool) [ none ↦ false | some v ↦ true ])
    → link_of_model a b l ≡ ok (entry_in b l)
link_of_model-eq none none l h = refl
link_of_model-eq none (some row) l h = cc
link_of_model-eq (some a) none l h = cc
link_of_model-eq (some a) (some row) l h = refl

insert-Paired :
    (k : Name) (v : ℕ) (row : Map Name ℕ) (a : Map Name ℕ) (b : Map Name (Map Name ℕ))
    → ((m : Name) → contains m a ≡ contains m b)
    → (m : Name) → contains m (insert k v a) ≡ contains m (insert k row b)
insert-Paired k v row a b p m = ground (arith, p m, find-insert k m v a, find-insert k m row b)

on_known :
    {A : Type 0} (f : ℕ → List A → List A) (calls : List A) (o : Option ℕ)
    → on_link (ok o) f calls ≡ ok (elim o [ none ↦ calls | some link ↦ f link calls ])
on_known f calls none = refl
on_known f calls (some link) = refl

module _ {P : Type 0} where
  -- The two caches have the same models.
  unfoldable pub Paired : Helper P → Type 0
  Paired h = (m : Name) → contains m h.models ≡ contains m h.cached_links

  -- What a setter acts on.
  unfoldable pub known_link : Bool → Name → Name → Helper P → Option ℕ
  known_link configured model_name link_name h =
      if configured then entry_in (find model_name h.cached_links) link_name else none

  find_link-Paired :
      (configured : Bool) (m l : Name) (h : Helper P)
      → Paired h
      → find_link configured m l h ≡ ok (known_link configured m l h)
  unfolding find_link known_link Paired
  find_link-Paired false m l h p = refl
  find_link-Paired true m l h p = link_of_model-eq (find m h.models) (find m h.cached_links) l (p m)

module _ {P : Type 0} (ecm : Ecm P) where
  cache_parts-Paired :
      (name : Name) (parts : List Name) (h : Helper P)
      → Paired h
      → Paired ((cache_parts ecm name parts h).1)
  unfolding cache_parts cache_model Paired
  cache_parts-Paired name [] h p = p
  cache_parts-Paired name (base ∷ nested) h p = go (ecm.entity_by_name h.calls base)
    where
      go : (o : Option ℕ) → Paired ((cache_model ecm name nested o h).1)
      go none = p
      go (some entity) = insert-Paired name _ _ h.models h.cached_links p

  cache_models-Paired :
      (names : List Name) (h : Helper P) → Paired h → Paired ((cache_models ecm names h).1)
  unfolding cache_models
  cache_models-Paired [] h p = p
  cache_models-Paired (name ∷ names) h p =
      go (cache_parts ecm name (model_name_splitter name) h)
        (cache_parts-Paired name (model_name_splitter name) h p)
        (λ h'. cache_models-Paired names h')
    where
      go :
          (o : Outcome (Helper P))
          → Paired o.1
          → ((h' : Helper P) → Paired h' → Paired ((cache_models ecm names h').1))
          → Paired ((and_then o (λ h'. cache_models ecm names h')).1)
      go (throws e, h') q later = q
      go (ok _, h') q later = later h' q

  spawn_found-Paired :
      (name : Name) (pose : P) (o : Option (SdfModel P)) (h : Helper P)
      → Paired h
      → Paired (spawn_found ecm name pose o h)
  unfolding spawn_found spawn Paired
  spawn_found-Paired name pose none h p = p
  spawn_found-Paired name pose (some sdf) h p = p

  spawn_all-Paired :
      (requests : List (Request P)) (h : Helper P) → Paired h → Paired (spawn_all ecm requests h)
  unfolding spawn_all
  spawn_all-Paired [] h p = p
  spawn_all-Paired ((name, pose) ∷ requests) h p =
      spawn_all-Paired requests _ (spawn_found-Paired name pose (find name h.model_sdf_objs) h p)

  -- What a call leaves, if it is defined, has the property.
  abbrev Leaves : (Helper P → Type 0) → Option (Outcome (Helper P)) → Type 0
  Leaves Q none = Unit
  Leaves Q (some (r, h)) = Q h

  reset-Paired :
      (h : Helper P) (q : Request P) (qs : List (Request P))
      → Paired h
      → Leaves Paired (pre_update ecm false (record h { reset_queue = q ∷ qs }))
  unfolding pre_update Paired
  reset-Paired h q qs p = go (reset_all ecm (q ∷ qs) h.model_sdf_objs h.calls)
    where
      go :
          (o : Option (List (Call P)))
          → Leaves Paired (elim o as (λ x. Option (Outcome (Helper P))) [
            | none ↦ none
            | some calls ↦ some (
              ok tt,
              record h {
                post_reset_queue = h.post_reset_queue ++ q ∷ qs;
                reset_queue = [];
                calls = calls;
              },
            )
          ])
      go none = tt
      go (some calls) = p

  any-Paired :
      (q1 q2 q3 q4 : List (Request P)) (h : Helper P)
      → Paired h
      → Leaves Paired (
          pre_update ecm false (record h {
            reset_queue = q1;
            post_reset_queue = q2;
            respawn_queue = q3;
            post_respawn_queue = q4;
          }))
  unfolding pre_update init_caches Paired
  any-Paired (q ∷ qs) q2 q3 q4 h p =
      reset-Paired (record h { post_reset_queue = q2; respawn_queue = q3; post_respawn_queue = q4 })
        q qs p
  any-Paired [] (q ∷ qs) q3 q4 h p = p
  any-Paired [] [] (q ∷ qs) q4 h p = p
  any-Paired [] [] [] (q ∷ qs) h p =
      let h0 : Helper P = record h {
        reset_queue = [];
        post_reset_queue = [];
        respawn_queue = [];
        post_respawn_queue = q ∷ qs;
      } in
      let spawned : Helper P = record (spawn_all ecm (q ∷ qs) h0) { post_respawn_queue = [] } in
      cache_models-Paired spawned.model_names spawned (spawn_all-Paired (q ∷ qs) h0 p)
  any-Paired [] [] [] [] h p = p

  run_steps-Paired : (n : ℕ) (h : Helper P) → Paired h → Leaves Paired (run_steps ecm n h)
  unfolding run_steps
  run_steps-Paired zero h p = p
  run_steps-Paired (suc n) h p =
      go (pre_update ecm false h)
        (any-Paired h.reset_queue h.post_reset_queue h.respawn_queue h.post_respawn_queue h p)
        (λ k. run_steps-Paired n k)
    where
      go :
          (o : Option (Outcome (Helper P)))
          → Leaves Paired o
          → ((k : Helper P) → Paired k → Leaves Paired (run_steps ecm n k))
          → Leaves Paired (go_on o (λ k. run_steps ecm n k))
      go none q later = tt
      go (some (throws e, k)) q later = q
      go (some (ok _, k)) q later = later k q

module _ {P : Type 0} {M : Mechanics} (ecm : Ecm P) (t : Target M) where
  -- After steps of the simulation, also where a step has thrown, from a system whose caches have the
  -- same models, a command to a link does not throw: with a link that is in the cache of links it
  -- makes its write alone, and without, or before the system is configured, it does nothing. The
  -- same holds of a wrench.
  pub set_link_cmd-run_steps :
      (n : ℕ) (h : Helper P) (r : Result (Unit {0})) (h' : Helper P) (kind : LinkCommand)
      (configured : Bool) (m l : Name) (cmd : List M.Real) (force moments : M.Vector)
      (calls : List (CommandCall M))
      → Paired h
      → run_steps ecm n h ≡ some (r, h')
      → (let known = known_link configured m l h' in
          (set_link_cmd t kind configured m l cmd h' calls
            ≡ ok (elim known [
              | none ↦ calls
              | some link ↦ write_command t link (component_of kind) cmd calls
            ]))
          × (set_wrench configured m l force moments h' calls
              ≡ ok (elim known [
                | none ↦ calls
                | some link ↦ add_world_wrench link force moments ∷ calls
              ])))
  unfolding set_link_cmd set_wrench
  set_link_cmd-run_steps n h r h' kind configured m l cmd force moments calls p runs =
      let p' : Paired h' = subst (Leaves ecm Paired) runs (run_steps-Paired ecm n h p) in
      let e = find_link-Paired configured m l h' p' in
      (
        ap (λ o. on_link o (λ link. write_command t link (component_of kind) cmd) calls) e
            ∙ on_known (λ link. write_command t link (component_of kind) cmd) calls
                (known_link configured m l h'),
        ap (λ o. on_link o (λ link cs. add_world_wrench link force moments ∷ cs) calls) e
            ∙ on_known (λ link cs. add_world_wrench link force moments ∷ cs) calls
                (known_link configured m l h'),
      )
