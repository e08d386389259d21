-- ===== src/Sim/Discovery/Complete.antt =====
-- When the constructor of `DRLHelperSystem` in GzDRL/src/rl_server.cc finds every model.
use gz_drl.Base.{
  ◌≡◌, refl, sym, subst, ◌∙◌, ◌↔◌, Bool, true, false, ◌||◌, Option, none, List, [], ◌∷◌, ◌++◌,
  arith, if◌then◌else◌, All, Name, name_beq_iff, nat_eq, name_eq, both_eq, All-append, ok,
}
use gz_drl.Base.Map.{Map, find, emplace, find-emplace}
use gz_drl.Sim.Discovery.{
  ModelTree, model, Forest, no_models, add_model, is_in, nested_names, nested_of, push_missing,
  nested_model_names, all_model_names, index_models, find_models,
}
use gz_drl.Sim.Discovery.Nested.{
  IsShallow, IsKnown, Resolves, IsFound, IsNested, is_in-append, is_in-push_missing,
  nested_model_names-IsNested, IsNested-nested_model_names,
}

module _ (model_by_name : Name → Option ModelTree) where
  nested_names-IsKnown :
      (name : Name) (f : Forest)
      → IsShallow f
      → Resolves model_by_name name f
      → All (IsKnown model_by_name) (nested_names name f)
  unfolding nested_names
  nested_names-IsKnown name no_models s r = tt
  nested_names-IsKnown name (add_model (model n f) rest) (leaf, s) (known, r) = (
    (model n f, known),
    subst (λ g. All (IsKnown model_by_name) (nested_names n g ++ nested_names name rest)) (sym leaf)
        (nested_names-IsKnown name rest s r),
  )

  nested_model_names-IsKnown :
      (names : List Name)
      → All (IsFound model_by_name) names
      → All (IsKnown model_by_name) (nested_model_names model_by_name names)
  unfolding nested_model_names
  nested_model_names-IsKnown [] h = tt
  nested_model_names-IsKnown (name ∷ names) ((f, known, s, r), h) =
      All-append (IsKnown model_by_name) (nested_of (model_by_name name)) _
        (subst (λ o. All (IsKnown model_by_name) (nested_of o)) (sym known)
          (nested_names-IsKnown name f s r))
        (nested_model_names-IsKnown names h)

  push_missing-IsKnown :
      (existing names : List Name)
      → All (IsKnown model_by_name) names
      → All (IsKnown model_by_name) (push_missing existing names)
  unfolding push_missing
  push_missing-IsKnown existing [] h = tt
  push_missing-IsKnown existing (nm ∷ names) (k, h) =
      go (is_in nm existing) (push_missing-IsKnown existing names h)
    where
      go :
          (b : Bool)
          → All (IsKnown model_by_name) (push_missing existing names)
          → All
              (IsKnown model_by_name)
              (if b then push_missing existing names else nm ∷ push_missing existing names)
      go true later = later
      go false later = (k, later)

  -- What stands in the map once these names have been looked up.
  Indexed : List Name → Map Name ModelTree → Type 0
  Indexed done objs = (n : Name) → find n objs ≡ (if is_in n done then model_by_name n else none)

  index_models-Indexed :
      (names done : List Name) (objs : Map Name ModelTree)
      → All (IsKnown model_by_name) names
      → Indexed done objs
      → (objs' : Map Name ModelTree) × (index_models model_by_name names objs ≡ ok objs')
        × ((n : Name)
            → find n objs' ≡ (if is_in n names || is_in n done then model_by_name n else none))
  unfolding index_models Indexed
  index_models-Indexed [] done objs h i = (objs, refl, i)
  index_models-Indexed (name ∷ names) done objs ((m, known), h) i =
      let step : Indexed (name ∷ done) (emplace name m objs) =
        λ n. ground (arith, find-emplace name n m objs, i n, i name, known, name_beq_iff name n) in
      let (objs', runs, all) =
        index_models-Indexed names (name ∷ done) (emplace name m objs) h step in
      (objs', rw (index_models, known) runs, λ n. all n ∙ ground arith)

  found-IsKnown :
      (names : List Name) → All (IsFound model_by_name) names → All (IsKnown model_by_name) names
  found-IsKnown [] h = tt
  found-IsKnown (name ∷ names) ((f, known, s, r), h) =
      ((model name f, known), found-IsKnown names h)

  -- Where the world knows each model that is asked for by its own name, the models nested in it have
  -- none of their own, and the world knows these behind its name, the constructor does not throw. It
  -- looks after the models that were asked for and, behind them, after others: exactly those that
  -- are nested in one of them and that were not asked for. It has the world's description of each of
  -- these names, and of no other.
  pub find_models-Indexed :
      (names : List Name)
      → All (IsFound model_by_name) names
      → (extra : List Name) × (objs : Map Name ModelTree) × (find_models model_by_name names
          ≡ ok (names ++ extra, objs))
        × ((n : Name)
            → (is_in n extra ≡ true) ↔ ((is_in n names ≡ false) × IsNested model_by_name names n))
        × ((n : Name)
            → find n objs ≡ (if is_in n names || is_in n extra then model_by_name n else none))
  unfolding find_models all_model_names Indexed find
  find_models-Indexed names h =
      let nested = nested_model_names model_by_name names in
      let extra = push_missing names nested in
      let known : All (IsKnown model_by_name) (names ++ extra) =
        All-append (IsKnown model_by_name) names _ (found-IsKnown names h)
          (push_missing-IsKnown names _ (nested_model_names-IsKnown names h)) in
      let (objs, runs, entries) = index_models-Indexed (names ++ extra) [] [] known (λ n. refl) in
      (
        extra,
        objs,
        rw runs refl,
        λ n. (
          λ among.
              let both = is_in-push_missing n names nested in
              (
                ground (arith, among, both),
                nested_model_names-IsNested model_by_name names n h (ground (arith, among, both)),
              ),
          λ (other, is_nested). ground (
            arith,
            other,
            is_in-push_missing n names nested,
            IsNested-nested_model_names model_by_name names n is_nested,
          ),
        ),
        λ n. entries n ∙ ground (arith, is_in-append n names extra),
      )
