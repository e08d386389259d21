-- ===== src/Sim/Discovery/Nested.antt =====
-- Which models the constructor of `DRLHelperSystem` in GzDRL/src/rl_server.cc looks after besides
-- those that it is asked for.
use gz_drl.Base.{
  ◌≡◌, refl, sym, ap, subst, ◌∙◌, ◌⊎◌, inl, inr, name_beq, true, false, not, ◌&&◌, ◌||◌, Bool-cases,
  Option, some, List, [], ◌∷◌, ◌++◌, arith, All, Name, codes, name_beq_iff, nat_eq, name_eq,
  both_eq,
}
use gz_drl.Sim.Discovery.{
  ModelTree, model, Forest, no_models, add_model, is_in, nested_names, nested_of, push_missing,
  nested_model_names,
}

-- The nested models have no nested models of their own.
abbrev pub IsShallow : Forest → Type 0
IsShallow no_models = Unit
IsShallow (add_model (model n f) rest) = (f ≡ no_models) × IsShallow rest

-- A model of the forest itself, by its own name.
abbrev pub HasChild : Name → Forest → Type 0
HasChild child no_models = ⊥
HasChild child (add_model (model n f) rest) = (child ≡ n) ⊎ HasChild child rest

pub is_in-append : (n : Name) (xs ys : List Name) → is_in n (xs ++ ys) ≡ (is_in n xs || is_in n ys)
is_in-append n [] ys = refl
is_in-append n (x ∷ xs) ys = ground (arith, is_in-append n xs ys)

pub is_in-push_missing :
    (n : Name) (existing names : List Name)
    → is_in n (push_missing existing names) ≡ (not (is_in n existing) && is_in n names)
unfolding push_missing
is_in-push_missing n existing [] = ground arith
is_in-push_missing n existing (m ∷ names) =
    let rest = is_in-push_missing n existing names in
    elim (Bool-cases (name_beq m n)) [
      | inl this ↦
          let same : is_in m existing ≡ is_in n existing =
            ap (λ k. is_in k existing) ((name_beq_iff m n).0 this) in
          ground (arith, this, same, rest)
      | inr other ↦ ground (arith, other, rest)
    ]

module _ (model_by_name : Name → Option ModelTree) where
  abbrev pub IsKnown : Name → Type 0
  IsKnown name = (m : ModelTree) × (model_by_name name ≡ some m)

  -- The nested models are known by their names behind their parent's.
  abbrev pub Resolves : Name → Forest → Type 0
  Resolves name no_models = Unit
  Resolves name (add_model (model n f) rest) =
      (model_by_name (name ++ codes "::" ++ n) ≡ some (model n f)) × Resolves name rest

  -- A model that was asked for, with its nested models.
  abbrev pub IsFound : Name → Type 0
  IsFound name =
      (f : Forest) × (model_by_name name ≡ some (model name f)) × IsShallow f × Resolves name f

  -- A name behind the one of a model that was asked for: its parent's, "::", and the model's own.
  abbrev pub IsNested : List Name → Name → Type 0
  IsNested names n =
      (name : Name) × (child : Name) × (f : Forest) × (is_in name names ≡ true)
      × (model_by_name name ≡ some (model name f))
      × HasChild child f
      × (name ++ codes "::" ++ child ≡ n)

  nested_names-HasChild :
      (n name : Name) (f : Forest)
      → IsShallow f
      → is_in n (nested_names name f) ≡ true
      → (child : Name) × HasChild child f × (name ++ codes "::" ++ child ≡ n)
  unfolding nested_names
  nested_names-HasChild n name no_models s h = absurd cc
  nested_names-HasChild n name (add_model (model c g) rest) (leaf, s) h =
      let own = subst (λ g. is_in n (nested_names c g) ≡ false) (sym leaf) refl in
      elim (Bool-cases (name_beq (name ++ codes "::" ++ c) n)) [
        | inl this ↦ (c, inl refl, (name_beq_iff _ n).0 this)
        | inr other ↦
            let later : is_in n (nested_names name rest) ≡ true =
              ground (
                arith,
                h,
                other,
                own,
                is_in-append n (nested_names c g) (nested_names name rest),
              ) in
            let (child, has, e) = nested_names-HasChild n name rest s later in (child, inr has, e)
      ]

  HasChild-nested_names :
      (n name child : Name) (f : Forest)
      → HasChild child f
      → name ++ codes "::" ++ child ≡ n
      → is_in n (nested_names name f) ≡ true
  unfolding nested_names
  HasChild-nested_names n name child no_models h e = absurd h
  HasChild-nested_names n name child (add_model (model c g) rest) (inl here) e =
      let this : name_beq (name ++ codes "::" ++ c) n ≡ true =
        (name_beq_iff _ n).1 (ap (λ d. name ++ codes "::" ++ d) (sym here) ∙ e) in
      ground (arith, this)
  HasChild-nested_names n name child (add_model (model c g) rest) (inr has) e =
      let later = HasChild-nested_names n name child rest has e in
      ground (arith, later, is_in-append n (nested_names c g) (nested_names name rest))

  pub nested_model_names-IsNested :
      (names : List Name) (n : Name)
      → All IsFound names
      → is_in n (nested_model_names model_by_name names) ≡ true
      → IsNested names n
  unfolding nested_model_names nested_of
  nested_model_names-IsNested [] n h e = absurd cc
  nested_model_names-IsNested (name ∷ names) n ((f, known, s, r), h) e =
      let own = nested_of (model_by_name name) in
      let is_own : own ≡ nested_names name f = ap (λ o. nested_of o) known in
      elim (Bool-cases (is_in n own)) [
        | inl here ↦
            let (child, has, same) =
              nested_names-HasChild n name f s (sym (ap (is_in n) is_own) ∙ here) in
            (name, child, f, ground (arith, name_beq_iff name name), known, has, same)
        | inr other ↦
            let later : is_in n (nested_model_names model_by_name names) ≡ true =
              ground
                (arith, e, other, is_in-append n own (nested_model_names model_by_name names)) in
            let (m, child, g, among, known', has, same) =
              nested_model_names-IsNested names n h later in
            (m, child, g, ground (arith, among), known', has, same)
      ]

  pub IsNested-nested_model_names :
      (names : List Name) (n : Name)
      → IsNested names n
      → is_in n (nested_model_names model_by_name names) ≡ true
  unfolding nested_model_names nested_of
  IsNested-nested_model_names [] n (m, child, f, among, known, has, same) = absurd cc
  IsNested-nested_model_names (name ∷ names) n (m, child, f, among, known, has, same) =
      let split =
        is_in-append n (nested_of (model_by_name name)) (nested_model_names model_by_name names) in
      elim (Bool-cases (name_beq name m)) [
        | inl this ↦
            let is_m : name ≡ m = (name_beq_iff name m).0 this in
            let own : nested_of (model_by_name name) ≡ nested_names m f =
              ap (λ k. nested_of (model_by_name k)) is_m ∙ ap (λ o. nested_of o) known in
            let here : is_in n (nested_of (model_by_name name)) ≡ true =
              ap (is_in n) own ∙ HasChild-nested_names n m child f has same in
            ground (arith, here, split)
        | inr other ↦
            let later =
              IsNested-nested_model_names names n
                (m, child, f, ground (arith, among, other), known, has, same) in
            ground (arith, later, split)
      ]
