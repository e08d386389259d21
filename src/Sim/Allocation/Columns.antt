-- ===== src/Sim/Allocation/Columns.antt =====
-- The columns of the allocation matrices of GzDRL/src/rl_server.cc.
use gz_drl.Base.{
  suc, ◌≡◌, refl, sym, ap, subst, ◌∙◌, ◌↔◌, inl, inr, Option, none, some, List, [], ◌∷◌, arith,
  nat_beq, if◌then◌else◌, nat_beq_iff, Bool-cases, length, Name, nat_eq, name_eq, both_eq,
  runtime_error, Result, ok, throws, ◌>>=◌,
}
use gz_drl.Base.Map.{Map, find}
use gz_drl.Sim.Allocation.{
  Turning, Plugin, Description, Column, find_plugin, of_plugin, of_description,
  get_rotor_thrust_allocation_matrix, column, columns, with_column, matrix_of, of_rotors,
  allocation_matrix_of_rotors,
}

-- The columns of the rotors: one for each link and direction, of which every link is there.
abbrev pub Fits :
    (T : Turning)
    → Map Name (T.Real × T.Real)
    → T.Real
    → List Name
    → List T.Direction
    → List (Column T)
    → Type 0
Fits T positions k [] [] [] = Unit
Fits T positions k [] [] (c ∷ cs) = ⊥
Fits T positions k [] (d ∷ dirs) cs = ⊥
Fits T positions k (n ∷ names) [] cs = ⊥
Fits T positions k (n ∷ names) (d ∷ dirs) [] = ⊥
Fits T positions k (n ∷ names) (d ∷ dirs) (c ∷ cs) =
    ((p : T.Real × T.Real) × (find n positions ≡ some p) × (c ≡ column T p d k))
    × Fits T positions k names dirs cs

module _ (T : Turning) (positions : Map Name (T.Real × T.Real)) (k : T.Real) where
  with_column-ok :
      (o : Option (T.Real × T.Real)) (d : T.Direction) (rest : Result (List (Column T)))
      (cs : List (Column T))
      → with_column T o d k rest ≡ ok cs
      → (p : T.Real × T.Real) × (o ≡ some p)
        × (cs' : List (Column T)) × (rest ≡ ok cs')
        × (cs ≡ column T p d k ∷ cs')
  unfolding with_column
  with_column-ok none d rest cs e = cc
  with_column-ok (some p) d (throws x) cs e = cc
  with_column-ok (some p) d (ok cs') cs e =
      let is_cs : column T p d k ∷ cs' ≡ cs = cc in (p, refl, cs', refl, sym is_cs)

  columns-Fits :
      (names : List Name) (dirs : List T.Direction) (cs : List (Column T))
      → length names ≡ length dirs
      → columns T positions names dirs k ≡ ok cs
      → Fits T positions k names dirs cs
  unfolding columns
  columns-Fits [] [] [] same e = tt
  columns-Fits [] [] (c ∷ cs) same e = ground (arith, e)
  columns-Fits [] (d ∷ dirs) cs same e = ground (arith, same)
  columns-Fits (n ∷ names) [] cs same e = ground (arith, same)
  columns-Fits (n ∷ names) (d ∷ dirs) cs same e =
      let (p, known, cs', rest, is_cs) =
        with_column-ok (find n positions) d (columns T positions names dirs k) cs e in
      subst (Fits T positions k (n ∷ names) (d ∷ dirs)) (sym is_cs)
        ((p, known, refl), columns-Fits names dirs cs' (omega (arith, same)) rest)

  Fits-columns :
      (names : List Name) (dirs : List T.Direction) (cs : List (Column T))
      → Fits T positions k names dirs cs
      → (length names ≡ length dirs) × (columns T positions names dirs k ≡ ok cs)
  unfolding columns with_column
  Fits-columns [] [] [] f = (refl, refl)
  Fits-columns [] [] (c ∷ cs) f = absurd f
  Fits-columns [] (d ∷ dirs) cs f = absurd f
  Fits-columns (n ∷ names) [] cs f = absurd f
  Fits-columns (n ∷ names) (d ∷ dirs) [] f = absurd f
  Fits-columns (n ∷ names) (d ∷ dirs) (c ∷ cs) ((p, known, is_column), f) =
      let (same, runs) = Fits-columns names dirs cs f in
      (
        ap suc same,
        rw (columns, known)
            (ap (λ r. r >>= λ l. ok (column T p d k ∷ l)) runs
              ∙ ap (λ x. ok (x ∷ cs)) (sym is_column)),
      )

module _ {T : Turning} where
  matrix_of-Fits :
      (m : Description T) (names : List Name) (dirs : List T.Direction) (k : T.Real)
      (cs : List (Column T))
      → (matrix_of m names dirs k ≡ ok cs) ↔ Fits T m.positions k names dirs cs
  unfolding matrix_of
  matrix_of-Fits m names dirs k cs =
      let made = columns T m.positions names dirs k in
      (
        (λ h. elim (Bool-cases (nat_beq (length names) (length dirs))) [
          | inl e ↦
              columns-Fits T m.positions k names dirs cs
                ((nat_beq_iff (length names) (length dirs)).0 e)
                (sym (ap (λ b. if b then made else throws runtime_error) e) ∙ h)
          | inr e ↦
              let bad : throws runtime_error ≡ ok cs =
                sym (ap (λ b. if b then made else throws runtime_error) e) ∙ h in
              absurd cc
        ]),
        (λ f.
            let (same, runs) = Fits-columns T m.positions k names dirs cs f in
            ap (λ b. if b then made else throws runtime_error)
              ((nat_beq_iff (length names) (length dirs)).1 same)
            ∙ runs),
      )

  of_rotors-Fits :
      (o : Option (Description T)) (names : List Name) (dirs : List T.Direction) (k : T.Real)
      (cs : List (Column T))
      → (of_rotors o names dirs k ≡ ok cs)
        ↔ ((m : Description T) × (o ≡ some m) × Fits T m.positions k names dirs cs)
  unfolding of_rotors
  of_rotors-Fits none names dirs k cs = ((λ h. absurd cc), (λ (m, e, f). absurd cc))
  of_rotors-Fits (some m) names dirs k cs =
      let same = matrix_of-Fits m names dirs k cs in
      (
        (λ h. (m, refl, same.0 h)),
        (λ (m', e, f).
            let is_m : m ≡ m' = cc in
            same.1 (subst (λ n. Fits T n.positions k names dirs cs) (sym is_m) f)),
      )

  of_plugin-Fits :
      (m : Description T) (o : Option (Plugin T)) (cs : List (Column T))
      → (of_plugin m o ≡ ok cs) ↔ (
          (p : Plugin T) × (o ≡ some p)
          × Fits T m.positions
              (T.over p.torque_const p.thrust_const)
              p.link_names
              p.turning_directions
              cs)
  unfolding of_plugin
  of_plugin-Fits m none cs = ((λ h. absurd cc), (λ (p, e, f). absurd cc))
  of_plugin-Fits m (some p) cs =
      let same =
        matrix_of-Fits m p.link_names p.turning_directions (T.over p.torque_const p.thrust_const)
          cs in
      (
        (λ h. (p, refl, same.0 h)),
        (λ (q, e, f).
            let is_p : p ≡ q = cc in
            same.1 (
              subst
                (λ r.
                  Fits T m.positions (T.over r.torque_const r.thrust_const) r.link_names
                    r.turning_directions cs)
                (sym is_p) f)),
      )

  -- What the overload without rotors promises: a matrix of the rotors of the plugin that is found.
  abbrev pub FitsPlugin : List (Column T) → Description T → Type 0
  FitsPlugin cs m =
      (p : Plugin T) × (find_plugin m.plugins ≡ some p)
      × Fits T m.positions (T.over p.torque_const p.thrust_const) p.link_names p.turning_directions
          cs

  of_description-Fits :
      (o : Option (Description T)) (cs : List (Column T))
      → (of_description o ≡ ok cs) ↔ ((m : Description T) × (o ≡ some m) × FitsPlugin cs m)
  unfolding of_description
  of_description-Fits none cs = ((λ h. absurd cc), (λ (m, e, f). absurd cc))
  of_description-Fits (some m) cs =
      let same = of_plugin-Fits m (find_plugin m.plugins) cs in
      (
        (λ h. (m, refl, same.0 h)),
        (λ (m', e, f). let is_m : m ≡ m' = cc in same.1 (subst (FitsPlugin cs) (sym is_m) f)),
      )

  -- The allocation matrix of given rotors is returned exactly if the model is known, there are as
  -- many directions as rotors and each rotor's link is there, and it has a column for each of them,
  -- from its place and its direction, in order; without given rotors the same holds of the rotors of
  -- the first rotor plugin, with the ratio of its torque to its thrust constant.
  pub allocation_matrix_of_rotors-Fits :
      (model_name : Name) (rotor_links : List Name) (turning_dir : List T.Direction) (ktau : T.Real)
      (ds : Map Name (Description T)) (cs : List (Column T))
      → ((allocation_matrix_of_rotors model_name rotor_links turning_dir ktau ds ≡ ok cs) ↔ (
          (m : Description T) × (find model_name ds ≡ some m)
          × Fits T m.positions ktau rotor_links turning_dir cs))
        × ((get_rotor_thrust_allocation_matrix model_name ds ≡ ok cs)
            ↔ ((m : Description T) × (find model_name ds ≡ some m) × FitsPlugin cs m))
  unfolding allocation_matrix_of_rotors get_rotor_thrust_allocation_matrix
  allocation_matrix_of_rotors-Fits model_name rotor_links turning_dir ktau ds cs = (
    of_rotors-Fits (find model_name ds) rotor_links turning_dir ktau cs,
    of_description-Fits (find model_name ds) cs,
  )
