-- ===== src/Sim/Inertials/Writes.antt =====
-- What `set_mass` and `set_inertia` of `DRLHelperSystem` in GzDRL/src/rl_server.cc change.
use gz_drl.Base.{
  ◌≡◌, refl, ap, ◌∙◌, Bool, true, false, ◌&&◌, Option, none, some, arith, if◌then◌else◌, Name,
  name_beq, name_beq_iff, nat_eq, name_eq, both_eq, ok,
}
use gz_drl.Base.Map.{Map, find, insert, find-insert}
use gz_drl.Sim.Inertials.{
  Frames, Inertial, Descriptions, row_inertial, link_inertial, write_row, write_inertial, set_mass,
  set_inertia, answer, get_mass, get_inertia,
}

module _ {F : Frames} where
  abbrev changed : (Inertial F → Inertial F) → Option (Inertial F) → Option (Inertial F)
  changed f none = none
  changed f (some i) = some (f i)

  write_row-find :
      (f : Inertial F → Inertial F) (m l n k : Name) (ds : Descriptions F)
      (links : Map Name (Inertial F)) (o : Option (Inertial F))
      → find m ds ≡ some links
      → find l links ≡ o
      → row_inertial (find n (write_row f m l (some links) o ds)) k ≡ (
          if name_beq m n && name_beq l k
          then changed f (row_inertial (find n ds) k)
          else row_inertial (find n ds) k)
  write_row-find f m l n k ds links none e e' =
      ground (arith, e, e', name_beq_iff m n, name_beq_iff l k)
  write_row-find f m l n k ds links (some i) e e' = ground (
    arith,
    e,
    e',
    name_beq_iff m n,
    name_beq_iff l k,
    find-insert m n (insert l (f i) links) ds,
    find-insert l k (f i) links,
  )

  write_inertial-find :
      (f : Inertial F → Inertial F) (m l n k : Name) (ds : Descriptions F)
      → link_inertial n k (write_inertial f m l ds) ≡ (
          if name_beq m n && name_beq l k
          then changed f (link_inertial n k ds)
          else link_inertial n k ds)
  unfolding write_inertial link_inertial
  write_inertial-find f m l n k ds = go (find m ds) refl
    where
      go :
          (o : Option (Map Name (Inertial F)))
          → find m ds ≡ o
          → row_inertial (find n (write_row f m l o (row_inertial o l) ds)) k ≡ (
              if name_beq m n && name_beq l k
              then changed f (row_inertial (find n ds) k)
              else row_inertial (find n ds) k)
      go none e = ground (arith, e, name_beq_iff m n)
      go (some links) e = write_row-find f m l n k ds links (find l links) e refl

  -- An answer that a write does not touch.
  answer-kept :
      {A : Type 0} (g : Inertial F → A) (f : Inertial F → Inertial F) (b : Bool)
      (o : Option (Inertial F))
      → ((i : Inertial F) → g (f i) ≡ g i)
      → answer g (if b then changed f o else o) ≡ answer g o
  answer-kept g f true none h = refl
  answer-kept g f true (some i) h = ap ok (h i)
  answer-kept g f false o h = refl

  answer-changed :
      {A : Type 0} (g : Inertial F → A) (f : Inertial F → Inertial F) (b : Bool)
      (o : Option (Inertial F))
      → answer g (if b then changed f o else o)
        ≡ (if b then answer (λ i. g (f i)) o else answer g o)
  answer-changed g f true none = refl
  answer-changed g f true (some i) = refl
  answer-changed g f false o = refl

  -- Setting the mass of a link that is known makes it the mass that is got, and setting its inertia
  -- makes the moments those of the matrix seen in the frame of its pose; neither touches what the
  -- other sets, nor another link, and a link that is not known stays unknown.
  pub get_mass-set_mass :
      (m l n k : Name) (mass : F.Real) (inertia : F.Matrix) (ds : Descriptions F)
      → (let here = name_beq m n && name_beq l k in
          (get_mass n k (set_mass m l mass ds)
            ≡ (if here then answer (λ i. mass) (link_inertial n k ds) else get_mass n k ds))
          × (get_inertia n k (set_mass m l mass ds) ≡ get_inertia n k ds)
          × (get_mass n k (set_inertia m l inertia ds) ≡ get_mass n k ds)
          × (get_inertia n k (set_inertia m l inertia ds) ≡ (
              if here
              then answer
                  (λ i. F.moi (F.moments (F.in_frame i.pose inertia)) i.pose)
                  (link_inertial n k ds)
              else get_inertia n k ds)))
  unfolding get_mass get_inertia set_mass set_inertia
  get_mass-set_mass m l n k mass inertia ds =
      let here = name_beq m n && name_beq l k in
      let o = link_inertial n k ds in
      let as_mass : Inertial F → Inertial F = λ i. record i { mass = mass } in
      let as_inertia : Inertial F → Inertial F =
        λ i. record i { mass_moments = F.moments (F.in_frame i.pose inertia) } in
      let mass_of : Inertial F → F.Real = λ i. i.mass in
      let moi_of : Inertial F → F.Matrix = λ i. F.moi i.mass_moments i.pose in
      (
        ap (answer mass_of) (write_inertial-find as_mass m l n k ds)
            ∙ answer-changed mass_of as_mass here o,
        ap (answer moi_of) (write_inertial-find as_mass m l n k ds)
            ∙ answer-kept moi_of as_mass here o (λ i. refl),
        ap (answer mass_of) (write_inertial-find as_inertia m l n k ds)
            ∙ answer-kept mass_of as_inertia here o (λ i. refl),
        ap (answer moi_of) (write_inertial-find as_inertia m l n k ds)
            ∙ answer-changed moi_of as_inertia here o,
      )
