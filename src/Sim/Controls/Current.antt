-- ===== src/Sim/Controls/Current.antt =====
-- After an update a controller reads what the simulation measured last.
use gz_drl.Base.{
  ◌≡◌, refl, ap, ◌∙◌, inl, inr, Bool, true, false, ◌&&◌, ◌||◌, Option, none, some, List, [], ◌∷◌,
  arith, if◌then◌else◌, Bool-cases, Name, name_beq, name_beq_iff, nat_eq, name_eq, both_eq,
}
use gz_drl.Base.Map.{Map, find, insert, find-insert, IsUnique}
use gz_drl.Sim.Views.{Reals, GzState, View, states_of}
use gz_drl.Sim.Controls.{
  Control, Controls, Derivative, control_of, row_of, update_links, update_control_states,
  control_at,
}

-- A name of the list.
abbrev pub has_name : Name → List Name → Bool
has_name n [] = false
has_name n (m ∷ names) = name_beq m n || has_name n names

module _ {R : Reals} (d : Derivative R) where
  -- A link's entry after its state was written, where it has one.
  abbrev pub entry : Option (GzState R) → Option (Control R) → Option (Control R)
  entry none old = old
  entry (some p) old = some (control_of d p)

  find_nothing : (k : Name) → find {V = Control R} k [] ≡ none
  unfolding find
  find_nothing k = refl

  control_at-insert :
      (m n l k : Name) (c : Control R) (controls : Controls R)
      → control_at n k (insert m (insert l c (row_of (find m controls))) controls)
        ≡ (if name_beq m n && name_beq l k then some c else control_at n k controls)
  unfolding control_at
  control_at-insert m n l k c controls = ground (
    arith,
    name_beq_iff m n,
    find_nothing k,
    find-insert m n (insert l c (row_of (find m controls))) controls,
    find-insert l k c (row_of (find m controls)),
  )

  update_links-control_at :
      (m n k : Name) (states : Map Name (GzState R)) (controls : Controls R)
      → IsUnique states
      → control_at n k (update_links d m states controls) ≡ (
          if name_beq m n
          then entry (find k states) (control_at n k controls)
          else control_at n k controls)
  unfolding update_links find
  update_links-control_at m n k [] controls u = ground arith
  update_links-control_at m n k ((l, p) ∷ states) controls (new, u) =
      let written = insert m (insert l (control_of d p) (row_of (find m controls))) controls in
      ground (
        arith,
        update_links-control_at m n k states written u,
        control_at-insert m n l k (control_of d p) controls,
        name_beq_iff l k,
        new,
      )

  entry_again :
      (o : Option (GzState R)) (old : Option (Control R)) → entry o (entry o old) ≡ entry o old
  entry_again none old = refl
  entry_again (some p) old = refl

  -- After `update_control_states` the entry of a link of a model that the server looks after is made
  -- from the state that the model's view has for the link, whatever stood there; where there is no
  -- such state, and for other models, the entries stay. The states of a view are a map: a link has
  -- one.
  pub control_at-update_control_states :
      {C : Type 0} (names : List Name) (views : Map Name (View R C)) (controls : Controls R)
      (n k : Name)
      → ((m : Name) → IsUnique (states_of (find m views)))
      → control_at n k (update_control_states d names views controls) ≡ (
          if has_name n names
          then entry (find k (states_of (find n views))) (control_at n k controls)
          else control_at n k controls)
  unfolding update_control_states
  control_at-update_control_states [] views controls n k u = refl
  control_at-update_control_states (m ∷ names) views controls n k u =
      let states = states_of (find m views) in
      let written = update_links d m states controls in
      let later = control_at-update_control_states names views written n k u in
      let now = update_links-control_at m n k states controls (u m) in
      let fresh = find k (states_of (find n views)) in
      elim (Bool-cases (name_beq m n)) [
        | inl here ↦
            let same : m ≡ n = (name_beq_iff m n).0 here in
            let of_n : find k states ≡ fresh = ap (λ x. find k (states_of (find x views))) same in
            let now' : control_at n k written ≡ entry fresh (control_at n k controls) =
              now ∙ rw (here, of_n) in
            rw here (later ∙ rw now' (go (has_name n names)))
        | inr there ↦
            let now' : control_at n k written ≡ control_at n k controls = now ∙ rw there in
            rw there (later ∙ rw now')
      ]
    where
      go :
          (b : Bool)
          → (let fresh = find k (states_of (find n views)) in
              (if b
                then entry fresh (entry fresh (control_at n k controls))
                else entry fresh (control_at n k controls))
              ≡ entry fresh (control_at n k controls))
      go true = entry_again (find k (states_of (find n views))) (control_at n k controls)
      go false = refl
