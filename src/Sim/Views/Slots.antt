-- ===== src/Sim/Views/Slots.antt =====
-- The slots of a model point to its links, and every link has one.
use gz_drl.Base.{
  ℕ, ◌≡◌, refl, ap, ◌∙◌, Bool, false, ◌||◌, Option, none, some, List, [], ◌∷◌, ◌++◌, arith, All,
  Name, name_beq, name_beq_iff, nat_eq, name_eq,
}
use gz_drl.Base.{All-append, All-imp}
use gz_drl.Base.Map.{Map, find, contains, emplace, find-emplace}
use gz_drl.Sim.Defs.{Ecm, Call, enable_checks}
use gz_drl.Sim.Update.{cache_links}
use gz_drl.Sim.Views.{Reals, View, empty_view, link_at, cache_slot, cache_slots}

unfoldable pub has_slot : Name → List (ℕ × Name) → Bool
has_slot l [] = false
has_slot l ((link, lname) ∷ slots) = name_beq lname l || has_slot l slots

has_slot-append :
    (l : Name) (xs ys : List (ℕ × Name)) → has_slot l (xs ++ ys) ≡ (has_slot l xs || has_slot l ys)
unfolding has_slot
has_slot-append l [] ys = refl
has_slot-append l ((link, lname) ∷ xs) ys = ground (arith, has_slot-append l xs ys)

-- The slot's link is the one that the model's links have under that name.
abbrev pub PointsTo : Map Name ℕ → ℕ × Name → Type 0
PointsTo links (link, lname) = find lname links ≡ some link

module _ {R : Reals} {C : Type 0} where
  -- A view as `init_method` leaves it.
  pub record IsView (v : View R C) : Type 0 where
    pub points : All (PointsTo v.link_map) v.slots
    pub listed : (l : Name) → has_slot l v.slots ≡ contains l v.link_map
    pub has_state : (l : Name) → contains l v.state_map ≡ contains l v.link_map

  cache_slot-IsView :
      (link : ℕ) (o : Option Name) (v : View R C) → IsView v → IsView (cache_slot link o v)
  unfolding cache_slot has_slot
  cache_slot-IsView link none v h = h
  cache_slot-IsView link (some lname) v h = record {
    points =
        All-append (PointsTo _) v.slots _
          (All-imp (PointsTo v.link_map) (PointsTo _) v.slots (λ s h'. kept s h') h.points)
          (here, tt);
    listed = λ l. ground (
      arith,
      has_slot-append l v.slots ((link_at lname link (emplace lname link v.link_map), lname) ∷ []),
      h.listed l,
      find-emplace lname l link v.link_map,
      name_beq_iff lname l,
    );
    has_state = λ l. ground (
      arith,
      h.has_state l,
      find-emplace lname l link v.link_map,
      find-emplace lname l (λ i. R.nought) v.state_map,
      name_beq_iff lname l,
    );
  }
    where
      kept : (s : ℕ × Name) → PointsTo v.link_map s → PointsTo (emplace lname link v.link_map) s
      kept (e, l) p = ground (arith, find-emplace lname l link v.link_map, name_beq_iff lname l)

      here :
          PointsTo
            (emplace lname link v.link_map)
            (link_at lname link (emplace lname link v.link_map), lname)
      here = ground (arith, find-emplace lname lname link v.link_map, name_beq_iff lname lname)

  empty_view-IsView : IsView empty_view
  unfolding find has_slot
  empty_view-IsView = record { points = tt; listed = λ l. refl; has_state = λ l. refl }

  cache_slots-IsView :
      {P : Type 0} (ecm : Ecm P) (links : List ℕ) (v : View R C) (calls : List (Call P))
      → IsView v
      → IsView (cache_slots ecm links v calls).0
  unfolding cache_slots
  cache_slots-IsView ecm [] v calls h = h
  cache_slots-IsView ecm (link ∷ links) v calls h =
      let checked = enable_checks link ∷ calls in
      cache_slots-IsView ecm links (cache_slot link (ecm.link_name_of checked link) v) checked
        (cache_slot-IsView link (ecm.link_name_of checked link) v h)

  cache_slots-links :
      {P : Type 0} (ecm : Ecm P) (links : List ℕ) (v : View R C) (calls : List (Call P))
      → ((cache_slots ecm links v calls).0.link_map, (cache_slots ecm links v calls).1)
        ≡ cache_links ecm links v.link_map calls
  unfolding cache_slots cache_links cache_slot
  cache_slots-links ecm [] v calls = refl
  cache_slots-links ecm (link ∷ links) v calls =
      let checked = enable_checks link ∷ calls in
      cache_slots-links ecm links (cache_slot link (ecm.link_name_of checked link) v) checked
      ∙ ap (λ m. cache_links ecm links m checked) (go (ecm.link_name_of checked link))
    where
      go :
          (o : Option Name)
          → (cache_slot link o v).link_map ≡ (elim o as (λ x. Map Name ℕ) [
            | none ↦ v.link_map
            | some lname ↦ emplace lname link v.link_map
          ])
      go none = refl
      go (some lname) = refl

  -- The loop over the links of a model fills the cache of its links as `cache_links` does, with the
  -- same calls; each slot points to the link that has its name there, and exactly the names of links
  -- have a slot and a state.
  pub cache_slots_lem :
      {P : Type 0} (ecm : Ecm P) (links : List ℕ) (calls : List (Call P))
      → (let done = cache_slots {R = R} {C = C} ecm links empty_view calls in
          ((done.0.link_map, done.1) ≡ cache_links ecm links [] calls) × IsView done.0)
  cache_slots_lem ecm links calls = (
    cache_slots-links ecm links empty_view calls,
    cache_slots-IsView ecm links empty_view calls empty_view-IsView,
  )
