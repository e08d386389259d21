-- ===== src/Sim/Views.antt =====
-- The caches of `DRLHelperSystem` that its clients read: the states and contacts of the links of one
-- model, with `init_method`'s loop over the links, `PostUpdate` and the readers of
-- GzDRL/src/rl_server.cc. The maps `pose_datas`, `contacts` and `fast_link_slots` have an entry for
-- each model, which is a `View` here; a slot names the link whose state and contacts it points to.
pub mod Slots
pub mod Measures
use gz_drl.Base.{
  ℕ, zero, suc, Bool, Option, none, some, List, [], ◌∷◌, ◌++◌, if◌then◌else◌, Name, nat_eq, name_eq,
}
use gz_drl.Base.Map.{Map, find, contains, insert, emplace}
use gz_drl.Sim.Defs.{Ecm, Call, enable_checks}

-- Floating-point numbers, and the rotation of a vector by the inverse of a quaternion.
pub record Reals : Type 1 where
  pub Real : Type 0
  pub nought : Real
  pub plus : Real → Real → Real
  pub rotate_reverse : (ℕ → Real) → (ℕ → Real) → ℕ → Real

-- A vector by its coefficients; one that is not listed is never read.
abbrev pub vector : {A : Type 0} → A → List A → ℕ → A
vector z [] i = z
vector z (x ∷ xs) zero = x
vector z (x ∷ xs) (suc i) = vector z xs i

-- What the simulation knows of a link, where it knows all of it. A quaternion has w in front.
pub record Reading (R : Reals) : Type 0 where
  pub pos : ℕ → R.Real
  pub rot : ℕ → R.Real
  pub vel : ℕ → R.Real
  pub omega : ℕ → R.Real
  pub accel : ℕ → R.Real
  pub alpha : ℕ → R.Real

-- A `GZ_state`, a vector of 19.
abbrev pub GzState : Reals → Type 0
GzState R = ℕ → R.Real

-- `C` is a message of contacts.
pub record View (R : Reals) (C : Type 0) : Type 0 where
  pub link_map : Map Name ℕ
  pub state_map : Map Name (GzState R)
  pub contact_map : Map Name (List C)
  pub slots : List (ℕ × Name)

-- `link_map.at(lname)`, which is there.
abbrev pub link_at : Name → ℕ → Map Name ℕ → ℕ
link_at lname link link_map = elim (find lname link_map) [ none ↦ link | some l ↦ l ]

module _ {R : Reals} where
  -- The state that `PostUpdate` writes, before and after the noise.
  unfoldable pub raw_state : Reading R → GzState R
  raw_state r =
      let omega_body = R.rotate_reverse r.rot r.omega in
      let alpha_body = R.rotate_reverse r.rot r.alpha in
      vector R.nought (
        r.pos 0
        ∷ r.pos 1
        ∷ r.pos 2
        ∷ r.rot 0
        ∷ r.rot 1
        ∷ r.rot 2
        ∷ r.rot 3
        ∷ r.vel 0
        ∷ r.vel 1
        ∷ r.vel 2
        ∷ omega_body 0
        ∷ omega_body 1
        ∷ omega_body 2
        ∷ r.accel 0
        ∷ r.accel 1
        ∷ r.accel 2
        ∷ alpha_body 0
        ∷ alpha_body 1
        ∷ alpha_body 2
        ∷ [])

  unfoldable pub measured : GzState R → Reading R → GzState R
  unfolding raw_state
  measured noise r = λ i. R.plus (raw_state r i) (noise i)

module _ {C : Type 0} where
  -- The contact messages of the collisions that have one.
  unfoldable pub contact_messages : (ℕ → Option C) → List ℕ → List C
  contact_messages contact_of [] = []
  contact_messages contact_of (c ∷ cs) = elim (contact_of c) [
    | none ↦ contact_messages contact_of cs
    | some msg ↦ msg ∷ contact_messages contact_of cs
  ]

module _ {R : Reals} {C : Type 0} where
  abbrev pub empty_view : View R C
  empty_view = record { link_map = []; state_map = []; contact_map = []; slots = [] }

  -- One round of `init_method`'s loop over the links.
  unfoldable pub cache_slot : ℕ → Option Name → View R C → View R C
  cache_slot link none v = v
  cache_slot link (some lname) v =
      let links = emplace lname link v.link_map in
      record {
        link_map = links;
        state_map = emplace lname (λ i. R.nought) v.state_map;
        contact_map = emplace lname [] v.contact_map;
        slots = v.slots ++ (link_at lname link links, lname) ∷ [];
      }

  unfoldable pub cache_slots :
      {P : Type 0} → Ecm P → List ℕ → View R C → List (Call P) → View R C × List (Call P)
  unfolding cache_slot
  cache_slots ecm [] v calls = (v, calls)
  cache_slots ecm (link ∷ links) v calls =
      let checked = enable_checks link ∷ calls in
      cache_slots ecm links (cache_slot link (ecm.link_name_of checked link) v) checked

-- What the simulation answers while it is not changed: the readings of a link, its collisions, and
-- the contact data of a collision.
pub record World (R : Reals) (C : Type 0) : Type 0 where
  pub reading : ℕ → Option (Reading R)
  pub collisions : ℕ → List ℕ
  pub contact_data : ℕ → Option C
  pub name_of_link : ℕ → Option Name

module _ {R : Reals} {C : Type 0} (w : World R C) where
  -- One round of `PostUpdate`'s loop over the slots of a model.
  unfoldable pub measure_slot : GzState R → ℕ → Name → Option (Reading R) → View R C → View R C
  unfolding measured contact_messages
  measure_slot noise link lname none v = v
  measure_slot noise link lname (some r) v = record v {
    state_map = insert lname (measured noise r) v.state_map;
    contact_map = insert lname (contact_messages w.contact_data (w.collisions link)) v.contact_map;
  }

  unfoldable pub measure_slots : GzState R → List (ℕ × Name) → View R C → View R C
  unfolding measure_slot
  measure_slots noise [] v = v
  measure_slots noise ((link, lname) ∷ slots) v =
      measure_slots noise slots (measure_slot noise link lname (w.reading link) v)

  -- The loop over the models; `noise` is what the noise processes step to.
  unfoldable pub measure_models : (Name → GzState R) → Map Name (View R C) → Map Name (View R C)
  unfolding measure_slots
  measure_models noise [] = []
  measure_models noise ((name, v) ∷ views) =
      (name, measure_slots (noise name) v.slots v) ∷ measure_models noise views

  unfoldable pub post_update : Bool → (Name → GzState R) → Map Name (View R C) → Map Name (View R C)
  unfolding measure_models
  post_update paused noise views = if paused then views else measure_models noise views

  -- `get_contacts` of a model: the slots whose contacts are not empty and whose link has a name.
  unfoldable pub contacts_of :
      Map Name (List C) → List (ℕ × Name) → Map Name (List C) → Map Name (List C)
  contacts_of contact_map [] out = out
  contacts_of contact_map ((link, lname) ∷ slots) out = elim (find lname contact_map) [
    | none ↦ contacts_of contact_map slots out
    | some [] ↦ contacts_of contact_map slots out
    | some (c ∷ cs) ↦ elim (w.name_of_link link) [
      | none ↦ contacts_of contact_map slots out
      | some name ↦ contacts_of contact_map slots (insert name (c ∷ cs) out)
    ]
  ]

  unfoldable pub get_contacts : Name → Map Name (View R C) → Map Name (List C)
  unfolding contacts_of
  get_contacts model_name views = elim (find model_name views) [
    | none ↦ []
    | some v ↦ contacts_of v.contact_map v.slots []
  ]

  -- `request_contact_data`: the contacts are cleared, and the collisions that shall report them.
  unfoldable pub clear_slots : List (ℕ × Name) → View R C → View R C × List ℕ
  clear_slots [] v = (v, [])
  clear_slots ((link, lname) ∷ slots) v =
      let (v', asked) =
        clear_slots slots (record v { contact_map = insert lname [] v.contact_map }) in
      (v', w.collisions link ++ asked)

  unfoldable pub request_contact_data : Name → Map Name (View R C) → Map Name (View R C) × List ℕ
  unfolding clear_slots
  request_contact_data model_name views = elim (find model_name views) [
    | none ↦ (views, [])
    | some v ↦ let (v', asked) = clear_slots v.slots v in (insert model_name v' views, asked)
  ]

module _ {R : Reals} {C : Type 0} where
  -- The states of a model that may be unknown.
  abbrev pub states_of : Option (View R C) → Map Name (GzState R)
  states_of none = []
  states_of (some v) = v.state_map

  unfoldable pub state_info : Name → Map Name (View R C) → Map Name (GzState R)
  state_info model_name views = states_of (find model_name views)

  -- The result and what stands in `out` behind the call.
  unfoldable pub copy_state_info_fast : Name → Map Name (View R C) → Bool × Map Name (GzState R)
  copy_state_info_fast model_name views =
      (contains model_name views, states_of (find model_name views))

  -- The result and the arguments of the callback, in their order.
  unfoldable pub for_each_state_fast : Name → Map Name (View R C) → Bool × List (Name × GzState R)
  for_each_state_fast model_name views =
      (contains model_name views, states_of (find model_name views))
