-- ===== src/Sim/Limits.antt =====
-- `DRLServer::FirstOrderFilter` of GzDRL/include/rl_server.hh and the maps of rate limiters that
-- `DRLServer` keeps, one for each kind of command, in GzDRL/src/rl_server.cc. A key is a model's name
-- with a link's.
use gz_drl.Base.{
  ◌≡◌, refl, sym, ap, subst, ◌∙◌, inl, inr, Bool, true, Option, none, some, List, [], ◌∷◌,
  if◌then◌else◌, Bool-cases, length, nat_beq, Name, nat_eq, name_eq, both_eq, both_equal,
  both_equal_iff,
}
use gz_drl.Base.Map.{Map, find, insert, find-insert}

-- Floating-point numbers. `decay dt tau` is `exp(-dt / max(tau, 1e-9))`, and `blend a p x` is
-- `a * p + (1 - a) * x`.
pub record Filtering : Type 1 where
  pub Real : Type 0
  pub gt : Real → Real → Bool
  pub decay : Real → Real → Real
  pub blend : Real → Real → Real → Real
  -- What Eigen comes to for a state and an input of two lengths, which it does not define.
  pub of_two_lengths : List Real → List Real → List Real

module _ (F : Filtering) where
  pub record Filter : Type 0 where
    pub time_constant_up : F.Real
    pub time_constant_down : F.Real
    pub previous_state : List F.Real
    pub initial_state : List F.Real

module _ (F : Filtering) where
  -- One coefficient of `UpdateFilter` after another, of vectors of one length.
  unfoldable pub smooth : F.Real → F.Real → F.Real → List F.Real → List F.Real → List F.Real
  smooth up down dt [] input = []
  smooth up down dt (p ∷ ps) [] = []
  smooth up down dt (p ∷ ps) (x ∷ xs) =
      let tau = if F.gt x p then up else down in
      F.blend (F.decay dt tau) p x ∷ smooth up down dt ps xs

module _ {F : Filtering} where
  unfoldable pub new_filter : F.Real → F.Real → List F.Real → Filter F
  new_filter up down initial = record {
    time_constant_up = up;
    time_constant_down = down;
    previous_state = initial;
    initial_state = initial;
  }

  unfoldable pub reset_filter : Filter F → Filter F
  reset_filter f = record f { previous_state = f.initial_state }

  unfoldable pub update_filter : F.Real → List F.Real → Filter F → List F.Real × Filter F
  unfolding smooth
  update_filter dt input f =
      let state =
        if nat_beq (length f.previous_state) (length input)
        then smooth F f.time_constant_up f.time_constant_down dt f.previous_state input
        else F.of_two_lengths f.previous_state input in
      (state, record f { previous_state = state })

-- `ctbr_rate_limiters` and its like.
abbrev pub Limiters : Filtering → Type 0
Limiters F = Map (Name × Name) (Filter F)

module _ {F : Filtering} where
  unfoldable pub set_time_constants :
      Name → Name → F.Real → F.Real → List F.Real → Limiters F → Limiters F
  unfolding new_filter
  set_time_constants model_name link_name up down initial limiters =
      insert (model_name, link_name) (new_filter up down initial) limiters

  -- The part of a command's setter that limits it, with the limiter that is found: the command as it
  -- is sent on.
  unfoldable pub limit_by :
      Option (Filter F) → F.Real → Name × Name → List F.Real → Limiters F → List F.Real × Limiters F
  unfolding update_filter
  limit_by none dt key cmd limiters = (cmd, limiters)
  limit_by (some f) dt key cmd limiters =
      let (cmd', f') = update_filter dt cmd f in (cmd', insert key f' limiters)

  unfoldable pub limit : F.Real → Name → Name → List F.Real → Limiters F → List F.Real × Limiters F
  unfolding limit_by
  limit dt model_name link_name cmd limiters =
      limit_by (find (model_name, link_name) limiters) dt (model_name, link_name) cmd limiters

  unfoldable pub reset_found : Option (Filter F) → Name × Name → Limiters F → Limiters F
  unfolding reset_filter
  reset_found none key limiters = limiters
  reset_found (some f) key limiters = insert key (reset_filter f) limiters

  unfoldable pub reset_limiter : Name → Name → Limiters F → Limiters F
  unfolding reset_found
  reset_limiter model_name link_name limiters =
      reset_found (find (model_name, link_name) limiters) (model_name, link_name) limiters

  -- The commands to any links, one after another, as they are sent on.
  unfoldable pub limit_all :
      F.Real → List (Name × Name × List F.Real) → Limiters F → List (List F.Real) × Limiters F
  unfolding limit
  limit_all dt [] limiters = ([], limiters)
  limit_all dt ((model_name, link_name, cmd) ∷ cmds) limiters =
      let (sent, after) = limit dt model_name link_name cmd limiters in
      let (sents, end) = limit_all dt cmds after in (sent ∷ sents, end)

  -- Filters that differ in their last state only.
  abbrev pub Alike : Filter F → Filter F → Type 0
  Alike f g =
      (f.time_constant_up ≡ g.time_constant_up)
      × (f.time_constant_down ≡ g.time_constant_down)
      × (f.initial_state ≡ g.initial_state)

  -- What a limiter is while commands pass.
  abbrev pub Tuned : Filter F → Name × Name → Limiters F → Type 0
  Tuned f k limiters = (g : Filter F) × (find k limiters ≡ some g) × Alike f g

  limit_by-Tuned :
      (o : Option (Filter F)) (dt : F.Real) (f : Filter F) (k j : Name × Name) (cmd : List F.Real)
      (limiters : Limiters F)
      → find j limiters ≡ o
      → Tuned f k limiters
      → Tuned f k (limit_by o dt j cmd limiters).1
  unfolding limit_by update_filter
  limit_by-Tuned none dt f k j cmd limiters known (g, e, a) = (g, e, a)
  limit_by-Tuned (some h) dt f k j cmd limiters known (g, e, a) =
      elim (Bool-cases (both_equal j k)) [
        | inl here ↦
            let same : j ≡ k = (both_equal_iff j k).0 here in
            let g_is_h : ◌≡◌ {A = Option (Filter F)} (some g) (some h) =
              sym e ∙ ap (λ i. find i limiters) (sym same) ∙ known in
            let g_h : g ≡ h = cc in
            (
              (update_filter dt cmd h).1,
              find-insert j k _ limiters ∙ rw here,
              subst (Alike f) g_h a,
            )
        | inr there ↦ (g, find-insert j k _ limiters ∙ rw there e, a)
      ]

  limit_all-Tuned :
      (dt : F.Real) (cmds : List (Name × Name × List F.Real)) (f : Filter F) (k : Name × Name)
      (limiters : Limiters F)
      → Tuned f k limiters
      → Tuned f k (limit_all dt cmds limiters).1
  unfolding limit_all limit
  limit_all-Tuned dt [] f k limiters t = t
  limit_all-Tuned dt ((m, l, cmd) ∷ cmds) f k limiters t =
      limit_all-Tuned dt cmds f k (limit dt m l cmd limiters).1
        (limit_by-Tuned (find (m, l) limiters) dt f k (m, l) cmd limiters refl t)

  reset-new :
      (up down : F.Real) (initial : List F.Real) (g : Filter F)
      → Alike (new_filter up down initial) g
      → reset_filter g ≡ new_filter up down initial
  unfolding reset_filter new_filter
  reset-new up down initial g (e1, e2, e3) = rw (sym e1, sym e2, sym e3)

  limit_by-sent :
      (o : Option (Filter F)) (dt : F.Real) (k : Name × Name) (cmd : List F.Real)
      (limiters limiters' : Limiters F)
      → (limit_by o dt k cmd limiters).0 ≡ (limit_by o dt k cmd limiters').0
  unfolding limit_by
  limit_by-sent none dt k cmd limiters limiters' = refl
  limit_by-sent (some f) dt k cmd limiters limiters' = refl

  -- Whatever commands have passed since the time constants of a link were set, and to whatever links,
  -- resetting its limiter makes it the new one again: the next command is limited as the first was.
  pub limit-reset_limiter :
      (dt : F.Real) (m l : Name) (up down : F.Real) (initial : List F.Real)
      (cmds : List (Name × Name × List F.Real)) (limiters : Limiters F) (cmd : List F.Real)
      → (let tuned = set_time_constants m l up down initial limiters in
          let after = (limit_all dt cmds tuned).1 in
          (find (m, l) (reset_limiter m l after) ≡ find (m, l) tuned)
          × ((limit dt m l cmd (reset_limiter m l after)).0 ≡ (limit dt m l cmd tuned).0))
  unfolding limit set_time_constants reset_limiter reset_found
  limit-reset_limiter dt m l up down initial cmds limiters cmd =
      let new = new_filter up down initial in
      let tuned = set_time_constants m l up down initial limiters in
      let after = (limit_all dt cmds tuned).1 in
      let k : Name × Name = (m, l) in
      let same : both_equal k k ≡ true = (both_equal_iff k k).1 refl in
      let start : find k tuned ≡ some new = find-insert k k new limiters ∙ rw same in
      let (g, e, alike) = limit_all-Tuned dt cmds new k tuned (new, start, (refl, refl, refl)) in
      let back : find k (reset_limiter m l after) ≡ some new =
        ap (λ o. find k (reset_found o k after)) e
        ∙ find-insert k k (reset_filter g) after
        ∙ ap (λ b. if b then some (reset_filter g) else find k after) same
        ∙ ap some (reset-new up down initial g alike) in
      (
        back ∙ sym start,
        ap (λ o. (limit_by o dt k cmd (reset_limiter m l after)).0) (back ∙ sym start)
            ∙ limit_by-sent (find k tuned) dt k cmd _ _,
      )
