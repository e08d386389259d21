-- ===== src/Sim/Server.antt =====
-- `DRLServer::run_N`, `reset_pos` and `respawn_model` of GzDRL/src/rl_server.cc, by what they do to
-- the system inside the simulation. The markers that they reset are not part of it. The number of
-- steps is an `int` in the source; 0 stands for every number that is not positive.
pub mod Writes
use gz_drl.Base.{
  ℕ, zero, suc, ◌++◌, ◌≤◌, ◌≡◌, refl, sym, subst, ap, ◌∙◌, true, false, Option, none, some, List,
  [], ◌∷◌, arith, nat_beq, if◌then◌else◌, Name, nat_eq, name_eq, invalid_argument, Result, throws,
}
use gz_drl.Base.Map.{Map, contains}
use gz_drl.Sim.Defs.{SdfModel, Call, Ecm, Helper}
use gz_drl.Sim.Update.{Outcome, reset_pos, respawn_model, run_steps}
use gz_drl.Sim.Update.Keeps.{Names, Covers, Grows}
use gz_drl.Sim.Update.Steps.{
  IsIdle, steps_left, steps_left-none, steps_left-reset, steps_left-respawn,
}
use gz_drl.Sim.Update.Settles.{run_steps-IsIdle}

module _ {P : Type 0} (ecm : Ecm P) where
  unfoldable pub run_n : ℕ → Helper P → Option (Outcome (Helper P))
  unfolding run_steps
  run_n n h = if nat_beq n 0 then some (throws invalid_argument, h) else run_steps ecm n h

  abbrev pub stabilization_steps : ℕ
  stabilization_steps = 3

  unfoldable pub reset_model_pos : Name → P → Helper P → Option (Outcome (Helper P))
  unfolding run_n reset_pos
  reset_model_pos model_name pose h = run_n stabilization_steps (reset_pos model_name pose h)

  unfoldable pub respawn : Name → P → Helper P → Option (Outcome (Helper P))
  unfolding run_n respawn_model
  respawn model_name pose h = run_n stabilization_steps (respawn_model model_name pose h)

-- The calls of a client.
pub data ServerCall (P : Type 0) : Type 0 where
  run_request : ℕ → ServerCall P
  reset_request respawn_request : Name → P → ServerCall P

module _ {P : Type 0} (ecm : Ecm P) where
  -- A client that catches every exception and goes on.
  abbrev pub go_on_anyway :
      Option (Outcome (Helper P)) → (Helper P → Option (Helper P)) → Option (Helper P)
  go_on_anyway none next = none
  go_on_anyway (some (r, h)) next = next h

  unfoldable pub serve_one : ServerCall P → Helper P → Option (Outcome (Helper P))
  unfolding run_n reset_model_pos respawn
  serve_one (run_request n) h = run_n ecm n h
  serve_one (reset_request model_name pose) h = reset_model_pos ecm model_name pose h
  serve_one (respawn_request model_name pose) h = respawn ecm model_name pose h

  unfoldable pub serve : List (ServerCall P) → Helper P → Option (Helper P)
  unfolding serve_one
  serve [] h = some h
  serve (c ∷ cs) h = go_on_anyway (serve_one c h) (λ h'. serve cs h')

  -- The models that these calls reset have descriptions.
  abbrev pub Resets : List (ServerCall P) → Map Name (SdfModel P) → Type 0
  Resets [] sdfs = Unit
  Resets (run_request n ∷ cs) sdfs = Resets cs sdfs
  Resets (respawn_request name pose ∷ cs) sdfs = Resets cs sdfs
  Resets (reset_request name pose ∷ cs) sdfs = (contains name sdfs ≡ true) × Resets cs sdfs

  grown-Resets :
      (cs : List (ServerCall P)) (sdfs sdfs' : Map Name (SdfModel P))
      → Grows sdfs sdfs'
      → Resets cs sdfs
      → Resets cs sdfs'
  grown-Resets [] sdfs sdfs' grows d = tt
  grown-Resets (run_request n ∷ cs) sdfs sdfs' grows d = grown-Resets cs sdfs sdfs' grows d
  grown-Resets (respawn_request name pose ∷ cs) sdfs sdfs' grows d =
      grown-Resets cs sdfs sdfs' grows d
  grown-Resets (reset_request name pose ∷ cs) sdfs sdfs' grows (known, d) =
      (grows name known, grown-Resets cs sdfs sdfs' grows d)

  -- A call comes back, and leaves no request in a queue.
  abbrev Served : ServerCall P → Helper P → Type 0
  Served c h =
      (r : Result (Unit {0})) × (h' : Helper P) × (serve_one c h ≡ some (r, h'))
      × IsIdle h'
      × Grows h.model_sdf_objs h'.model_sdf_objs

  rested :
      Names ecm
      → (n : ℕ) (h : Helper P) → Covers h.reset_queue h.model_sdf_objs
      → steps_left h ≤ suc n
      → (r : Result (Unit {0})) × (h' : Helper P) × (run_n ecm (suc n) h ≡ some (r, h'))
        × IsIdle h'
        × Grows h.model_sdf_objs h'.model_sdf_objs
  unfolding run_n
  rested N n h d enough =
      let (r, h', e, idle, grows) = run_steps-IsIdle ecm N (suc n) h d enough in
      let something : nat_beq (suc n) 0 ≡ false = ground arith in
      (r, h', rw something e, idle, grows)

  none_covered : (h : Helper P) → IsIdle h → Covers h.reset_queue h.model_sdf_objs
  none_covered h idle = subst (λ qs. Covers qs h.model_sdf_objs) (sym idle.no_reset) tt

  serve_one-Served :
      Names ecm
      → (c : ServerCall P) (h : Helper P) → IsIdle h
      → Resets (c ∷ []) h.model_sdf_objs
      → Served c h
  unfolding serve_one run_n reset_model_pos respawn reset_pos respawn_model
  serve_one-Served N (run_request zero) h idle d =
      (throws invalid_argument, h, refl, idle, λ n known. known)
  serve_one-Served N (run_request (suc n)) h idle d =
      rested N n h (none_covered h idle) (omega (arith, steps_left-none h idle))
  serve_one-Served N (reset_request name pose) h idle (known, d) =
      rested N 2 (reset_pos name pose h)
        (subst (λ qs. Covers (qs ++ (name, pose) ∷ []) h.model_sdf_objs) (sym idle.no_reset)
          (known, tt))
        (omega (arith, steps_left-reset name pose h idle))
  serve_one-Served N (respawn_request name pose) h idle d =
      rested N 2 (respawn_model name pose h) (none_covered h idle)
        (omega (arith, steps_left-respawn name pose h idle))

  first_of :
      (c : ServerCall P) (cs : List (ServerCall P)) (sdfs : Map Name (SdfModel P))
      → Resets (c ∷ cs) sdfs
      → Resets (c ∷ []) sdfs × Resets cs sdfs
  first_of (run_request n) cs sdfs d = (tt, d)
  first_of (respawn_request name pose) cs sdfs d = (tt, d)
  first_of (reset_request name pose) cs sdfs (known, d) = ((known, tt), d)

  -- Whatever a client calls, one after another, every call comes back, by a return or an exception,
  -- and leaves no request in a queue: three steps are enough for a reset and for a respawn. The
  -- system starts with no request, every model that the client resets has a description at the
  -- start, the entity that is found by a name has this name, and writing or removing a component
  -- changes no name.
  pub serve-IsIdle :
      Names ecm
      → (cs : List (ServerCall P)) (h : Helper P) → IsIdle h
      → Resets cs h.model_sdf_objs
      → (h' : Helper P) × (serve cs h ≡ some h') × IsIdle h'
  unfolding serve
  serve-IsIdle N [] h idle d = (h, refl, idle)
  serve-IsIdle N (c ∷ cs) h idle d =
      let (this, others) = first_of c cs h.model_sdf_objs d in
      let (r, h', e, idle', grows) = serve_one-Served N c h idle this in
      let (k, serves, idle'') =
        serve-IsIdle N cs h' idle'
          (grown-Resets cs h.model_sdf_objs h'.model_sdf_objs grows others) in
      (k, ap (λ o. go_on_anyway o (λ g. serve cs g)) e ∙ serves, idle'')
