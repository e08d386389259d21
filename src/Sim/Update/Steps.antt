-- ===== src/Sim/Update/Steps.antt =====
-- What is left to do after one step of `PreUpdate`.
use gz_drl.Base.{
  ℕ, ◌+◌, ◌-◌, ◌≤◌, ◌≡◌, refl, ap, ◌∙◌, ◌⊎◌, inl, inr, Bool, true, false, not, Option, none, some,
  List, [], ◌∷◌, ◌++◌, arith, if◌then◌else◌, Name, nat_eq, name_eq, Result, ok,
}
use gz_drl.Sim.Defs.{Call, Ecm, Request, Helper}
use gz_drl.Sim.Update.{
  Outcome, reset_pos, respawn_model, cache_models, init_caches, release_all, remove_all, spawn_all,
  pre_update,
}
use gz_drl.Sim.Update.Keeps.{
  Names, Covers, Grows, reset_all-some, cache_models-Keeps, spawn_all-Keeps,
}

abbrev is_idle : {A : Type 0} → List A → Bool
is_idle [] = true
is_idle (x ∷ xs) = false

is_idle-nil : {A : Type 0} (xs : List A) → is_idle xs ≡ true → xs ≡ []
is_idle-nil [] h = refl
is_idle-nil (x ∷ xs) h = ground arith

is_idle-append : {A : Type 0} (xs : List A) (y : A) (ys : List A) → is_idle (xs ++ y ∷ ys) ≡ false
is_idle-append [] y ys = refl
is_idle-append (x ∷ xs) y ys = refl

module _ {P : Type 0} where
  -- The queues are empty.
  pub record IsIdle (h : Helper P) : Type 0 where
    pub no_reset : h.reset_queue ≡ []
    pub no_post_reset : h.post_reset_queue ≡ []
    pub no_respawn : h.respawn_queue ≡ []
    pub no_post_respawn : h.post_respawn_queue ≡ []

  -- The steps that are left: two for the resets, and two for the respawns behind them.
  unfoldable pub steps_left : Helper P → ℕ
  steps_left h =
      let respawns =
        if not (is_idle h.respawn_queue)
        then 2
        else if is_idle h.post_respawn_queue
        then 0
        else 1 in
      if not (is_idle h.reset_queue)
      then 2 + respawns
      else if is_idle h.post_reset_queue
      then respawns
      else 1 + respawns

  pub steps_left-IsIdle : (h : Helper P) → steps_left h ≡ 0 → IsIdle h
  unfolding steps_left
  steps_left-IsIdle h e = record {
    no_reset = is_idle-nil h.reset_queue (ground arith);
    no_post_reset = is_idle-nil h.post_reset_queue (ground arith);
    no_respawn = is_idle-nil h.respawn_queue (ground arith);
    no_post_respawn = is_idle-nil h.post_respawn_queue (ground arith);
  }

  pub steps_left-le : (h : Helper P) → steps_left h ≤ 4
  unfolding steps_left
  steps_left-le h = ground arith

module _ {P : Type 0} (ecm : Ecm P) where
  -- One step does one part of the work, and throws at the last part only.
  pub record Stepped (h h' : Helper P) (r : Result (Unit {0})) : Type 0 where
    pub one_less : steps_left h' ≡ steps_left h - 1
    pub none_to_reset : h'.reset_queue ≡ []
    pub grows : Grows h.model_sdf_objs h'.model_sdf_objs
    pub throws_last : (r ≡ ok tt) ⊎ (steps_left h' ≡ 0)

  unfoldable pub Steps : Helper P → Type 0
  Steps h =
      (r : Result (Unit {0})) × (h' : Helper P) × (pre_update ecm false h ≡ some (r, h'))
      × Stepped h h' r

  reset_Steps :
      (N : Names ecm) (h : Helper P) (q : Request P) (qs : List (Request P))
      → Covers (q ∷ qs) h.model_sdf_objs
      → Steps (record h { reset_queue = q ∷ qs })
  unfolding Steps pre_update steps_left
  reset_Steps N h q qs d =
      let (calls, e) = reset_all-some ecm N (q ∷ qs) h.model_sdf_objs h.calls d in
      let after = λ (o : Option (List (Call P))). elim o as (λ x. Option (Outcome (Helper P))) [
        | none ↦ none
        | some calls' ↦ some (
          ok tt,
          record h {
            post_reset_queue = h.post_reset_queue ++ q ∷ qs;
            reset_queue = [];
            calls = calls';
          },
        )
      ] in
      (
        ok tt,
        record h {
          post_reset_queue = h.post_reset_queue ++ q ∷ qs;
          reset_queue = [];
          calls = calls;
        },
        ap after e,
        record {
          one_less = rw (is_idle-append h.post_reset_queue q qs) (omega arith);
          none_to_reset = refl;
          grows = λ n known. known;
          throws_last = inl refl;
        },
      )

  release_Steps :
      (h : Helper P) (q : Request P) (qs : List (Request P))
      → Steps (record h { reset_queue = []; post_reset_queue = q ∷ qs })
  unfolding Steps pre_update steps_left
  release_Steps h q qs = (
    ok tt,
    record h { reset_queue = []; post_reset_queue = []; calls = release_all ecm (q ∷ qs) h.calls },
    refl,
    record {
      one_less = omega arith;
      none_to_reset = refl;
      grows = λ n known. known;
      throws_last = inl refl;
    },
  )

  remove_Steps :
      (h : Helper P) (q : Request P) (qs : List (Request P))
      → Steps (record h { reset_queue = []; post_reset_queue = []; respawn_queue = q ∷ qs })
  unfolding Steps pre_update steps_left
  remove_Steps h q qs = (
    ok tt,
    record h {
      reset_queue = [];
      post_reset_queue = [];
      respawn_queue = [];
      post_respawn_queue = h.post_respawn_queue ++ q ∷ qs;
      calls = remove_all ecm (q ∷ qs) h.calls;
    },
    refl,
    record {
      one_less = rw (is_idle-append h.post_respawn_queue q qs) refl;
      none_to_reset = refl;
      grows = λ n known. known;
      throws_last = inl refl;
    },
  )

  spawn_Steps :
      (h : Helper P) (q : Request P) (qs : List (Request P))
      → Steps (record h {
        reset_queue = [];
        post_reset_queue = [];
        respawn_queue = [];
        post_respawn_queue = q ∷ qs;
      })
  unfolding Steps pre_update steps_left init_caches
  spawn_Steps h q qs =
      let h0 : Helper P = record h {
        reset_queue = [];
        post_reset_queue = [];
        respawn_queue = [];
        post_respawn_queue = q ∷ qs;
      } in
      let spawned : Helper P = record (spawn_all ecm (q ∷ qs) h0) { post_respawn_queue = [] } in
      let s = spawn_all-Keeps ecm (q ∷ qs) h0 in
      let k = cache_models-Keeps ecm spawned.model_names spawned in
      let (r, h') = cache_models ecm spawned.model_names spawned in
      let idle : steps_left h' ≡ 0 = rw (
        k.same_reset, k.same_post_reset, k.same_respawn, k.same_post_respawn, s.same_reset,
        s.same_post_reset, s.same_respawn,
      ) in
      (
        r,
        h',
        refl,
        record {
          one_less = idle;
          none_to_reset = k.same_reset ∙ s.same_reset;
          grows = λ n known. k.grows n (s.grows n known);
          throws_last = inr idle;
        },
      )

  idle_Steps :
      (h : Helper P)
      → Steps (record h {
        reset_queue = [];
        post_reset_queue = [];
        respawn_queue = [];
        post_respawn_queue = [];
      })
  unfolding Steps pre_update steps_left
  idle_Steps h = (
    ok tt,
    _,
    refl,
    record {
      one_less = refl;
      none_to_reset = refl;
      grows = λ n known. known;
      throws_last = inl refl;
    },
  )

  any_Steps :
      (N : Names ecm) (q1 q2 q3 q4 : List (Request P)) (h : Helper P)
      → Covers q1 h.model_sdf_objs
      → Steps (record h {
        reset_queue = q1;
        post_reset_queue = q2;
        respawn_queue = q3;
        post_respawn_queue = q4;
      })
  any_Steps N (q ∷ qs) q2 q3 q4 h d =
      reset_Steps N
        (record h { post_reset_queue = q2; respawn_queue = q3; post_respawn_queue = q4 }) q qs d
  any_Steps N [] (q ∷ qs) q3 q4 h d =
      release_Steps (record h { respawn_queue = q3; post_respawn_queue = q4 }) q qs
  any_Steps N [] [] (q ∷ qs) q4 h d = remove_Steps (record h { post_respawn_queue = q4 }) q qs
  any_Steps N [] [] [] (q ∷ qs) h d = spawn_Steps h q qs
  any_Steps N [] [] [] [] h d = idle_Steps h

  pub all_Steps : (N : Names ecm) (h : Helper P) → Covers h.reset_queue h.model_sdf_objs → Steps h
  all_Steps N h d =
      any_Steps N h.reset_queue h.post_reset_queue h.respawn_queue h.post_respawn_queue h d

module _ {P : Type 0} where
  pub steps_left-none : (h : Helper P) → IsIdle h → steps_left h ≡ 0
  unfolding steps_left
  steps_left-none h idle =
      rw (idle.no_reset, idle.no_post_reset, idle.no_respawn, idle.no_post_respawn)

  -- A request at rest is worked off in two steps.
  pub steps_left-reset :
      (name : Name) (pose : P) (h : Helper P) → IsIdle h → steps_left (reset_pos name pose h) ≡ 2
  unfolding steps_left reset_pos
  steps_left-reset name pose h idle =
      rw (idle.no_reset, idle.no_respawn, idle.no_post_respawn) (omega arith)

  pub steps_left-respawn :
      (name : Name) (pose : P) (h : Helper P)
      → IsIdle h
      → steps_left (respawn_model name pose h) ≡ 2
  unfolding steps_left respawn_model
  steps_left-respawn name pose h idle =
      rw (idle.no_reset, idle.no_post_reset, idle.no_respawn) (omega arith)
