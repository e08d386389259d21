-- ===== src/Sim/Update/Settles.antt =====
-- Enough steps of `PreUpdate` work off the requests.
use gz_drl.Base.{
  ℕ, zero, suc, ◌≤◌, ◌≡◌, refl, ap, ◌∙◌, inl, inr, false, some, sym, subst, arith, nat_eq, name_eq,
  Error, Result, ok, throws,
}
use gz_drl.Sim.Defs.{Ecm, Helper}
use gz_drl.Sim.Update.{go_on, pre_update, run_steps}
use gz_drl.Sim.Update.Keeps.{Names, Covers, Grows}
use gz_drl.Sim.Update.Steps.{IsIdle, steps_left, steps_left-IsIdle, Stepped, Steps, all_Steps}

module _ {P : Type 0} (ecm : Ecm P) where
  last_thrown : (x : Error) (h h' : Helper P) → Stepped ecm h h' (throws x) → steps_left h' ≡ 0
  last_thrown x h h' stepped = elim stepped.throws_last [ inl e ↦ ground arith | inr e ↦ e ]

  -- What a run comes to: no request is left, and what had a description has one.
  abbrev pub Settles : ℕ → Helper P → Type 0
  Settles n h =
      (r : Result (Unit {0})) × (h' : Helper P) × (run_steps ecm n h ≡ some (r, h'))
      × IsIdle h'
      × Grows h.model_sdf_objs h'.model_sdf_objs

  -- Where every model to be reset has a description, at least as many steps as are left return or
  -- throw, the last part of the work only, and leave no request in a queue.
  pub run_steps-IsIdle :
      Names ecm
      → (n : ℕ) (h : Helper P) → Covers h.reset_queue h.model_sdf_objs
      → steps_left h ≤ n
      → Settles n h
  unfolding run_steps Steps
  run_steps-IsIdle N zero h d enough =
      (ok tt, h, refl, steps_left-IsIdle h (omega arith), λ k known. known)
  run_steps-IsIdle N (suc n) h d enough =
      let (r, h', e, stepped) = all_Steps ecm N h d in
      go r h' e stepped (λ enough'.
        run_steps-IsIdle N n h'
          (subst (λ qs. Covers qs h'.model_sdf_objs) (sym stepped.none_to_reset) tt) enough')
    where
      go :
          (r : Result (Unit {0})) (h' : Helper P)
          → pre_update ecm false h ≡ some (r, h')
          → Stepped ecm h h' r
          → (steps_left h' ≤ n → Settles n h')
          → Settles (suc n) h
      go (throws x) h' e stepped later = (
        throws x,
        h',
        ap (λ o. go_on o (λ k. run_steps ecm n k)) e,
        steps_left-IsIdle h' (last_thrown x h h' stepped),
        stepped.grows,
      )
      go (ok _) h' e stepped later =
          let (s, k, runs, idle, grows) = later (omega (arith, enough, stepped.one_less)) in
          (
            s,
            k,
            ap (λ o. go_on o (λ k. run_steps ecm n k)) e ∙ runs,
            idle,
            λ m known. grows m (stepped.grows m known),
          )
