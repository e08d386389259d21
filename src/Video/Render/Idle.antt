-- ===== src/Video/Render/Idle.antt =====
-- `RequiresRender`, which the simulation thread asks before it wakes the render thread: where it
-- says no, a render would change nothing.
use gz_drl.Base.{
  ℕ, suc, ◌≤◌, ◌≡◌, refl, ap, sym, subst, true, false, List, [], ◌∷◌, arith, Name, All, length,
  name_eq, Bool-cases, inl, inr, ◌∙◌,
}
use gz_drl.Base.Map.{Map}
use gz_drl.Video.Defs.{Types, Call, Rendering, Recording, Manager, requires_render, int64_max}
use gz_drl.Video.Render.{
  process_commands, render_all, on_render_scene, on_render_no_scene, render_frames, on_render,
  refresh_hint, refresh_next_frame_hint,
}

-- A recording that has yet to warm up is due at once.
abbrev pub IsWarm : {T : Types} → Map Name (Recording T) → Type 0
IsWarm = All (λ p. p.1.warmup ≡ true → p.1.next_frame_time ≡ 0)

abbrev pub DueFrom : {T : Types} → ℕ → Map Name (Recording T) → Type 0
DueFrom t = All (λ p. t ≤ p.1.next_frame_time)

-- What the recorder keeps between calls: the counter of the queue, the hint, and the warm-ups.
pub record IsSettled {T : Types} (m : Manager T) : Type 0 where
  pub counted : m.pending_commands ≡ length m.commands
  pub hinted : m.next_frame_time_ns ≡ refresh_hint int64_max m.recordings
  pub warm : IsWarm m.recordings

length_zero {ℓ} : {A : Type ℓ} (xs : List A) → length xs ≡ 0 → xs ≡ []
length_zero [] e = refl
length_zero (x ∷ xs) e = absurd (omega arith)

module _ {T : Types} where
  refresh_hint-le : (next : ℕ) (recs : Map Name (Recording T)) → refresh_hint next recs ≤ next
  unfolding refresh_hint
  refresh_hint-le next [] = omega arith
  refresh_hint-le next ((name, rec) ∷ recs) =
      ground (arith, refresh_hint-le next recs, refresh_hint-le rec.next_frame_time recs)

  DueFrom-mono : (s t : ℕ) (recs : Map Name (Recording T)) → s ≤ t → DueFrom t recs → DueFrom s recs
  DueFrom-mono s t [] h d = tt
  DueFrom-mono s t ((name, rec) ∷ recs) h d = (omega arith, DueFrom-mono s t recs h d.1)

  refresh_hint-DueFrom :
      (next : ℕ) (recs : Map Name (Recording T)) → DueFrom (refresh_hint next recs) recs
  unfolding refresh_hint
  refresh_hint-DueFrom next [] = tt
  refresh_hint-DueFrom next ((name, rec) ∷ recs) = ground (
    arith,
    refresh_hint-le next recs,
    refresh_hint-le rec.next_frame_time recs,
    refresh_hint-DueFrom next recs,
    refresh_hint-DueFrom rec.next_frame_time recs,
  )

module _ {T : Types} (R : Rendering T) where
  render_all-idle :
      (t : ℕ) (recs : Map Name (Recording T)) (calls : List (Call T))
      → DueFrom (suc t) recs
      → IsWarm recs
      → render_all R t recs calls ≡ (recs, calls)
  unfolding render_all
  render_all-idle t [] calls d w = refl
  render_all-idle t ((name, rec) ∷ recs) calls d w =
      ground (arith, render_all-idle t recs calls d.1 w.1)

  process_commands-idle :
      (m : Manager T) → m.commands ≡ [] → m.pending_commands ≡ 0 → process_commands R m ≡ m
  unfolding process_commands
  process_commands-idle m e p = ground arith

  render_frames-idle :
      (t : ℕ) (m : Manager T)
      → DueFrom (suc t) m.recordings
      → IsWarm m.recordings
      → render_frames R t m ≡ m
  unfolding render_frames
  render_frames-idle t m d w = ground (arith, render_all-idle t m.recordings m.calls d w)

  refresh-idle :
      (m : Manager T)
      → m.next_frame_time_ns ≡ refresh_hint int64_max m.recordings
      → refresh_next_frame_hint m ≡ m
  unfolding refresh_next_frame_hint
  refresh-idle m e = ground arith

  requires_render-false :
      (t : ℕ) (m : Manager T)
      → IsSettled m
      → requires_render t m ≡ false
      → (m.commands ≡ []) × (m.pending_commands ≡ 0) × DueFrom (suc t) m.recordings
  unfolding requires_render
  requires_render-false t m s h =
      let due : DueFrom m.next_frame_time_ns m.recordings =
        subst (λ k. DueFrom k m.recordings) (sym s.hinted)
          (refresh_hint-DueFrom int64_max m.recordings) in
      (
        ground (arith, s.counted, length_zero m.commands),
        ground arith,
        DueFrom-mono (suc t) m.next_frame_time_ns m.recordings (ground arith) due,
      )

  -- Where the recorder asks for no render, `OnRender` changes nothing and calls nothing, so that
  -- leaving it out is safe; the recorder is in a state that its own operations reach.
  pub on_render-idle :
      (t : ℕ) (m : Manager T) → IsSettled m → requires_render t m ≡ false → on_render R t m ≡ m
  on_render-idle t m s h = elim (Bool-cases m.scene) [
    | inl there ↦
        let (none_left, none_counted, later) = requires_render-false t m s h in
        on_render_scene R t m there
        ∙ ap (λ k. refresh_next_frame_hint (render_frames R t k))
            (process_commands-idle m none_left none_counted)
        ∙ ap refresh_next_frame_hint (render_frames-idle t m later s.warm)
        ∙ refresh-idle m s.hinted
    | inr missing ↦ on_render_no_scene R t m missing
  ]
