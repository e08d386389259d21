-- ===== src/Video/Threads.antt =====
-- The recorder under threads. A caller of `StartRecording` reserves the name in one locked block
-- and queues its command in another; the render thread takes the queue and carries the commands
-- out one by one. `Shutdown` stops one held recording after another. Any caller may act between two
-- such blocks. `recordings` belongs to the render thread: what `DoStop` takes from it is one step
-- with the locked block of `ClearState` behind, and so is what `DoStart` adds to it.
use gz_drl.Base.{
  ◌↔◌, ◌≡◌, refl, Bool, true, false, map, ◌||◌, List, [], ◌∷◌, ◌++◌, some, arith, Name, ℕ, subst,
  sym, ap, name_eq, name_beq_iff,
}
use gz_drl.Base.Map.{find, contains, find-insert}
use gz_drl.Video.Defs.{
  Types, k_active, k_queued, CameraConfig, Command, k_start, k_update_pose, k_stop, Rendering,
  Manager, reserve, enqueue, recording_state, initial, set_scene,
}
use gz_drl.Video.Render.{do_command, recording_names, render_frames, refresh_next_frame_hint}
use gz_drl.Video.Render.Lifecycle.{
  Synced, has_start, do_command-Synced, do_command-commands, render_frames-Synced,
}

-- The manager, the commands that the render thread has taken, and those of callers that have
-- reserved their name and not yet queued the command.
pub record System (T : Types) : Type 0 where
  pub manager : Manager T
  pub taken : List (Command T)
  pub in_flight : List (Command T)

-- A command that is no start.
abbrev pub IsRequest : {T : Types} → Command T → Type 0
IsRequest (k_start name pose output config) = ⊥
IsRequest (k_update_pose name pose) = Unit
IsRequest (k_stop name) = Unit

pub data Step {T : Types} (R : Rendering T) (s : System T) : System T → Type 0 where
  reserves :
      (name : Name) (pose : T.Pose) (output : Name) (config : CameraConfig T) (m : Manager T)
      → reserve name s.manager ≡ some m
      → Step R s (record s {
        manager = m;
        in_flight = s.in_flight ++ k_start name pose output config ∷ [];
      })
  queues :
      (before after : List (Command T)) (c : Command T)
      → s.in_flight ≡ before ++ c ∷ after
      → Step R s (record s { manager = enqueue c s.manager; in_flight = before ++ after })
  requests : (c : Command T) → IsRequest c → Step R s (record s { manager = enqueue c s.manager })
  obtains_scene : (b : Bool) → Step R s (record s { manager = set_scene b s.manager })
  takes :
      s.taken ≡ []
      → s.manager.scene ≡ true
      → Step R s (record s {
        manager = record s.manager { commands = []; pending_commands = 0 };
        taken = s.manager.commands;
      })
  carries_out :
      (c : Command T) (cs : List (Command T))
      → s.taken ≡ c ∷ cs
      → Step R s (record s { manager = do_command R c s.manager; taken = cs })
  draws :
      (t : ℕ)
      → s.taken ≡ []
      → Step R s (record s { manager = refresh_next_frame_hint (render_frames R t s.manager) })
  -- The stops of `Shutdown`, which the render thread then carries out.
  shuts_down :
      s.taken ≡ []
      → Step R s (record s { taken = map k_stop (recording_names s.manager.recordings) })

pub data Reach {T : Types} (R : Rendering T) (s : System T) : System T → Type 0 where
  here : Reach R s s
  next : {u v : System T} → Reach R s u → Step R u v → Reach R s v

-- Every command that has yet to be carried out.
abbrev pub waiting : {T : Types} → System T → List (Command T)
waiting s = s.taken ++ (s.manager.commands ++ s.in_flight)

abbrev pub SystemSynced : {T : Types} → Name → System T → Type 0
SystemSynced n s = Synced n (waiting s) s.manager

has_start-stops :
    (T : Types) (n : Name) (names : List Name) → has_start {T = T} n (map k_stop names) ≡ false
has_start-stops T n [] = refl
has_start-stops T n (name ∷ names) = has_start-stops T n names

module _ {T : Types} (n : Name) where
  pub has_start-append :
      (cs ds : List (Command T)) → has_start n (cs ++ ds) ≡ (has_start n cs || has_start n ds)
  has_start-append [] ds = refl
  has_start-append (k_start name pose output config ∷ cs) ds =
      ground (arith, has_start-append cs ds)
  has_start-append (k_update_pose name pose ∷ cs) ds = has_start-append cs ds
  has_start-append (k_stop name ∷ cs) ds = has_start-append cs ds

  has_start-waiting :
      (s : System T)
      → has_start n (waiting s)
        ≡ (has_start n s.taken || (has_start n s.manager.commands || has_start n s.in_flight))
  has_start-waiting s = rw (has_start-append s.taken, has_start-append s.manager.commands)

module _ {T : Types} (R : Rendering T) (n : Name) where
  pub Step-Synced : {s u : System T} → Step R s u → SystemSynced n s → SystemSynced n u
  unfolding reserve enqueue set_scene refresh_next_frame_hint render_frames
  Step-Synced {s} (reserves name pose output config m e) h = ground (
    arith,
    has_start-waiting n s,
    has_start-append n s.taken
        (s.manager.commands ++ (s.in_flight ++ k_start name pose output config ∷ [])),
    has_start-append n s.manager.commands (s.in_flight ++ k_start name pose output config ∷ []),
    has_start-append n s.in_flight (k_start name pose output config ∷ []),
    name_beq_iff name n,
    find-insert name n k_queued s.manager.states,
  )
  Step-Synced {s} (queues before after c e) h = ground (
    arith,
    ap (has_start n) e,
    has_start-append n before (c ∷ after),
    has_start-append n (c ∷ []) after,
    has_start-append n before after,
    has_start-append n s.manager.commands (c ∷ []),
    has_start-append n (s.manager.commands ++ c ∷ []) (before ++ after),
    has_start-append n s.taken ((s.manager.commands ++ c ∷ []) ++ (before ++ after)),
    has_start-waiting n s,
  )
  Step-Synced {s} (requests c q) h = ground (
    arith,
    has_start-append n s.manager.commands (c ∷ []),
    has_start-append n (s.manager.commands ++ c ∷ []) s.in_flight,
    has_start-append n s.taken ((s.manager.commands ++ c ∷ []) ++ s.in_flight),
    has_start-waiting n s,
  )
  Step-Synced (obtains_scene b) h = h
  Step-Synced {s} (takes e scene) h = ground (
    arith,
    ap (has_start n) e,
    has_start-append n s.manager.commands s.in_flight,
    has_start-waiting n s,
  )
  Step-Synced {s} (carries_out c cs e) h =
      let rest = s.manager.commands ++ s.in_flight in
      let before : Synced n (c ∷ (cs ++ rest)) s.manager =
        subst (λ l. Synced n (l ++ rest) s.manager) e h in
      subst (λ l. Synced n (cs ++ (l ++ s.in_flight)) (do_command R c s.manager))
        (sym (do_command-commands R n c s.manager).0)
        (do_command-Synced R n c (cs ++ rest) s.manager before)
  Step-Synced {s} (draws t e) h = render_frames-Synced R n t (waiting s) s.manager h
  Step-Synced {s} (shuts_down e) h = ground (
    arith,
    ap (has_start n) e,
    has_start-stops T n (recording_names s.manager.recordings),
    has_start-append n (map k_stop (recording_names s.manager.recordings))
        (s.manager.commands ++ s.in_flight),
    has_start-waiting n s,
  )

  Reach-Synced : {s u : System T} → Reach R s u → SystemSynced n s → SystemSynced n u
  Reach-Synced here h = h
  Reach-Synced (next r st) h = Step-Synced st (Reach-Synced r h)

-- A recorder that no thread has called yet.
abbrev pub started : {T : Types} → System T
started = record { manager = initial; taken = []; in_flight = [] }

-- However the threads interleave: a name is active exactly if the render thread holds its
-- recording, and it is queued only while a start command for it is reserved, queued or taken.
pub Reach-started :
    {T : Types} (R : Rendering T) (n : Name) {u : System T}
    → Reach R started u
    → ((recording_state n u.manager ≡ k_active) ↔ (contains n u.manager.recordings ≡ true))
      × (recording_state n u.manager ≡ k_queued → has_start n (waiting u) ≡ true)
unfolding recording_state
Reach-started {T} R n {u} r = ground (arith, Reach-Synced R n r started-Synced)
  where
    started-Synced : SystemSynced {T = T} n started
    started-Synced = unfold find in (refl, λ e. cc)
