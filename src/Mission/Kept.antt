-- ===== src/Mission/Kept.antt =====
-- src/core/loop/mission-loop-handler.ts: what handleMissionIdle and the end of a countdown do to the prompts and to
-- the states of the compaction guard.
use open_supervisor.Mission.World.{handle_mission_complete, World, Around, remove_at}
use open_supervisor.Mission.Tracker.{default_stagnation_threshold, is_stagnant, track_progress}
use open_supervisor.Verify.Completion.{VerificationResult}
use open_supervisor.Mission.State.{put, cancel_countdown, get_state, Store, Continuation}
use open_supervisor.Mission.Runs.{if_intro}
use open_supervisor.Loop.Guard.{is_compaction_safe, CompactionStates}
use open_supervisor.Todos.Text.{Text}
use open_supervisor.Mission.LoopState.{
  read_loop_state, increment_iteration, clear_loop_state, LoopFile, MissionLoopState,
}
use open_supervisor.Mission.Handler.{
  too_soon, is_other, idle_checked, idle_verified, fire_for, idle_loop, noted, verify,
  inject_continuation, idle,
}
use open_supervisor.Prelude.{
  refl, sym, subst, str_eq, none, not, some, Option, List, ◌≡◌, Bool, String, ℕ,
}
use open_supervisor.Loop.Circuit.{should_trip_circuit, is_circuit_open}

pub record Kept (v w : World) : Type 0 where
  pub prompts : v.prompts ≡ w.prompts
  pub compactions : v.compactions ≡ w.compactions

pub handle_mission_complete-Kept :
    (removes : Bool) (loop : MissionLoopState) (v w : World)
    → Kept v w
    → Kept (handle_mission_complete removes loop v) w
unfolding handle_mission_complete
handle_mission_complete-Kept removes loop v w k =
    if_intro (λ u. Kept u w) (clear_loop_state removes v.file).1
      (λ b. record { prompts = k.prompts; compactions = k.compactions })
      (λ b. record { prompts = k.prompts; compactions = k.compactions })

noted-Kept :
    (a : Around) (session : String) (ident : ℕ) (stagnant : Bool) (progress : ℕ × ℕ)
    (r : LoopFile × Option MissionLoopState) (v w : World)
    → Kept v w
    → Kept (noted a session ident stagnant progress r v) w
noted-Kept a session ident stagnant progress (file, none) v w k = record {
  prompts = k.prompts;
  compactions = k.compactions;
}
noted-Kept a session ident stagnant progress (file, some loop) v w k = record {
  prompts = k.prompts;
  compactions = k.compactions;
}

idle_verified-Kept :
    (a : Around) (now : ℕ) (session : String) (ident : ℕ) (loop : MissionLoopState)
    (r : List ℕ × VerificationResult) (v w : World)
    → Kept v w
    → Kept (idle_verified a now session ident loop r v) w
idle_verified-Kept a now session ident loop r v w k =
    if_intro (λ u. Kept u w) r.1.passed
      (λ passed.
        handle_mission_complete-Kept a.removes loop _ w
          (record { prompts = k.prompts; compactions = k.compactions }))
      (λ failed.
        if_intro (λ u. Kept u w) (should_trip_circuit now session v.circuits).1
          (λ tripped. record { prompts = k.prompts; compactions = k.compactions })
          (λ calm.
            let t = track_progress now session r.1.todo_incomplete none v.trackers in
            noted-Kept a session ident (is_stagnant session default_stagnation_threshold t.0)
              r.1.todo_progress (increment_iteration a.first_write now v.file) _ w
              (record { prompts = k.prompts; compactions = k.compactions })))

pub idle-Kept :
    (to_lower : Text → Text) (a : Around) (now : ℕ) (session : String) (w : World)
    → Kept (idle to_lower a now session w) w
unfolding idle verify
idle-Kept to_lower a now session w =
    let r = get_state now session w.store in
    if_intro P (too_soon now r.0.last_check_time)
      (λ b. record { prompts = refl; compactions = refl })
      (λ later.
        checked r.0.ident
          (record w {
            store =
                cancel_countdown session
                  (put session (record r.0 { last_check_time = some now }) r.1);
          })
          (record { prompts = refl; compactions = refl }))
  where
    P : World → Type 0
    P u = Kept u w

    by_loop :
        (ident : ℕ) (o : Option MissionLoopState) (v : World)
        → Kept v w
        → Kept (idle_loop to_lower a now session ident o v) w
    by_loop ident none v k = k
    by_loop ident (some loop) v k =
        if_intro P (not loop.active) (λ over. k)
          (λ on.
            if_intro P (not (str_eq loop.session_id session)) (λ other. k)
              (λ own.
                idle_verified-Kept a now session ident loop (verify to_lower a.files v) v w k))

    checked :
        (ident : ℕ) (v : World) → Kept v w → Kept (idle_checked to_lower a now session ident v) w
    checked ident v k =
        if_intro P (is_other session a.main_session) (λ b. k)
          (λ main.
            if_intro P a.recovering (λ b. k)
              (λ well.
                if_intro P a.background (λ b. k)
                  (λ free. by_loop ident (read_loop_state v.file) v k)))

-- The states of the compaction guard after a countdown: as they were, or as the guard's answer leaves them.
pub fire-compactions {ℓ} :
    (P : CompactionStates → Type ℓ) (to_lower : Text → Text) (a : Around) (now i id : ℕ)
    (c : Continuation) (w : World)
    → P w.compactions
    → P (is_compaction_safe now c.session now w.compactions).0
    → P (fire_for to_lower a now i (some (id, c)) w).compactions
unfolding inject_continuation verify
fire-compactions P to_lower a now i id c w before after =
    let left : Store = record w.store { timers = remove_at i w.store.timers } in
    let r = get_state now c.session (cancel_countdown c.session left) in
    let got = record w { store = r.1 } in
    let circuit = is_circuit_open now c.session w.circuits in
    let safe = is_compaction_safe now c.session now w.compactions in
    let checked = record got { circuits = circuit.0; compactions = safe.0 } in
    let result = verify to_lower a.files checked in
    let Q : World → Type ℓ = λ u. P u.compactions in
    if_intro Q r.0.is_aborting (λ b. before)
      (λ b1.
        if_intro Q a.background (λ b. before)
          (λ b2.
            if_intro Q a.recovering (λ b. before)
              (λ b3.
                if_intro Q circuit.1 (λ b. before)
                  (λ b4.
                    if_intro Q (not safe.1) (λ b. after)
                      (λ b5.
                        if_intro Q result.1.passed
                          (λ passed.
                            subst P
                              (sym
                                (handle_mission_complete-Kept a.removes c.loop _ checked
                                  (record { prompts = refl; compactions = refl })).compactions)
                              after)
                          (λ failed. after))))))
