-- ===== src/Mission/CountedLaws.antt =====
-- src/core/loop/mission-loop-handler.ts: what the iterations of a loop count, and what ends it.
use open_supervisor.Mission.World.{
  prune, handle_user_message, Around, handle_abort, World, cleanup_session,
  handle_session_compacted, remove_at,
}
use open_supervisor.Loop.Guard.{is_compaction_safe}
use open_supervisor.Loop.Circuit.{should_trip_circuit}
use open_supervisor.Mission.Tracker.{default_stagnation_threshold, is_stagnant, track_progress}
use open_supervisor.Mission.Counted.{
  sent-Counting, finish-Counting, noted-Counting, resume-Counting, Counting-same, EventFailing,
  Counting, Failing,
}
use open_supervisor.Verify.Completion.{VerificationResult}
use open_supervisor.Todos.Text.{Text}
use open_supervisor.Mission.State.{cancel_countdown, put, cleanup, Continuation, get_state}
use open_supervisor.Mission.Runs.{
  prunes, compacts, cleans, aborts, messages, answers, finishes, fires, started-cancel_countdown,
  resumes, if_intro, idles_at, Event, run, step,
}
use open_supervisor.Mission.Handler.{
  is_other, too_soon, idle_verified, idle_loop, fire_for, advance, unless_tripped, verify, fire,
  inject_continuation, idle,
}
use open_supervisor.Mission.LoopState.{read_loop_state, MissionLoopState}
use open_supervisor.Prelude.{
  get_elem?, ◌∙◌, str_eq, refl, not, sym, none, [], some, false, ◌∷◌, ◌≡◌, All, Option, String,
  List, ℕ,
}
use open_supervisor.Mission.State
use open_supervisor.Loop.Circuit.{is_circuit_open}

advance-Counting :
    (l : MissionLoopState) (base : ℕ) (to_lower : Text → Text) (a : Around) (now ident : ℕ)
    (session : String) (v : VerificationResult) (w : World)
    → Failing to_lower a
    → Counting l base w
    → Counting l base (advance a now session ident v w)
advance-Counting l base to_lower a now ident session v w f k =
    let r = track_progress now session v.todo_incomplete none w.trackers in
    noted-Counting l base a now ident session (is_stagnant session default_stagnation_threshold r.0)
      v.todo_progress (record w { trackers = r.0 }) f.first f.second
      (Counting-same l base (record w { trackers = r.0 }) w refl refl refl k)

unless_tripped-Counting :
    (l : MissionLoopState) (base : ℕ) (to_lower : Text → Text) (a : Around) (now ident : ℕ)
    (session : String) (v : VerificationResult) (w : World)
    → Failing to_lower a
    → Counting l base w
    → Counting l base (unless_tripped a now session ident v w)
unless_tripped-Counting l base to_lower a now ident session v w f k =
    let c = should_trip_circuit now session w.circuits in
    let q = Counting-same l base (record w { circuits = c.0 }) w refl refl refl k in
    if_intro (Counting l base) c.1 (λ tripped. q)
      (λ calm. advance-Counting l base to_lower a now ident session v _ f q)

idle_verified-Counting :
    (l : MissionLoopState) (base : ℕ) (to_lower : Text → Text) (a : Around) (now ident : ℕ)
    (session : String) (loop : MissionLoopState) (v : List ℕ × VerificationResult) (w : World)
    → Failing to_lower a
    → v.1.passed ≡ false
    → Counting l base w
    → Counting l base (idle_verified a now session ident loop v w)
idle_verified-Counting l base to_lower a now ident session loop v w f fails k =
    if_intro (Counting l base) v.1.passed (λ passed. cc (sym passed ∙ fails))
      (λ failed.
        unless_tripped-Counting l base to_lower a now ident session v.1 _ f
          (Counting-same l base _ w refl refl refl k))

idle_loop-Counting :
    (l : MissionLoopState) (base : ℕ) (to_lower : Text → Text) (a : Around) (now ident : ℕ)
    (session : String) (o : Option MissionLoopState) (w : World)
    → Failing to_lower a
    → Counting l base w
    → Counting l base (idle_loop to_lower a now session ident o w)
unfolding verify
idle_loop-Counting l base to_lower a now ident session none w f k = k
idle_loop-Counting l base to_lower a now ident session (some loop) w f k =
    if_intro (Counting l base) (not loop.active) (λ over. k)
      (λ on.
        if_intro (Counting l base) (not (str_eq loop.session_id session)) (λ other. k)
          (λ own.
            idle_verified-Counting l base to_lower a now ident session loop
              (verify to_lower a.files w) w f (f.fails w.indices) k))

idle-Counting :
    (l : MissionLoopState) (base : ℕ) (to_lower : Text → Text) (a : Around) (now : ℕ)
    (session : String) (w : World)
    → Failing to_lower a
    → Counting l base w
    → Counting l base (idle to_lower a now session w)
unfolding idle get_state
idle-Counting l base to_lower a now session w f k =
    let r = get_state now session w.store in
    let checked = put session (record r.0 { last_check_time = some now }) r.1 in
    let c = record w { store = cancel_countdown session checked } in
    let q = Counting-same l base c w refl refl (started-cancel_countdown session checked) k in
    if_intro (Counting l base) (too_soon now r.0.last_check_time)
      (λ soon. Counting-same l base _ w refl refl refl k)
      (λ later.
        if_intro (Counting l base) (is_other session a.main_session) (λ b. q)
          (λ main.
            if_intro (Counting l base) a.recovering (λ b. q)
              (λ well.
                if_intro (Counting l base) a.background (λ b. q)
                  (λ free.
                    idle_loop-Counting l base to_lower a now r.0.ident session
                      (read_loop_state c.file) c f q))))

inject_continuation-Counting :
    (l : MissionLoopState) (base : ℕ) (to_lower : Text → Text) (a : Around) (now : ℕ)
    (c : Continuation) (w : World)
    → Failing to_lower a
    → Counting l base w
    → Counting l base (inject_continuation to_lower a now c w)
unfolding inject_continuation get_state verify
inject_continuation-Counting l base to_lower a now c w f k =
    let r = get_state now c.session w.store in
    let got = record w { store = r.1 } in
    let circuit = is_circuit_open now c.session w.circuits in
    let safe = is_compaction_safe now c.session now w.compactions in
    let left = record got { circuits = circuit.0; compactions = safe.0 } in
    let same : (v : World)
        → v.file ≡ w.file
        → v.waiting ≡ w.waiting
        → v.store.started ≡ w.store.started
        → Counting l base v =
      λ v e1 e2 e3. Counting-same l base v w e1 e2 e3 k in
    if_intro (Counting l base) r.0.is_aborting (λ b. same got refl refl refl)
      (λ b1.
        if_intro (Counting l base) a.background (λ b. same got refl refl refl)
          (λ b2.
            if_intro (Counting l base) a.recovering (λ b. same got refl refl refl)
              (λ b3.
                if_intro (Counting l base) circuit.1 (λ b. same _ refl refl refl)
                  (λ b4.
                    if_intro (Counting l base) (not safe.1) (λ b. same left refl refl refl)
                      (λ b5.
                        if_intro (Counting l base) (verify to_lower a.files left).1.passed
                          (λ passed. cc (sym passed ∙ f.fails left.indices))
                          (λ failed. same _ refl refl refl))))))

fire-Counting :
    (l : MissionLoopState) (base : ℕ) (to_lower : Text → Text) (a : Around) (now i : ℕ) (w : World)
    → Failing to_lower a
    → Counting l base w
    → Counting l base (fire to_lower a now i w)
unfolding fire
fire-Counting l base to_lower a now i w f k = by_timer (get_elem? w.store.timers i)
  where
    by_timer : (o : Option (ℕ × Continuation)) → Counting l base (fire_for to_lower a now i o w)
    by_timer none = k
    by_timer (some (id, c)) = inject_continuation-Counting l base to_lower a now c _ f (
        Counting-same l base _ w refl refl
          (started-cancel_countdown c.session
            (record w.store { timers = remove_at i w.store.timers }))
          k)

step-Counting :
    (l : MissionLoopState) (base : ℕ) (to_lower : Text → Text) (e : Event) (w : World)
    → EventFailing to_lower e
    → Counting l base w
    → Counting l base (step to_lower e w)
unfolding step handle_user_message handle_abort cleanup_session handle_session_compacted prune
    State.prune cleanup get_state
step-Counting l base to_lower (idles_at a now session) w f k =
    idle-Counting l base to_lower a now session w f k
step-Counting l base to_lower (resumes i) w f k = resume-Counting l base i w k
step-Counting l base to_lower (fires a now i) w f k = fire-Counting l base to_lower a now i w f k
step-Counting l base to_lower (finishes i) w f k = finish-Counting l base i w k
step-Counting l base to_lower (answers now i succeeded) w f k =
    sent-Counting l base now i succeeded w k
step-Counting l base to_lower (messages session) w f k =
    Counting-same l base _ w refl refl (started-cancel_countdown session w.store) k
step-Counting l base to_lower (aborts now session) w f k =
    Counting-same l base _ w refl refl (started-cancel_countdown session _) k
step-Counting l base to_lower (cleans session) w f k =
    Counting-same l base _ w refl refl (started-cancel_countdown session w.store) k
step-Counting l base to_lower (compacts now session) w f k =
    Counting-same l base _ w refl refl (started-cancel_countdown session w.store) k
step-Counting l base to_lower (prunes now) w f k = Counting-same l base _ w refl refl refl k

-- Whatever the handlers do and in whatever order, as long as no verification passes and the state file
-- can be written: the file still holds the loop, with its session, prompt, maximum of iterations and
-- activity, and its iterations grow by one with each countdown, the ones that wait for their toast
-- included.
pub run-Counting :
    (l : MissionLoopState) (base : ℕ) (to_lower : Text → Text) (es : List Event) (w : World)
    → All (EventFailing to_lower) es
    → Counting l base w
    → Counting l base (run to_lower es w)
unfolding run
run-Counting l base to_lower [] w f k = k
run-Counting l base to_lower (e ∷ es) w f k =
    run-Counting l base to_lower es (step to_lower e w) f.1
      (step-Counting l base to_lower e w f.0 k)
