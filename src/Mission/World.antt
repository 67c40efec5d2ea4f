-- ===== src/Mission/World.antt =====
-- src/core/loop/mission-loop-handler.ts: the world of the handlers and the handlers that do not verify. The clock
-- is the argument `now`, in milliseconds, and what the handlers ask of other parts stands in `Around`.
-- They are cut in steps at the awaits: `resume` is the end of handleMissionIdle, `sent` the end of
-- injectContinuation, and `finish` the rest of handleMissionComplete.
use open_supervisor.Loop.Circuit.{clear_circuit_state, CircuitStates}
use open_supervisor.Loop.Guard.{clear_compaction_state, arm_compaction_guard, CompactionStates}
use open_supervisor.Mission.Tracker.{mark_injection_performed, TrackerStates, reset_progress}
use open_supervisor.Mission.LoopState.{clear_loop_state, Write, LoopFile, MissionLoopState}
use open_supervisor.Verify.Completion.{Files}
use open_supervisor.Mission.State.{
  put, SessionState, cancel_countdown, cleanup, get_state, Continuation, Store,
}
use open_supervisor.Prelude.{
  ◌+◌, none, true, ◌==◌, [], some, ◌++◌, ◌∷◌, if◌then◌else◌, String, Bool, List, get_elem?, Option,
  ℕ,
}
use open_supervisor.Prelude.Map
use open_supervisor.Mission.State
use Prim.Native.Nat.{suc, zero}

-- What a call finds around it: whether the session recovers or has background tasks, the files to verify,
-- and what the file system does with the state file.
pub record Around : Type 0 where
  pub main_session : Option String
  pub recovering : Bool
  pub background : Bool
  pub files : Files
  pub first_write : Write
  pub second_write : Write
  pub removes : Bool

-- A call of handleMissionIdle that waits for its toast.
pub record Waiting : Type 0 where
  pub ident : ℕ
  pub after : Continuation

pub record World : Type 0 where
  pub store : Store
  pub file : LoopFile
  pub trackers : TrackerStates
  pub circuits : CircuitStates
  pub compactions : CompactionStates
  -- The last indices of the patterns of the verification.
  pub indices : List ℕ
  pub waiting : List Waiting
  -- The loops that are complete and wait for their toast and notification.
  pub completing : List MissionLoopState
  -- The prompts, the latest one first, and the sessions of those that are not answered.
  pub prompts : List Continuation
  pub unanswered : List String

-- `handleMissionComplete` up to its first await.
unfoldable pub handle_mission_complete : Bool → MissionLoopState → World → World
handle_mission_complete removes loop w =
    let r = clear_loop_state removes w.file in
    let left = record w { file = r.0 } in
    if r.1 then record left { completing = loop ∷ w.completing } else left

unfoldable pub remove_at {ℓ} : {A : Type ℓ} → ℕ → List A → List A
remove_at i [] = []
remove_at zero (x ∷ xs) = xs
remove_at (suc i) (x ∷ xs) = x ∷ remove_at i xs

abbrev pub cleared : String → World → World
cleared session w = record w {
  store = cleanup session w.store;
  compactions = clear_compaction_state session w.compactions;
  circuits = clear_circuit_state session w.circuits;
}

abbrev pub finish_with : ℕ → Option MissionLoopState → World → World
finish_with i none w = w
finish_with i (some loop) w =
    cleared loop.session_id (record w { completing = remove_at i w.completing })

-- The rest of handleMissionComplete, for the loop at a place of `completing`.
unfoldable pub finish : ℕ → World → World
finish i w = finish_with i (get_elem? w.completing i) w

-- The state object of a waiting handler gets the new timer, if the store still has it.
abbrev pub started_in : String → ℕ → Option SessionState → Store → Store
started_in session ident none w = w
started_in session ident (some s) w =
    if s.ident == ident then put session (record s { countdown_timer = some w.started }) w else w

abbrev pub set_timeout : Waiting → Store → Store
set_timeout h w =
    let marked = started_in h.after.session h.ident (Map.get h.after.session w.states) w in
    record marked { timers = w.timers ++ ((w.started, h.after) ∷ []); started = w.started + 1 }

abbrev pub resume_with : ℕ → Option Waiting → World → World
resume_with i none w = w
resume_with i (some h) w = record w {
  store = set_timeout h w.store;
  waiting = remove_at i w.waiting;
}

-- The call of handleMissionIdle at a place of `waiting` goes on.
unfoldable pub resume : ℕ → World → World
resume i w = resume_with i (get_elem? w.waiting i) w

abbrev pub sent_for : ℕ → ℕ → Bool → Option String → World → World
sent_for now i succeeded none w = w
sent_for now i succeeded (some session) w =
    let left = record w { unanswered = remove_at i w.unanswered } in
    if succeeded
    then record left { trackers = mark_injection_performed now session w.trackers }
    else left

-- The prompt at a place of `unanswered` succeeds or fails.
unfoldable pub sent : ℕ → ℕ → Bool → World → World
sent now i succeeded w = sent_for now i succeeded (get_elem? w.unanswered i) w

unfoldable pub handle_user_message : String → World → World
handle_user_message session w = record w { store = cancel_countdown session w.store }

unfoldable pub handle_abort : ℕ → String → World → World
handle_abort now session w =
    let r = get_state now session w.store in
    record w {
      store = cancel_countdown session (put session (record r.0 { is_aborting = true }) r.1);
    }

unfoldable pub cleanup_session : String → World → World
cleanup_session session w = record (cleared session w) {
  trackers = reset_progress session w.trackers;
}

unfoldable pub handle_session_compacted : ℕ → String → World → World
handle_session_compacted now session w = record w {
  compactions = (arm_compaction_guard now session now w.compactions).0;
  store = cancel_countdown session w.store;
}

-- The round of the store's prune timer.
unfoldable pub prune : ℕ → World → World
prune now w = record w { store = State.prune now w.store }
