-- ===== src/Loop/Handlers.antt =====
-- src/core/loop/todo-continuation.ts: the handlers. They are cut in steps at the awaits between which they
-- use the state: `idle` and `resume` are handleSessionIdle, `fire` and `inject` are the callback of its timer.
use Prim.Native.Nat.{zero}
use open_supervisor.Loop.Countdown.{
  min_time_between_continuations_ms, countdown_grace_period_ms, abort_window_ms,
  continuation_ttl_ms, clear_timer, get_state, cancel_countdown, put, cancelled, World, Guards,
  Waiting, ContinuationState,
}
use open_supervisor.Prelude.Map.{Map}
use open_supervisor.Prelude.{
  ◌+◌, true, ◌||◌, suc, ◌==◌, [], ◌-◌, if◌then◌else◌, ◌∷◌, none, get_elem?, some, ltb, false, ◌++◌,
  not, Bool, String, List, Option, ℕ,
}
use open_supervisor.Prelude.Map

-- The part of handleSessionIdle after the countdown is cancelled, up to its first await.
abbrev pub idle_checks : Guards → ℕ → String → ContinuationState → World → World
idle_checks g now session s w =
    let waits = record w {
      idles = w.idles ++ (record { session = session; ident = s.ident; since = now } ∷ []);
    } in
    let unless_busy = if g.background then w else waits in
    let forgot = put session (record s { abort_detected_at = none }) w in
    if g.other_session || g.recovering then w else elim s.abort_detected_at [
      | none ↦ unless_busy
      | some at ↦ if ltb (now - at) abort_window_ms || g.background then forgot else record forgot {
        idles = w.idles ++ (record { session = session; ident = s.ident; since = now } ∷ []);
      }
    ]

abbrev pub too_soon : ℕ → Option ℕ → Bool
too_soon now none = false
too_soon now (some last) = ltb (now - last) min_time_between_continuations_ms

abbrev pub idle_in : Guards → ℕ → String → ContinuationState × World → World
idle_in g now session (s, w) =
    let idle = cancelled (record s { last_idle_time = some now }) in
    if too_soon now s.last_idle_time
    then w
    else idle_checks g now session idle
        (put session idle (record w { timers = clear_timer s.countdown_timer w.timers }))

unfoldable pub idle : Guards → ℕ → String → World → World
idle g now session w = idle_in g now session (get_state now session w)

-- The state object of a waiting handler gets the new timer, if the map still has it.
abbrev pub started_in : Waiting → Option ContinuationState → World → World
started_in h none w = w
started_in h (some s) w =
    if s.ident == h.ident
    then put h.session
        (record s { countdown_started_at = some h.since; countdown_timer = some w.started }) w
    else w

abbrev pub remove_at {ℓ} : {A : Type ℓ} → ℕ → List A → List A
remove_at i [] = []
remove_at zero (x ∷ xs) = xs
remove_at (suc i) (x ∷ xs) = x ∷ remove_at i xs

abbrev pub resumed : ℕ → Bool → Option Waiting → World → World
resumed i work none w = w
resumed i work (some h) w =
    let left = record w { idles = remove_at i w.idles } in
    let counting = started_in h (Map.get h.session w.states) left in
    if work
    then record counting {
      timers = counting.timers ++ ((w.started, h.session) ∷ []);
      started = w.started + 1;
    }
    else left

-- The handler at a place of `idles` goes on.
unfoldable pub resume : ℕ → Bool → World → World
resume i work w = resumed i work (get_elem? w.idles i) w

abbrev pub fired_at : ℕ → Option (ℕ × String) → World → World
fired_at i none w = w
fired_at i (some (id, session)) w =
    cancel_countdown session
      (record w { timers = remove_at i w.timers; fired = w.fired ++ (session ∷ []) })

-- The timer at a place of `timers` is over.
unfoldable pub fire : ℕ → World → World
fire i w = fired_at i (get_elem? w.timers i) w

abbrev pub injected : Guards → String → ContinuationState × World → World
injected g session (s, w) =
    if s.is_aborting || g.background || g.recovering
    then w
    else record w { prompts = session ∷ w.prompts }

abbrev pub inject_for : Guards → Bool → ℕ → ℕ → Option String → World → World
inject_for g work now i none w = w
inject_for g work now i (some session) w =
    let left = record w { fired = remove_at i w.fired } in
    if work then injected g session (get_state now session left) else left

-- The callback at a place of `fired` has the fresh todos.
unfoldable pub inject : Guards → Bool → ℕ → ℕ → World → World
inject g work now i w = inject_for g work now i (get_elem? w.fired i) w

abbrev pub in_grace : ℕ → Option ℕ → Bool
in_grace now none = false
in_grace now (some at) = ltb (now - at) countdown_grace_period_ms

abbrev pub messaged : ℕ → String → ContinuationState × World → World
messaged now session (s, w) =
    if in_grace now s.countdown_started_at
    then w
    else put session (record (cancelled s) { is_aborting = false; abort_detected_at = none })
        (record w { timers = clear_timer s.countdown_timer w.timers })

unfoldable pub handle_user_message : ℕ → String → World → World
handle_user_message now session w = messaged now session (get_state now session w)

abbrev pub failed : ℕ → String → Bool → ContinuationState × World → World
failed now session is_abort (s, w) =
    let noted = if is_abort then record s { abort_detected_at = some now } else s in
    put session (cancelled noted) (record w { timers = clear_timer s.countdown_timer w.timers })

unfoldable pub handle_session_error : ℕ → String → Bool → World → World
handle_session_error now session is_abort w = failed now session is_abort (get_state now session w)

abbrev pub aborted : ℕ → String → ContinuationState × World → World
aborted now session (s, w) =
    put session (cancelled (record s { is_aborting = true; abort_detected_at = some now }))
      (record w { timers = clear_timer s.countdown_timer w.timers })

unfoldable pub handle_abort : ℕ → String → World → World
handle_abort now session w = aborted now session (get_state now session w)

unfoldable pub cleanup_session : String → World → World
cleanup_session session w =
    let w1 = cancel_countdown session w in record w1 { states = Map.delete session w1.states }

unfoldable pub has_pending_continuation : String → World → Bool
has_pending_continuation session w = elim (Map.get session w.states) [
  | none ↦ false
  | some s ↦ elim s.countdown_timer [ none ↦ false | some id ↦ true ]
]

abbrev pub is_stale : ℕ → ContinuationState → Bool
is_stale now s = ltb continuation_ttl_ms (now - s.last_accessed_at)

abbrev pub clear_stale : ℕ → Map ContinuationState → List (ℕ × String) → List (ℕ × String)
clear_stale now [] timers = timers
clear_stale now ((session, s) ∷ m) timers =
    clear_stale now m (if is_stale now s then clear_timer s.countdown_timer timers else timers)

-- The round of the prune timer.
unfoldable pub prune : ℕ → World → World
prune now w = record w {
  states = Map.keep (λ s. not (is_stale now s)) w.states;
  timers = clear_stale now w.states w.timers;
}
