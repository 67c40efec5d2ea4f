-- ===== src/Mission/Runs.antt =====
-- src/core/loop/mission-loop-handler.ts: the runs of its handlers, in any order.
use open_supervisor.Mission.World.{
  prune, Around, World, resume, finish, sent, handle_user_message, handle_abort, cleanup_session,
  handle_session_compacted,
}
use open_supervisor.Prelude.Map
use open_supervisor.Mission.State.{cancel_in, SessionState, Store, cancel_countdown}
use open_supervisor.Todos.Text.{Text}
use open_supervisor.Mission.Handler.{fire, idle}
use open_supervisor.Prelude.{
  none, some, refl, if◌then◌else◌, false, [], Option, ◌∷◌, true, List, ◌≡◌, String, Bool, ℕ,
}

pub data Event : Type 0 where
  idles_at : Around → ℕ → String → Event
  resumes : ℕ → Event
  fires : Around → ℕ → ℕ → Event
  finishes : ℕ → Event
  answers : ℕ → ℕ → Bool → Event
  messages : String → Event
  aborts : ℕ → String → Event
  cleans : String → Event
  compacts : ℕ → String → Event
  prunes : ℕ → Event

unfoldable pub step : (Text → Text) → Event → World → World
step to_lower (idles_at a now session) w = idle to_lower a now session w
step to_lower (resumes i) w = resume i w
step to_lower (fires a now i) w = fire to_lower a now i w
step to_lower (finishes i) w = finish i w
step to_lower (answers now i succeeded) w = sent now i succeeded w
step to_lower (messages session) w = handle_user_message session w
step to_lower (aborts now session) w = handle_abort now session w
step to_lower (cleans session) w = cleanup_session session w
step to_lower (compacts now session) w = handle_session_compacted now session w
step to_lower (prunes now) w = prune now w

unfoldable pub run : (Text → Text) → List Event → World → World
run to_lower [] w = w
run to_lower (e ∷ es) w = run to_lower es (step to_lower e w)

-- A test with what its branches may use.
pub if_intro {ℓ κ} :
    {A : Type ℓ} (P : A → Type κ) (b : Bool) {x y : A}
    → (b ≡ true → P x)
    → (b ≡ false → P y)
    → P (if b then x else y)
if_intro P true f g = f refl
if_intro P false f g = g refl

pub started-cancel_countdown :
    (session : String) (w : Store) → (cancel_countdown session w).started ≡ w.started
unfolding cancel_countdown
started-cancel_countdown session w = by_state (Map.get session w.states)
  where
    by_state : (o : Option SessionState) → (cancel_in session o w).started ≡ w.started
    by_state none = refl
    by_state (some s) = refl
