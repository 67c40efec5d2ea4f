-- ===== src/Loop/CountdownLaws.antt =====
-- src/core/loop/todo-continuation.ts: a session that was aborted is not prompted.
use open_supervisor.Loop.Handlers.{
  prune, cleanup_session, handle_abort, handle_session_error, handle_user_message, inject, fire,
  resume, idle,
}
use open_supervisor.Loop.Countdown.{
  created, got, cancel_in, get_state, cancel_countdown, put, cancelled, World, Guards,
  ContinuationState,
}
use open_supervisor.Prelude.Map.{Map}
use open_supervisor.Prelude.{
  inr, ap, inl, eq_iff, ◌∙◌, ◌+◌, Bool-cases, sym, arith, refl, none, if◌then◌else◌, not, [], some,
  false, true, Bool, ◌≡◌, str_eq, ◌∷◌, List, Option, String, ℕ,
}
use open_supervisor.Prelude.Map

pub data Event : Type 0 where
  idles_at : Guards → ℕ → String → Event
  resumes : ℕ → Bool → Event
  fires : ℕ → Event
  injects : Guards → Bool → ℕ → ℕ → Event
  messages : ℕ → String → Event
  errs : ℕ → String → Bool → Event
  aborts : ℕ → String → Event
  cleans : String → Event
  prunes : ℕ → Event

unfoldable pub step : Event → World → World
step (idles_at g now session) w = idle g now session w
step (resumes i work) w = resume i work w
step (fires i) w = fire i w
step (injects g work now i) w = inject g work now i w
step (messages now session) w = handle_user_message now session w
step (errs now session is_abort) w = handle_session_error now session is_abort w
step (aborts now session) w = handle_abort now session w
step (cleans session) w = cleanup_session session w
step (prunes now) w = prune now w

unfoldable pub run : List Event → World → World
run [] w = w
run (e ∷ es) w = run es (step e w)

-- How often a session was prompted.
abbrev pub times_prompted : String → List String → ℕ
times_prompted session [] = 0
times_prompted session (other ∷ rest) =
    (if str_eq other session then 1 else 0) + times_prompted session rest

-- The events that do not end an abort: all but a message of the user, a cleanup or a pruning.
abbrev pub keeps_abort : String → Event → Bool
keeps_abort session (messages now other) = not (str_eq other session)
keeps_abort session (cleans other) = not (str_eq other session)
keeps_abort session (prunes now) = false
keeps_abort session (idles_at g now other) = true
keeps_abort session (resumes i work) = true
keeps_abort session (fires i) = true
keeps_abort session (injects g work now i) = true
keeps_abort session (errs now other is_abort) = true
keeps_abort session (aborts now other) = true

abbrev pub is_aborting_in : Option ContinuationState → Bool
is_aborting_in none = false
is_aborting_in (some s) = s.is_aborting

abbrev pub Aborting : String → Map ContinuationState → Type 0
Aborting session m = is_aborting_in (Map.get session m) ≡ true

-- A world in which the session counts as aborted and was prompted `n` times.
pub record Silent (session : String) (n : ℕ) (w : World) : Type 0 where
  pub aborting : Aborting session w.states
  pub silent : times_prompted session w.prompts ≡ n

pub set-Aborting :
    (session other : String) (s : ContinuationState) (m : Map ContinuationState)
    → (str_eq other session ≡ true → s.is_aborting ≡ true)
    → Aborting session m
    → Aborting session (Map.set other s m)
set-Aborting session other s m h k = elim (Bool-cases (str_eq other session)) [
  | inl same ↦ rw (Map.get-set other session s m, same) (h same)
  | inr apart ↦ rw (Map.get-set other session s m, apart) k
]

-- The state of the session says that it is aborting.
pub state-Aborting :
    (session other : String) (s : ContinuationState) (m : Map ContinuationState)
    → Map.get other m ≡ some s
    → Aborting session m
    → str_eq other session ≡ true
    → s.is_aborting ≡ true
state-Aborting session other s m e k same =
    let one : other ≡ session = ground (arith, eq_iff other session, same) in
    ap is_aborting_in (sym e ∙ ap (λ x. Map.get x m) one) ∙ k

absent_apart :
    (session other : String) (m : Map ContinuationState)
    → Map.get other m ≡ none
    → Aborting session m
    → str_eq other session ≡ false
absent_apart session other m e k = elim (Bool-cases (str_eq other session)) [
  | inl same ↦
      let one : other ≡ session = ground (arith, eq_iff other session, same) in
      cc (ap is_aborting_in (sym e ∙ ap (λ x. Map.get x m) one) ∙ k)
  | inr apart ↦ apart
]

pub is_aborting-cancelled : (s : ContinuationState) → (cancelled s).is_aborting ≡ s.is_aborting
is_aborting-cancelled s = by_timer s.countdown_timer
  where
    by_timer :
        (t : Option ℕ)
        → (elim t as (λ o. ContinuationState) [
          | none ↦ s
          | some id ↦ record s { countdown_timer = none; countdown_started_at = none }
        ]).is_aborting
          ≡ s.is_aborting
    by_timer none = refl
    by_timer (some id) = refl

pub put-Silent :
    (session other : String) (n : ℕ) (s : ContinuationState) (w : World)
    → (str_eq other session ≡ true → s.is_aborting ≡ true)
    → Silent session n w
    → Silent session n (put other s w)
put-Silent session other n s w h k = record {
  aborting = set-Aborting session other s w.states h k.aborting;
  silent = k.silent;
}

-- What holds of the state that a handler of a session works on, and of the world with it.
pub record GotSilent (session other : String) (n : ℕ) (r : ContinuationState × World) : Type 0 where
  pub state : str_eq other session ≡ true → r.0.is_aborting ≡ true
  pub world : Silent session n r.1

pub get_state-GotSilent :
    (session other : String) (n now : ℕ) (w : World)
    → Silent session n w
    → GotSilent session other n (get_state now other w)
get_state-GotSilent session other n now w k = by_state (Map.get other w.states) refl
  where
    by_state :
        (o : Option ContinuationState)
        → Map.get other w.states ≡ o
        → GotSilent session other n (got now other o w)
    by_state none e =
        let apart = absent_apart session other w.states e k.aborting in
        record {
          state = λ same. cc (sym same ∙ apart);
          world = record {
            aborting =
                set-Aborting session other (created w.made now) w.states
                  (λ same. cc (sym same ∙ apart)) k.aborting;
            silent = k.silent;
          };
        }
    by_state (some s) e =
        let h = state-Aborting session other s w.states e k.aborting in
        record {
          state = h;
          world = record {
            aborting =
                set-Aborting session other (record s { last_accessed_at = now }) w.states h
                  k.aborting;
            silent = k.silent;
          };
        }

pub cancel_countdown-Silent :
    (session other : String) (n : ℕ) (w : World)
    → Silent session n w
    → Silent session n (cancel_countdown other w)
cancel_countdown-Silent session other n w k = by_state (Map.get other w.states) refl
  where
    by_state :
        (o : Option ContinuationState)
        → Map.get other w.states ≡ o
        → Silent session n (cancel_in other o w)
    by_state none e = k
    by_state (some s) e = record {
      aborting =
          set-Aborting session other (cancelled s) w.states
            (λ same.
              is_aborting-cancelled s ∙ state-Aborting session other s w.states e k.aborting same)
            k.aborting;
      silent = k.silent;
    }
