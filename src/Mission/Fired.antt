-- ===== src/Mission/Fired.antt =====
-- src/core/loop/mission-loop-handler.ts: what the end of a countdown does.
use open_supervisor.Mission.World.{Around, handle_mission_complete, World, remove_at}
use open_supervisor.Loop.Guard.{CompactionStates, is_compaction_safe}
use open_supervisor.Verify.Completion.{verify_mission_completion, VerificationResult}
use open_supervisor.Todos.Text.{Text}
use open_supervisor.Mission.LoopState.{clear_loop_state, MissionLoopState}
use open_supervisor.Mission.Handler.{
  fire_for, unless_unsafe, inject_in, inject_verified, inject_continuation, verify, fire,
}
use open_supervisor.Mission.State.{
  cancelled, cancel_in, tracked, Store, get_state, Continuation, SessionState, cancel_countdown,
}
use open_supervisor.Prelude.{
  inr, ap, sym, eq_iff, subst, [], ◌∙◌, inl, str_eq, ◌++◌, refl, ◌∷◌, Bool-cases, if◌then◌else◌,
  none, ◌&&◌, true, some, get_elem?, not, ◌≡◌, List, false, String, Bool, Option, ℕ,
}
use open_supervisor.Prelude.Map
use open_supervisor.Loop.Circuit.{CircuitStates, is_circuit_open}

abbrev pub is_aborting_in : Option SessionState → Bool
is_aborting_in none = false
is_aborting_in (some s) = s.is_aborting

-- No guard stands against a continuation.
abbrev pub is_free : Around → ℕ → Continuation → World → Bool
is_free a now c w =
    not (is_aborting_in (Map.get c.session w.store.states))
    && (not a.background
        && (not a.recovering
            && (not (is_circuit_open now c.session w.circuits).1
                && (is_compaction_safe now c.session now w.compactions).1)))

handle_mission_complete-prompts :
    (removes : Bool) (loop : MissionLoopState) (w : World)
    → ((handle_mission_complete removes loop w).prompts ≡ w.prompts)
      × ((handle_mission_complete removes loop w).file ≡ (clear_loop_state removes w.file).0)
unfolding handle_mission_complete
handle_mission_complete-prompts removes loop w = by_result (clear_loop_state removes w.file).1
  where
    left : World
    left = record w { file = (clear_loop_state removes w.file).0 }

    by_result :
        (b : Bool)
        → ((if b then record left { completing = loop ∷ w.completing } else left).prompts
            ≡ w.prompts)
          × ((if b then record left { completing = loop ∷ w.completing } else left).file
              ≡ left.file)
    by_result true = (refl, refl)
    by_result false = (refl, refl)

-- What injectContinuation does, given the answers of its guards.
abbrev pub Outcome : Bool → Bool → Around → Continuation → World → World → Type 0
Outcome free passed a c w v =
    (v.prompts ≡ (if free && not passed then c ∷ w.prompts else w.prompts))
    × (v.file ≡ (if free && passed then (clear_loop_state a.removes w.file).0 else w.file))

inject_verified-outcome :
    (a : Around) (c : Continuation) (v : List ℕ × VerificationResult) (w : World)
    → Outcome true v.1.passed a c w (inject_verified a c v w)
inject_verified-outcome a c v w = by_result v.1.passed
  where
    checked : World
    checked = record w { indices = v.0 }

    by_result :
        (b : Bool)
        → Outcome true b a c w (
            if b then handle_mission_complete a.removes c.loop checked else record checked {
              prompts = c ∷ w.prompts;
              unanswered = w.unanswered ++ (c.session ∷ []);
            })
    by_result true = handle_mission_complete-prompts a.removes c.loop checked
    by_result false = (refl, refl)

inject_in-outcome :
    (to_lower : Text → Text) (a : Around) (now : ℕ) (c : Continuation) (s : SessionState)
    (store : Store) (w : World)
    → Outcome
        (not s.is_aborting
          && (not a.background
              && (not a.recovering
                  && (not (is_circuit_open now c.session w.circuits).1
                      && (is_compaction_safe now c.session now w.compactions).1))))
        (verify_mission_completion to_lower a.files w.indices).1.passed
        a
        c
        w
        (inject_in to_lower a now c (s, store) w)
unfolding verify
inject_in-outcome to_lower a now c s store w =
    by_guards s.is_aborting a.background a.recovering (is_circuit_open now c.session w.circuits)
      (is_compaction_safe now c.session now w.compactions)
  where
    passed : Bool
    passed = (verify_mission_completion to_lower a.files w.indices).1.passed

    got : World
    got = record w { store = store }

    by_guards :
        (b1 b2 b3 : Bool) (o : CircuitStates × Bool) (g : CompactionStates × Bool)
        → Outcome (not b1 && (not b2 && (not b3 && (not o.1 && g.1)))) passed a c w (
            if b1
            then got
            else if b2
            then got
            else if b3
            then got
            else if o.1
            then record got { circuits = o.0 }
            else unless_unsafe to_lower a now c g (record got { circuits = o.0 }))
    by_guards true b2 b3 o g = (refl, refl)
    by_guards false true b3 o g = (refl, refl)
    by_guards false false true o g = (refl, refl)
    by_guards false false false (m, true) g = (refl, refl)
    by_guards false false false (m, false) (n, false) = (refl, refl)
    by_guards false false false (m, false) (n, true) =
        inject_verified-outcome a c (verify_mission_completion to_lower a.files w.indices)
          (record got { circuits = m; compactions = n })

is_aborting-cancel_countdown :
    (session other : String) (w : Store)
    → is_aborting_in (Map.get session (cancel_countdown other w).states)
      ≡ is_aborting_in (Map.get session w.states)
unfolding cancel_countdown
is_aborting-cancel_countdown session other w = by_state (Map.get other w.states) refl
  where
    by_state :
        (o : Option SessionState)
        → Map.get other w.states ≡ o
        → is_aborting_in (Map.get session (cancel_in other o w).states)
          ≡ is_aborting_in (Map.get session w.states)
    by_state none e = refl
    by_state (some s) e = elim (Bool-cases (str_eq other session)) [
      | inl same ↦
          let is_it : other ≡ session = (eq_iff other session).0 same in
          rw (Map.get-set other session (cancelled s) w.states, same)
            (sym (ap is_aborting_in (ap (λ k. Map.get k w.states) (sym is_it) ∙ e)))
      | inr apart ↦ rw (Map.get-set other session (cancelled s) w.states, apart) refl
    ]

tracked-is_aborting :
    (now made : ℕ) (o : Option SessionState) → (tracked now made o).is_aborting ≡ is_aborting_in o
tracked-is_aborting now made none = refl
tracked-is_aborting now made (some s) = refl

-- When a countdown is over, its session is prompted exactly if it is not aborting, has no background
-- tasks, does not recover, its circuit is closed, the compaction guard agrees, and the verification does
-- not pass; the state file is deleted, if it can be, exactly if all these agree and the verification
-- passes, and else it stays.
pub fire-outcome :
    (to_lower : Text → Text) (a : Around) (now i id : ℕ) (c : Continuation) (w : World)
    → get_elem? w.store.timers i ≡ some (id, c)
    → ((fire to_lower a now i w).prompts ≡ (
        if is_free a now c w && not (verify_mission_completion to_lower a.files w.indices).1.passed
        then c ∷ w.prompts
        else w.prompts))
      × ((fire to_lower a now i w).file ≡ (
          if is_free a now c w && (verify_mission_completion to_lower a.files w.indices).1.passed
          then (clear_loop_state a.removes w.file).0
          else w.file))
unfolding fire inject_continuation get_state
fire-outcome to_lower a now i id c w e =
    let left : Store = record w.store { timers = remove_at i w.store.timers } in
    let kept = cancel_countdown c.session left in
    let r = get_state now c.session kept in
    let aborting : r.0.is_aborting ≡ is_aborting_in (Map.get c.session w.store.states) =
      tracked-is_aborting now kept.made (Map.get c.session kept.states)
      ∙ is_aborting-cancel_countdown c.session c.session left in
    subst
      (λ o.
        Outcome (is_free a now c w) (verify_mission_completion to_lower a.files w.indices).1.passed
          a c w (fire_for to_lower a now i o w))
      (sym e)
      (subst
        (λ b.
          Outcome
            (not b
              && (not a.background
                  && (not a.recovering
                      && (not (is_circuit_open now c.session w.circuits).1
                          && (is_compaction_safe now c.session now w.compactions).1))))
            (verify_mission_completion to_lower a.files w.indices).1.passed a c w
            (fire_for to_lower a now i (some (id, c)) w))
        aborting (inject_in-outcome to_lower a now c r.0 r.1 (record w { store = kept })))
