-- ===== src/Mission/Guarded.antt =====
-- src/core/loop/mission-loop-handler.ts: a session whose compaction guard is armed.
use open_supervisor.Mission.World.{World, Around}
use open_supervisor.Mission.Fired.{fire-outcome, is_free}
use open_supervisor.Verify.Completion.{verify_mission_completion}
use open_supervisor.Mission.Kept.{fire-compactions, Kept}
use open_supervisor.Mission.State.{Continuation}
use open_supervisor.Todos.Text.{Text}
use open_supervisor.Mission.Runs.{
  prunes, aborts, messages, if_intro, answers, resumes, idles_at, compacts, cleans, finishes, fires,
  Event,
}
use open_supervisor.Mission.Handler.{fire_for, fire}
use open_supervisor.Loop.Guard.{CompactionGuardState, CompactionStates, is_compaction_safe}
use open_supervisor.Prelude.{
  arith, [], ◌&&◌, ◌+◌, eq_iff, inr, refl, inl, ◌∙◌, str_eq, not, false, ap, sym, get_elem?,
  Bool-cases, if◌then◌else◌, true, subst, ◌∷◌, none, ◌≡◌, some, ltb, Bool, List, Option, String, ℕ,
}
use open_supervisor.Prelude.Map

-- How often a session was prompted.
abbrev pub times_prompted : String → List Continuation → ℕ
times_prompted session [] = 0
times_prompted session (c ∷ rest) =
    (if str_eq c.session session then 1 else 0) + times_prompted session rest

abbrev pub epoch_in : Option CompactionGuardState → Option ℕ
epoch_in none = none
epoch_in (some s) = some s.compaction_epoch

abbrev pub Armed : String → ℕ → CompactionStates → Type 0
Armed session t m = epoch_in (Map.get session m) ≡ some t

-- A world whose guard has the epoch `t` for a session that was prompted `n` times.
pub record Guarded (session : String) (t n : ℕ) (w : World) : Type 0 where
  pub armed : Armed session t w.compactions
  pub silent : times_prompted session w.prompts ≡ n

-- The events after the time `t` that do not end the guard of a session: all but the cleanup or the
-- next compaction of the session, and the end of a mission.
abbrev pub keeps_guard : String → ℕ → Event → Bool
keeps_guard session t (fires a now i) = ltb t now
keeps_guard session t (finishes i) = false
keeps_guard session t (cleans other) = not (str_eq other session)
keeps_guard session t (compacts now other) = not (str_eq other session)
keeps_guard session t (idles_at a now other) = true
keeps_guard session t (resumes i) = true
keeps_guard session t (answers now i succeeded) = true
keeps_guard session t (messages other) = true
keeps_guard session t (aborts now other) = true
keeps_guard session t (prunes now) = true

pub Guarded-Kept :
    (session : String) (t n : ℕ) (v w : World)
    → Kept v w
    → Guarded session t n w
    → Guarded session t n v
Guarded-Kept session t n v w k g = record {
  armed = subst (Armed session t) (sym k.compactions) g.armed;
  silent = ap (times_prompted session) k.prompts ∙ g.silent;
}

is_compaction_safe-Armed :
    (session other : String) (t now : ℕ) (m : CompactionStates)
    → Armed session t m
    → Armed session t (is_compaction_safe now other now m).0
unfolding is_compaction_safe
is_compaction_safe-Armed session other t now m h = by_state (Map.get other m) refl
  where
    by_state :
        (o : Option CompactionGuardState)
        → Map.get other m ≡ o
        → Armed session t
            (elim o as (λ x. CompactionStates × Bool) [
              | none ↦ (m, true)
              | some s ↦ (
                Map.set other (record s { last_accessed_at = now }) m,
                not (ltb s.compaction_epoch now),
              )
            ]).0
    by_state none e = h
    by_state (some s) e = elim (Bool-cases (str_eq other session)) [
      | inl same ↦
          let is_it : other ≡ session = (eq_iff other session).0 same in
          rw (Map.get-set other session (record s { last_accessed_at = now }) m, same)
            (ap epoch_in (sym e ∙ ap (λ k. Map.get k m) is_it) ∙ h)
      | inr apart ↦ rw (Map.get-set other session (record s { last_accessed_at = now }) m, apart) h
    ]

is_compaction_safe_later :
    (session : String) (t now : ℕ) (m : CompactionStates)
    → Armed session t m
    → ltb t now ≡ true
    → (is_compaction_safe now session now m).1 ≡ false
unfolding is_compaction_safe
is_compaction_safe_later session t now m h later = by_state (Map.get session m) h
  where
    by_state :
        (o : Option CompactionGuardState)
        → epoch_in o ≡ some t
        → (elim o as (λ x. CompactionStates × Bool) [
          | none ↦ (m, true)
          | some s ↦ (
            Map.set session (record s { last_accessed_at = now }) m,
            not (ltb s.compaction_epoch now),
          )
        ]).1
          ≡ false
    by_state none e = cc e
    by_state (some s) e = let epoch : s.compaction_epoch ≡ t = cc e in rw (epoch, later) refl

pub fire-Guarded :
    (to_lower : Text → Text) (session : String) (t n : ℕ) (a : Around) (now i : ℕ) (w : World)
    → ltb t now ≡ true
    → Guarded session t n w
    → Guarded session t n (fire to_lower a now i w)
unfolding fire
fire-Guarded to_lower session t n a now i w later g = by_timer (get_elem? w.store.timers i) refl
  where
    passed : Bool
    passed = (verify_mission_completion to_lower a.files w.indices).1.passed

    -- No prompt for the session, since the guard does not agree.
    quiet :
        (c : Continuation)
        → times_prompted session
            (if is_free a now c w && not passed then c ∷ w.prompts else w.prompts)
          ≡ n
    quiet c = elim (Bool-cases (str_eq c.session session)) [
      | inl same ↦
          let is_it : c.session ≡ session = (eq_iff c.session session).0 same in
          let refused : (is_compaction_safe now c.session now w.compactions).1 ≡ false =
            ap (λ k. (is_compaction_safe now k now w.compactions).1) is_it
            ∙ is_compaction_safe_later session t now w.compactions g.armed later in
          let shut : (is_free a now c w && not passed) ≡ false = ground (arith, refused) in
          rw shut g.silent
      | inr apart ↦
          if_intro (λ ps. times_prompted session ps ≡ n) (is_free a now c w && not passed)
            (λ b. rw apart (omega (arith, g.silent))) (λ b. g.silent)
    ]

    by_timer :
        (o : Option (ℕ × Continuation))
        → get_elem? w.store.timers i ≡ o
        → Guarded session t n (fire_for to_lower a now i o w)
    by_timer none e = g
    by_timer (some (id, c)) e =
        let outcome = fire-outcome to_lower a now i id c w e in
        let opened : fire to_lower a now i w ≡ fire_for to_lower a now i (some (id, c)) w =
          ap (λ o. fire_for to_lower a now i o w) e in
        record {
          armed =
              fire-compactions (Armed session t) to_lower a now i id c w g.armed
                (is_compaction_safe-Armed session c.session t now w.compactions g.armed);
          silent =
              ap (λ (v : World). times_prompted session v.prompts) (sym opened)
              ∙ (ap (times_prompted session) outcome.0 ∙ quiet c);
        }
