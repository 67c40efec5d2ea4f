-- ===== src/Mission/Compacted.antt =====
-- src/core/loop/mission-loop-handler.ts: no prompt follows a compaction.
use open_supervisor.Mission.World.{
  prune, sent, handle_session_compacted, resume, World, handle_user_message, handle_abort,
  cleanup_session, sent_for, Waiting, resume_with,
}
use open_supervisor.Mission.Guarded.{
  fire-Guarded, epoch_in, Guarded-Kept, times_prompted, Guarded, keeps_guard,
}
use open_supervisor.Mission.Kept.{idle-Kept, Kept}
use open_supervisor.Todos.Text.{Text}
use open_supervisor.Mission.Runs.{
  prunes, aborts, messages, answers, resumes, idles_at, compacts, cleans, finishes, fires, Event,
  step, run,
}
use open_supervisor.Loop.Guard.{clear_compaction_state, arm_compaction_guard}
use open_supervisor.Prelude.{
  arith, [], inr, refl, inl, str_eq, false, ap, get_elem?, Bool-cases, true, ◌∷◌, none, ◌≡◌, some,
  all, Bool, List, Option, String, ℕ,
}
use open_supervisor.Prelude.Map

sent-Kept : (now i : ℕ) (succeeded : Bool) (w : World) → Kept (sent now i succeeded w) w
unfolding sent
sent-Kept now i succeeded w = by_prompt (get_elem? w.unanswered i) succeeded
  where
    by_prompt : (o : Option String) (b : Bool) → Kept (sent_for now i b o w) w
    by_prompt none b = record { prompts = refl; compactions = refl }
    by_prompt (some session) true = record { prompts = refl; compactions = refl }
    by_prompt (some session) false = record { prompts = refl; compactions = refl }

resume-Kept : (i : ℕ) (w : World) → Kept (resume i w) w
unfolding resume
resume-Kept i w = by_call (get_elem? w.waiting i)
  where
    by_call : (o : Option Waiting) → Kept (resume_with i o w) w
    by_call none = record { prompts = refl; compactions = refl }
    by_call (some h) = record { prompts = refl; compactions = refl }

step-Guarded :
    (to_lower : Text → Text) (session : String) (t n : ℕ) (e : Event) (w : World)
    → keeps_guard session t e ≡ true
    → Guarded session t n w
    → Guarded session t n (step to_lower e w)
unfolding step handle_user_message handle_abort cleanup_session handle_session_compacted prune
    clear_compaction_state arm_compaction_guard
step-Guarded to_lower session t n (idles_at a now other) w h g =
    Guarded-Kept session t n _ w (idle-Kept to_lower a now other w) g
step-Guarded to_lower session t n (resumes i) w h g =
    Guarded-Kept session t n _ w (resume-Kept i w) g
step-Guarded to_lower session t n (fires a now i) w h g =
    fire-Guarded to_lower session t n a now i w h g
step-Guarded to_lower session t n (finishes i) w h g = cc h
step-Guarded to_lower session t n (answers now i succeeded) w h g =
    Guarded-Kept session t n _ w (sent-Kept now i succeeded w) g
step-Guarded to_lower session t n (messages other) w h g = record {
  armed = g.armed;
  silent = g.silent;
}
step-Guarded to_lower session t n (aborts now other) w h g = record {
  armed = g.armed;
  silent = g.silent;
}
step-Guarded to_lower session t n (cleans other) w h g =
    let apart : str_eq other session ≡ false = ground (arith, h) in
    record {
      armed = rw (Map.get-delete other session w.compactions, apart) g.armed;
      silent = g.silent;
    }
step-Guarded to_lower session t n (compacts now other) w h g =
    let apart : str_eq other session ≡ false = ground (arith, h) in
    record {
      armed =
          rw
            (
              Map.get-set other session (record { compaction_epoch = now; last_accessed_at = now })
                  w.compactions,
              apart,
            )
            g.armed;
      silent = g.silent;
    }
step-Guarded to_lower session t n (prunes now) w h g = record { armed = g.armed; silent = g.silent }

run-Guarded :
    (to_lower : Text → Text) (session : String) (t n : ℕ) (es : List Event) (w : World)
    → all (keeps_guard session t) es ≡ true
    → Guarded session t n w
    → Guarded session t n (run to_lower es w)
unfolding run
run-Guarded to_lower session t n [] w h g = g
run-Guarded to_lower session t n (e ∷ es) w h g = elim (Bool-cases (keeps_guard session t e)) [
  | inl kept ↦
      run-Guarded to_lower session t n es (step to_lower e w) (rw kept at h)
        (step-Guarded to_lower session t n e w kept g)
  | inr ended ↦ cc (rw ended at h)
]

-- After a compaction of a session at a time `t` the session is never prompted again at a later time,
-- whatever its handlers, its user and other sessions do, unless it is cleaned up, compacted again, or
-- a mission ends (or the guard's own prune timer drops it): the guard calls no later epoch safe.
pub compacted_not_prompted :
    (to_lower : Text → Text) (session : String) (t : ℕ) (es : List Event) (w : World)
    → all (keeps_guard session t) es ≡ true
    → times_prompted session (run to_lower es (handle_session_compacted t session w)).prompts
      ≡ times_prompted session w.prompts
unfolding handle_session_compacted arm_compaction_guard
compacted_not_prompted to_lower session t es w h =
    (run-Guarded to_lower session t (times_prompted session w.prompts) es
      (handle_session_compacted t session w) h
      (record {
        armed = ap epoch_in (
            Map.get-set_self session (record { compaction_epoch = t; last_accessed_at = t })
              w.compactions);
        silent = refl;
      })).silent
