-- ===== src/Mission/Counted.antt =====
-- src/core/loop/mission-loop-handler.ts: what the iterations of a loop count, and what ends it.
use open_supervisor.Mission.World.{
  sent, resume, remove_at, finish, Around, World, sent_for, finish_with, Waiting, resume_with,
}
use open_supervisor.Verify.Completion.{verify_mission_completion}
use open_supervisor.Prelude.{
  length-append, suc, ℕ, ap, [], subst, refl, true, none, arith, ◌∷◌, sym, ap₂, ◌+◌, length, ◌∙◌,
  false, some, ◌≡◌, get_elem?, Option, String, Bool, List,
}
use open_supervisor.Mission.Runs.{
  prunes, compacts, cleans, aborts, messages, answers, finishes, started-cancel_countdown, resumes,
  fires, idles_at, Event,
}
use open_supervisor.Mission.State.{cleanup}
use open_supervisor.Todos.Text.{Text}
use open_supervisor.Mission.LoopState.{
  Write, incremented, stored, succeeds, write_loop_state, read_loop_state, MissionLoopState,
  increment_iteration,
}
use open_supervisor.Mission.Handler.{noted}
use Prim.Native.Nat.{zero}

-- The state file holds the loop `l` up to its progress, and its iterations count, from `base` on, the
-- countdowns that were started and those that wait for their toast.
pub record Counting (l : MissionLoopState) (base : ℕ) (w : World) : Type 0 where
  pub loop : MissionLoopState
  pub is_stored : w.file ≡ stored loop
  pub counts : loop.iteration ≡ base + (length w.waiting + w.store.started)
  pub session : loop.session_id ≡ l.session_id
  pub limit : loop.max_iterations ≡ l.max_iterations
  pub prompt : loop.prompt ≡ l.prompt
  pub active : loop.active ≡ l.active

-- The mission is not complete, and the state file can be written.
pub record Failing (to_lower : Text → Text) (a : Around) : Type 0 where
  pub fails :
      (indices : List ℕ) → (verify_mission_completion to_lower a.files indices).1.passed ≡ false
  pub first : a.first_write ≡ succeeds
  pub second : a.second_write ≡ succeeds

abbrev pub EventFailing : (Text → Text) → Event → Type 0
EventFailing to_lower (idles_at a now session) = Failing to_lower a
EventFailing to_lower (fires a now i) = Failing to_lower a
EventFailing to_lower (resumes i) = Unit
EventFailing to_lower (finishes i) = Unit
EventFailing to_lower (answers now i succeeded) = Unit
EventFailing to_lower (messages session) = Unit
EventFailing to_lower (aborts now session) = Unit
EventFailing to_lower (cleans session) = Unit
EventFailing to_lower (compacts now session) = Unit
EventFailing to_lower (prunes now) = Unit

length-remove_at {ℓ} :
    {A : Type ℓ} (i : ℕ) (xs : List A) (x : A)
    → get_elem? xs i ≡ some x
    → length (remove_at i xs) + 1 ≡ length xs
unfolding remove_at
length-remove_at i [] x e = cc e
length-remove_at zero (y ∷ xs) x e = omega arith
length-remove_at (suc i) (y ∷ xs) x e = omega (arith, length-remove_at i xs x e)

-- A step that leaves the file, the waiting calls and the number of timers made.
pub Counting-same :
    (l : MissionLoopState) (base : ℕ) (v w : World)
    → v.file ≡ w.file
    → v.waiting ≡ w.waiting
    → v.store.started ≡ w.store.started
    → Counting l base w
    → Counting l base v
Counting-same l base v w f q t k = record {
  loop = k.loop;
  is_stored = f ∙ k.is_stored;
  counts = k.counts ∙ ap₂ (λ (xs : List Waiting) n. base + (length xs + n)) (sym q) (sym t);
  session = k.session;
  limit = k.limit;
  prompt = k.prompt;
  active = k.active;
}

pub resume-Counting :
    (l : MissionLoopState) (base i : ℕ) (w : World)
    → Counting l base w
    → Counting l base (resume i w)
unfolding resume
resume-Counting l base i w k = by_call (get_elem? w.waiting i) refl
  where
    by_call : (o : Option Waiting) → get_elem? w.waiting i ≡ o → Counting l base (resume_with i o w)
    by_call none e = k
    by_call (some h) e = record {
      loop = k.loop;
      is_stored = k.is_stored;
      counts = omega (arith, k.counts, length-remove_at i w.waiting h e);
      session = k.session;
      limit = k.limit;
      prompt = k.prompt;
      active = k.active;
    }

pub finish-Counting :
    (l : MissionLoopState) (base i : ℕ) (w : World)
    → Counting l base w
    → Counting l base (finish i w)
unfolding finish cleanup
finish-Counting l base i w k = by_loop (get_elem? w.completing i)
  where
    by_loop : (o : Option MissionLoopState) → Counting l base (finish_with i o w)
    by_loop none = k
    by_loop (some loop) =
        Counting-same l base _ w refl refl (started-cancel_countdown loop.session_id w.store) k

pub sent-Counting :
    (l : MissionLoopState) (base now i : ℕ) (succeeded : Bool) (w : World)
    → Counting l base w
    → Counting l base (sent now i succeeded w)
unfolding sent
sent-Counting l base now i succeeded w k = by_prompt (get_elem? w.unanswered i) succeeded
  where
    by_prompt : (o : Option String) (b : Bool) → Counting l base (sent_for now i b o w)
    by_prompt none b = k
    by_prompt (some session) true = Counting-same l base _ w refl refl refl k
    by_prompt (some session) false = Counting-same l base _ w refl refl refl k

pub noted-Counting :
    (l : MissionLoopState) (base : ℕ) (a : Around) (now ident : ℕ) (session : String)
    (stagnant : Bool) (progress : ℕ × ℕ) (w : World)
    → a.first_write ≡ succeeds
    → a.second_write ≡ succeeds
    → Counting l base w
    → Counting l base
        (noted a session ident stagnant progress (increment_iteration a.first_write now w.file) w)
unfolding increment_iteration read_loop_state write_loop_state
noted-Counting l base a now ident session stagnant progress w first second k =
    let went : increment_iteration a.first_write now w.file
        ≡ (stored (incremented now k.loop), some (incremented now k.loop)) =
      rw (first, k.is_stored) refl in
    let result = record (incremented now k.loop) { last_progress = some progress } in
    let h : Waiting = record {
      ident = ident;
      after = record { session = session; loop = result; stagnant = stagnant };
    } in
    subst (λ r. Counting l base (noted a session ident stagnant progress r w)) (sym went)
      (record {
        loop = result;
        is_stored = ap (λ (x : Write). (write_loop_state x result).0) second;
        counts = omega (arith, k.counts, length-append w.waiting (h ∷ []));
        session = k.session;
        limit = k.limit;
        prompt = k.prompt;
        active = k.active;
      })
