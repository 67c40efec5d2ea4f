-- ===== src/Agents/Slots.antt =====
-- src/core/agents/manager: how often a task gives its slot back.
use open_supervisor.Concurrency.Frame.{counts-report_result}
use open_supervisor.Prelude.Map.{Map}
use open_supervisor.Pools.Strings.{is_truthy}
use open_supervisor.Agents.Notified.{finished}
use open_supervisor.Concurrency.Token.{new_token}
use open_supervisor.Concurrency.State.{infinity, Limit, finite, Controller, get_concurrency_limit}
use open_supervisor.Agents.Launch.{release_with, prompt_ended, release_held}
use open_supervisor.Agents.Life.{complete_object, complete_task}
use open_supervisor.Tasks.Store.{ParallelTask}
use open_supervisor.Agents.Manager.{
  key_of, give_back, notify_with, report, release_slot, Manager, notify_parent_if_all_complete,
  schedule_cleanup,
}
use open_supervisor.Concurrency.Control.{report_result, count_of, queue_of, hand_over}
use open_supervisor.Prelude.{
  ◌-◌, ltb, arith, sym, ◌∙◌, subst, refl, true, ◌∷◌, [], ap, none, ◌+◌, List, some, ◌≡◌, Option,
  String, ℕ,
}
use open_supervisor.Prelude.Map
use open_supervisor.Concurrency.Control
use open_supervisor.Agents.Manager

-- A key with a limit that nobody waits for, and `n` of its slots taken.
pub record Taken (key : String) (n : ℕ) (c : Controller) : Type 0 where
  pub limit : ℕ
  pub limited : get_concurrency_limit c key ≡ finite limit
  pub nobody : queue_of c key ≡ []
  pub count : count_of c key ≡ n

hand_over-nobody :
    (key : String) (n : ℕ) (c : Controller)
    → count_of c key ≡ n + 1
    → hand_over c key [] ≡ (record c { counts = Map.set key n c.counts }, none)
unfolding hand_over
hand_over-nobody key n c e =
    let some_taken : ltb 0 (count_of c key) ≡ true = ground (arith, e) in
    let fewer : count_of c key - 1 ≡ n = omega (arith, e) in
    let freed : ℕ → Controller × Option ℕ =
      λ j. (record c { counts = Map.set key j c.counts }, none) in
    rw some_taken (ap freed fewer)

release-Taken :
    (key : String) (n : ℕ) (c : Controller)
    → Taken key (n + 1) c
    → Taken key n (Control.release c key).0
unfolding Control.release hand_over get_concurrency_limit
release-Taken key n c k =
    let freed : Controller = record c { counts = Map.set key n c.counts } in
    let here : Control.release c key ≡ (freed, none) =
      ap
        (λ (l : Limit). elim l as (λ x. Controller × Option ℕ) [
          | infinity ↦ (c, none)
          | finite limit ↦ hand_over c key (queue_of c key)
        ])
        k.limited
      ∙ ap (hand_over c key) k.nobody
      ∙ hand_over-nobody key n c k.count in
    subst (λ (r : Controller × Option ℕ). Taken key n r.0) (sym here)
      (record {
        limit = k.limit;
        limited = k.limited;
        nobody = k.nobody;
        count = Map.get_or-set_self key 0 n c.counts;
      })

put-controller :
    (id : String) (t : ParallelTask) (m : Manager) → (Manager.put id t m).controller ≡ m.controller
put-controller id t m = refl

notify_with-controller :
    (parent : String) (after : Option String) (ts : List ParallelTask) (m : Manager)
    → (notify_with parent after ts m).controller ≡ m.controller
unfolding schedule_cleanup
notify_with-controller parent none [] m = refl
notify_with-controller parent (some id) [] m = refl
notify_with-controller parent after (t ∷ ts) m = refl

complete_task-controller :
    (now : ℕ) (id : String) (t : ParallelTask) (m : Manager)
    → Map.get id m.objects ≡ some t
    → (complete_task now id m).controller ≡ (give_back (some true) now (key_of t) m).controller
unfolding complete_task notify_parent_if_all_complete
complete_task-controller now id t m e =
    ap (λ o. (complete_object now id o m).controller) e
    ∙ notify_with-controller t.parent_session_id (some id) _ _

notify_with-objects :
    (parent : String) (after : Option String) (ts : List ParallelTask) (m : Manager)
    → (notify_with parent after ts m).objects ≡ m.objects
unfolding schedule_cleanup
notify_with-objects parent none [] m = refl
notify_with-objects parent (some id) [] m = refl
notify_with-objects parent after (t ∷ ts) m = refl

complete_task-objects :
    (now : ℕ) (id : String) (t : ParallelTask) (m : Manager)
    → Map.get id m.objects ≡ some t
    → Map.get id (complete_task now id m).objects ≡ some (finished now t)
unfolding complete_task notify_parent_if_all_complete
complete_task-objects now id t m e =
    let given = give_back (some true) now (key_of t) m in
    ap (λ o. Map.get id (complete_object now id o m).objects) e
    ∙ ap (Map.get id) (notify_with-objects t.parent_session_id (some id) _ _)
    ∙ Map.get-set_self id (finished now t) given.objects

key_of-truthy :
    (t : ParallelTask) (key : String)
    → t.concurrency_key ≡ some key
    → is_truthy key ≡ true
    → key_of t ≡ some key
key_of-truthy t key e h = rw (e, h) refl

-- The completion of a task with a concurrency key gives back its slot and reports a success of the key; a
-- second completion of the task, as by the poller and by the event of its idle session, does neither again.
pub complete_task-complete_task :
    (now later : ℕ) (id key : String) (t : ParallelTask) (m : Manager)
    → Map.get id m.objects ≡ some t
    → t.concurrency_key ≡ some key
    → is_truthy key ≡ true
    → let once = complete_task now id m in
      (once.controller ≡ report_result (Control.release m.controller key).0 key true now)
      × ((complete_task later id once).controller ≡ once.controller)
unfolding release_slot report
complete_task-complete_task now later id key t m e has truthy = (
  complete_task-controller now id t m e
      ∙ ap (λ o. (give_back (some true) now o m).controller) (key_of-truthy t key has truthy),
  complete_task-controller later id (finished now t) (complete_task now id m)
      (complete_task-objects now id t m e),
)

release_held-freed :
    (id key : String) (m : Manager)
    → Map.get id m.tokens ≡ some (new_token key)
    → ((release_held id m).controller ≡ (Control.release m.controller key).0)
      × ((release_held id m).objects ≡ m.objects)
unfolding release_held release_slot new_token
release_held-freed id key m e =
    (ap (λ o. (release_with id o m).controller) e, ap (λ o. (release_with id o m).objects) e)

-- A task whose prompt has ended and that is then completed gives back two slots, though it took one:
-- the token of executeBackground releases the slot of its key, and the completion does again. So with
-- nobody waiting, of `n + 2` slots that are taken `n` are left.
pub complete_task-prompt_ended :
    (now later n : ℕ) (id key : String) (t : ParallelTask) (m : Manager)
    → Map.get id m.objects ≡ some t
    → t.concurrency_key ≡ some key
    → is_truthy key ≡ true
    → Map.get id m.tokens ≡ some (new_token key)
    → Taken key (n + 2) m.controller
    → count_of (complete_task later id (prompt_ended now true id m)).controller key ≡ n
unfolding prompt_ended release_slot report
complete_task-prompt_ended now later n id key t m e has truthy held k =
    let two : n + 2 ≡ (n + 1) + 1 = omega arith in
    let split = subst (λ j. Taken key j m.controller) two k in
    let ended = release_held id m in
    let freed = release_held-freed id key m held in
    let once : Taken key (n + 1) ended.controller =
      subst (Taken key (n + 1)) (sym freed.0) (release-Taken key (n + 1) m.controller split) in
    let found : Map.get id ended.objects ≡ some t = ap (Map.get id) freed.1 ∙ e in
    let twice = release-Taken key n ended.controller once in
    ap (λ (c : Controller). count_of c key) (complete_task-controller later id t ended found)
    ∙ ap (λ o. count_of (give_back (some true) later o ended).controller key)
        (key_of-truthy t key has truthy)
    ∙ counts-report_result (Control.release ended.controller key).0 key true later
    ∙ twice.count
