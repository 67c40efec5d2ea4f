-- ===== src/Loop/Aborted.antt =====
-- src/core/loop/todo-continuation.ts: a session that was aborted is not prompted.
use open_supervisor.Loop.Handlers.{
  resumed, started_in, remove_at, too_soon, injected, idle_checks, inject_for, idle_in, fired_at,
  resume, inject, idle, fire,
}
use open_supervisor.Loop.Countdown.{
  get_state, abort_window_ms, cancelled, put, Waiting, World, ContinuationState, Guards,
}
use open_supervisor.Loop.CountdownLaws.{
  is_aborting-cancelled, state-Aborting, get_state-GotSilent, put-Silent, cancel_countdown-Silent,
  times_prompted, Silent, GotSilent,
}
use open_supervisor.Prelude.{
  refl, ◌-◌, ltb, if◌then◌else◌, ◌∙◌, none, sym, inr, get_elem?, arith, [], ◌++◌, ◌==◌, ◌∷◌, inl,
  some, ◌||◌, Bool-cases, true, false, ◌≡◌, Option, str_eq, Bool, List, String, ℕ,
}
use open_supervisor.Prelude.Map

times-other :
    (session other : String) (rest : List String)
    → str_eq other session ≡ false
    → times_prompted session (other ∷ rest) ≡ times_prompted session rest
times-other session other rest apart = rw apart (omega arith)

idle_checks-Silent :
    (g : Guards) (now : ℕ) (session other : String) (n : ℕ) (s : ContinuationState) (w : World)
    → (str_eq other session ≡ true → s.is_aborting ≡ true)
    → Silent session n w
    → Silent session n (idle_checks g now other s w)
idle_checks-Silent g now session other n s w h k =
    elim (Bool-cases (g.other_session || g.recovering)) [
      | inl skipped ↦ rw skipped k
      | inr on ↦ rw on (by_abort s.abort_detected_at g.background)
    ]
  where
    handler : Waiting
    handler = record { session = other; ident = s.ident; since = now }

    waits : World → World
    waits v = record v { idles = w.idles ++ (handler ∷ []) }

    forgot : World
    forgot = put other (record s { abort_detected_at = none }) w

    forgot-Silent : Silent session n forgot
    forgot-Silent = put-Silent session other n (record s { abort_detected_at = none }) w h k

    still : (v : World) → Silent session n v → Silent session n (waits v)
    still v q = record { aborting = q.aborting; silent = q.silent }

    by_bool :
        (b : Bool) (v : World) → Silent session n v → Silent session n (if b then v else waits v)
    by_bool true v q = q
    by_bool false v q = still v q

    by_abort :
        (o : Option ℕ) (b : Bool)
        → Silent session n (elim o as (λ x. World) [
          | none ↦ if b then w else waits w
          | some at ↦ if ltb (now - at) abort_window_ms || b then forgot else waits forgot
        ])
    by_abort none b = by_bool b w k
    by_abort (some at) b = by_bool (ltb (now - at) abort_window_ms || b) forgot forgot-Silent

pub idle-Silent :
    (g : Guards) (now : ℕ) (session other : String) (n : ℕ) (w : World)
    → Silent session n w
    → Silent session n (idle g now other w)
unfolding idle
idle-Silent g now session other n w k =
    let r = get_state now other w in
    let q = get_state-GotSilent session other n now w k in by_state r.0 r.1 q
  where
    by_state :
        (s : ContinuationState) (v : World)
        → GotSilent session other n (s, v)
        → Silent session n (idle_in g now other (s, v))
    by_state s v q = elim (Bool-cases (too_soon now s.last_idle_time)) [
      | inl soon ↦ rw soon q.world
      | inr ready ↦
          let idle_state = cancelled (record s { last_idle_time = some now }) in
          let h : str_eq other session ≡ true → idle_state.is_aborting ≡ true =
            λ same. is_aborting-cancelled (record s { last_idle_time = some now }) ∙ q.state same in
          rw ready (
            idle_checks-Silent g now session other n idle_state _ h (
              put-Silent session other n idle_state _ h
                (record { aborting = q.world.aborting; silent = q.world.silent })))
    ]

pub resume-Silent :
    (i : ℕ) (work : Bool) (session : String) (n : ℕ) (w : World)
    → Silent session n w
    → Silent session n (resume i work w)
unfolding resume
resume-Silent i work session n w k = by_waiting (get_elem? w.idles i)
  where
    counted :
        (h : Waiting) (v : World)
        → Silent session n v
        → Silent session n (started_in h (Map.get h.session v.states) v)
    counted h v q = by_state (Map.get h.session v.states) refl
      where
        by_state :
            (o : Option ContinuationState)
            → Map.get h.session v.states ≡ o
            → Silent session n (started_in h o v)
        by_state none e = q
        by_state (some s) e = elim (Bool-cases (s.ident == h.ident)) [
          | inl own ↦ rw own (
              put-Silent session h.session n
                (record s { countdown_started_at = some h.since; countdown_timer = some v.started })
                v (state-Aborting session h.session s v.states e q.aborting) q)
          | inr other ↦ rw other q
        ]

    by_waiting : (o : Option Waiting) → Silent session n (resumed i work o w)
    by_waiting none = k
    by_waiting (some h) =
        let left : World = record w { idles = remove_at i w.idles } in
        let q : Silent session n left = record { aborting = k.aborting; silent = k.silent } in
        let c = counted h left q in
        elim (Bool-cases work) [
          | inl yes_work ↦ rw yes_work (record { aborting = c.aborting; silent = c.silent })
          | inr no_work ↦ rw no_work q
        ]

pub fire-Silent :
    (i : ℕ) (session : String) (n : ℕ) (w : World)
    → Silent session n w
    → Silent session n (fire i w)
unfolding fire
fire-Silent i session n w k = by_timer (get_elem? w.timers i)
  where
    by_timer : (o : Option (ℕ × String)) → Silent session n (fired_at i o w)
    by_timer none = k
    by_timer (some (id, other)) =
        cancel_countdown-Silent session other n _
          (record { aborting = k.aborting; silent = k.silent })

injected-Silent :
    (g : Guards) (session other : String) (n : ℕ) (s : ContinuationState) (w : World)
    → GotSilent session other n (s, w)
    → Silent session n (injected g other (s, w))
injected-Silent g session other n s w q =
    elim (Bool-cases (s.is_aborting || g.background || g.recovering)) [
      | inl skipped ↦ rw skipped q.world
      | inr prompted ↦ elim (Bool-cases (str_eq other session)) [
        | inl same ↦
            let calm : s.is_aborting ≡ false = ground (arith, prompted) in
            cc (sym (q.state same) ∙ calm)
        | inr apart ↦ rw prompted (record {
          aborting = q.world.aborting;
          silent = times-other session other w.prompts apart ∙ q.world.silent;
        })
      ]
    ]

pub inject-Silent :
    (g : Guards) (work : Bool) (now i : ℕ) (session : String) (n : ℕ) (w : World)
    → Silent session n w
    → Silent session n (inject g work now i w)
unfolding inject
inject-Silent g work now i session n w k = by_callback (get_elem? w.fired i) work
  where
    by_callback : (o : Option String) (b : Bool) → Silent session n (inject_for g b now i o w)
    by_callback none b = k
    by_callback (some other) false = record { aborting = k.aborting; silent = k.silent }
    by_callback (some other) true =
        let left : World = record w { fired = remove_at i w.fired } in
        let r = get_state now other left in
        injected-Silent g session other n r.0 r.1 (
          get_state-GotSilent session other n now left
            (record { aborting = k.aborting; silent = k.silent }))
