-- ===== src/Mission/TrackerLaws.antt =====
-- src/core/loop/progress-tracker.ts: what the stagnation count counts.
use open_supervisor.Mission.Tracker.{
  accessed, track, TrackerStates, get_stagnation_count, mark_injection_performed, track_progress,
  TrackerState,
}
use open_supervisor.Prelude.{
  refl, false, ap, arith, ltb, ◌∙◌, length, ◌+◌, true, [], ◌≤◌, none, some, ◌∷◌, ◌≡◌, List, String,
  ℕ,
}
use open_supervisor.Prelude.Map

-- Checks at times, with the number of todos left.
unfoldable pub checks : String → List (ℕ × ℕ) → TrackerStates → TrackerStates
checks session [] m = m
checks session ((now, n) ∷ rest) m = checks session rest (track_progress now session n none m).0

-- No check has fewer todos left than the one before, from `n` on.
abbrev pub NeverFewer : ℕ → List (ℕ × ℕ) → Type 0
NeverFewer n [] = Unit
NeverFewer n (c ∷ cs) = (n ≤ c.1) × NeverFewer c.1 cs

track_stalled :
    (s : TrackerState) (previous n : ℕ)
    → s.last_incomplete_count ≡ some previous
    → s.awaiting_check ≡ true
    → previous ≤ n
    → let t = (track n none s).0 in
      (t.last_incomplete_count ≡ some n)
      × (t.awaiting_check ≡ true)
      × (t.stagnation_count ≡ s.stagnation_count + 1)
track_stalled s previous n e a le =
    let kept : ltb n previous ≡ false = ground arith in rw (e, kept, a) (refl, refl, refl)

checks_stalled :
    (session : String) (cs : List (ℕ × ℕ)) (m : TrackerStates) (s : TrackerState) (n : ℕ)
    → Map.get session m ≡ some s
    → s.last_incomplete_count ≡ some n
    → s.awaiting_check ≡ true
    → NeverFewer n cs
    → get_stagnation_count session (checks session cs m) ≡ s.stagnation_count + length cs
unfolding checks track_progress get_stagnation_count
checks_stalled session [] m s n e l a f = rw (get_stagnation_count, e) (omega arith)
checks_stalled session ((now, k) ∷ cs) m s n e l a f =
    let t = track_stalled (record s { last_accessed_at = now }) n k l a f.0 in
    let r = (track k none (record s { last_accessed_at = now })).0 in
    let here : Map.get session (track_progress now session k none m).0 ≡ some r =
      Map.get-set_self session _ m ∙ ap (λ o. some (track k none (accessed now o)).0) e in
    checks_stalled session cs (track_progress now session k none m).0 r k here t.0 t.1 f.1
    ∙ omega (arith, t.2)

-- Let the checks of a session be given the number of the todos left and not the todos, as the mission loop
-- calls them. Once the session was prompted after a first check, each check that does not find fewer todos
-- left than the one before raises its stagnation count by one.
pub stagnation_counts_checks :
    (session : String) (cs : List (ℕ × ℕ)) (now n : ℕ) (m : TrackerStates) (s : TrackerState)
    → Map.get session m ≡ some s
    → s.last_incomplete_count ≡ some n
    → NeverFewer n cs
    → get_stagnation_count session (checks session cs (mark_injection_performed now session m))
      ≡ s.stagnation_count + length cs
unfolding mark_injection_performed
stagnation_counts_checks session cs now n m s e l f =
    let prompted : TrackerState = record s { last_accessed_at = now; awaiting_check = true } in
    let here : Map.get session (mark_injection_performed now session m) ≡ some prompted =
      Map.get-set_self session _ m
      ∙ ap (λ o. some (record (accessed now o) { awaiting_check = true })) e in
    checks_stalled session cs (mark_injection_performed now session m) prompted n here l refl f
