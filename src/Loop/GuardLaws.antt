-- ===== src/Loop/GuardLaws.antt =====
-- src/core/loop/compaction-guard.ts: which epochs are safe.
use open_supervisor.Prelude.Map
use open_supervisor.Prelude.{
  ltb, refl, not, inr, inl, some, eq_iff, Option-cases, arith, ◌≤◌, ◌↔◌, true, ◌≢◌, ◌≡◌, String, ℕ,
}
use open_supervisor.Loop.Guard.{
  CompactionGuardState, CompactionStates, is_compaction_safe, arm_compaction_guard,
}

answer_at :
    (now : ℕ) (session : String) (epoch : ℕ) (m : CompactionStates) (s : CompactionGuardState)
    → Map.get session m ≡ some s
    → (is_compaction_safe now session epoch m).1 ≡ not (ltb s.compaction_epoch epoch)
unfolding is_compaction_safe
answer_at now session epoch m s e = rw (e, is_compaction_safe) refl

state_at :
    (now : ℕ) (session : String) (epoch : ℕ) (m : CompactionStates) (s : CompactionGuardState)
    → Map.get session m ≡ some s
    → Map.get session (is_compaction_safe now session epoch m).0
      ≡ some (record s { last_accessed_at = now })
unfolding is_compaction_safe
state_at now session epoch m s e = rw (e, is_compaction_safe) (Map.get-set_self session _ m)

same_answer :
    (now : ℕ) (session : String) (epoch : ℕ) (m n : CompactionStates)
    → Map.get session m ≡ Map.get session n
    → (is_compaction_safe now session epoch m).1 ≡ (is_compaction_safe now session epoch n).1
unfolding is_compaction_safe
same_answer now session epoch m n e = elim (Option-cases (Map.get session n)) [
  | inl absent ↦ rw (e, absent, is_compaction_safe) refl
  | inr (s, here) ↦ rw (e, here, is_compaction_safe) refl
]

-- After the guard is armed with an epoch, and one check since, an epoch is safe exactly if it is not
-- later than the armed one.
pub armed_safe_iff :
    (now later much_later : ℕ) (session : String) (timestamp asked epoch : ℕ) (m : CompactionStates)
    → let m1 = (arm_compaction_guard now session timestamp m).0 in
      let m2 = (is_compaction_safe later session asked m1).0 in
      ((is_compaction_safe much_later session epoch m2).1 ≡ true) ↔ (epoch ≤ timestamp)
unfolding arm_compaction_guard
armed_safe_iff now later much_later session timestamp asked epoch m =
    let armed : CompactionGuardState = record {
      compaction_epoch = timestamp;
      last_accessed_at = now;
    } in
    rw
      (answer_at much_later session epoch _ (record armed { last_accessed_at = later })
        (state_at later session asked _ armed (Map.get-set_self session armed m)))
      (ground arith)

-- Arming one session does not change what is safe for another.
pub armed_other :
    (now later : ℕ) (session other : String) (timestamp epoch : ℕ) (m : CompactionStates)
    → session ≢ other
    → let m1 = (arm_compaction_guard now session timestamp m).0 in
      (is_compaction_safe later other epoch m1).1 ≡ (is_compaction_safe later other epoch m).1
unfolding arm_compaction_guard
armed_other now later session other timestamp epoch m h = same_answer later other epoch _ m (
    ground (
      arith,
      Map.get-set session other (record { compaction_epoch = timestamp; last_accessed_at = now }) m,
      eq_iff session other,
      h,
    ))
