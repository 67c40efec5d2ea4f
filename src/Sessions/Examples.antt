-- ===== src/Sessions/Examples.antt =====
-- The theorems about src/core/agents/session-pool.ts at concrete inputs.
use open_supervisor.Sessions.Exclusive.{acquired, acquire_twice}
use open_supervisor.Sessions.Pool.{
  session_created, find_session, fresh, default_config, acquire, new, PooledSession, SessionPool,
}
use open_supervisor.Prelude.Map
use open_supervisor.Prelude.{some, none, String, refl, ◌≢◌, [], ◌∷◌, false}

abbrev busy : PooledSession
busy = fresh 1000 "coder"

abbrev rested : PooledSession
rested = record busy { in_use = false }

-- A session that is free.
abbrev one : SessionPool
one = record (new default_config) {
  pool = ("coder", "s1" ∷ []) ∷ [];
  sessions_by_id = ("s1", rested) ∷ [];
}

-- The first call reuses the session and the second one creates another.
acquire_twice_example : ◌≢◌ {A = String} "s1" "s2"
unfolding new acquire session_created find_session Map.get_or Map.get Map.set
acquire_twice_example =
    let first = (acquired 2000 "coder" none one).0 in
    acquire_twice 2000 2001 "coder" "coder" none (some "s2") one first
      (acquired 2001 "coder" (some "s2") first).0 "s1" "s2" refl refl refl
