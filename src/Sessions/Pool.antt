-- ===== src/Sessions/Pool.antt =====
-- src/core/agents/session-pool.ts and src/core/agents/interfaces/session-pool.interface.ts. A session
-- object is known by its id, so the arrays of `pool` hold ids and `sessionsById` the fields; the server
-- gives every new session another id. A method that awaits the server is the functions that run before
-- and after it. The clock is the argument `now`, in milliseconds, and does not run backwards.
use open_supervisor.Prelude.Map.{Map}
use open_supervisor.Prelude.Map
use open_supervisor.Prelude.{
  ◌*◌, ◌-◌, length, ◌||◌, ltb, ◌&&◌, ◌++◌, str_eq, none, false, not, ◌∷◌, leb, some, ◌+◌,
  if◌then◌else◌, [], true, String, List, Bool, Option, ℕ,
}

pub data Health : Type 0 where
  healthy : Health
  degraded : Health
  unhealthy : Health

pub record PooledSession : Type 0 where
  pub agent_name : String
  pub created_at : ℕ
  pub last_used_at : ℕ
  pub reuse_count : ℕ
  pub in_use : Bool
  pub health : Health
  pub last_reset_at : ℕ

pub record SessionPoolConfig : Type 0 where
  pub max_pool_size_per_agent : ℕ
  pub idle_timeout_ms : ℕ
  pub max_reuse_count : ℕ

pub record SessionPool : Type 0 where
  pub pool : Map (List String)
  pub sessions_by_id : Map PooledSession
  pub config : SessionPoolConfig
  pub reuse_hits : ℕ
  pub creation_misses : ℕ

abbrev pub default_config : SessionPoolConfig
default_config = record {
  max_pool_size_per_agent = 5;
  idle_timeout_ms = 300000;
  max_reuse_count = 10;
}

unfoldable pub new : SessionPoolConfig → SessionPool
new config = record {
  pool = [];
  sessions_by_id = [];
  config = config;
  reuse_hits = 0;
  creation_misses = 0;
}

abbrev pub agent_pool : String → SessionPool → List String
agent_pool agent p = Map.get_or agent [] p.pool

-- Whether the session of an id passes a test.
abbrev pub passes : (PooledSession → Bool) → Option PooledSession → Bool
passes test none = false
passes test (some s) = test s

abbrev pub is_available : SessionPoolConfig → PooledSession → Bool
is_available config s = not s.in_use && ltb s.reuse_count config.max_reuse_count

-- `Array.find` on the sessions of an agent.
unfoldable pub find_session :
    (PooledSession → Bool) → Map PooledSession → List String → Option (String × PooledSession)
find_session test m [] = none
find_session test m (id ∷ ids) = elim (Map.get id m) [
  | none ↦ find_session test m ids
  | some s ↦ if test s then some (id, s) else find_session test m ids
]

abbrev pub reused : ℕ → PooledSession → PooledSession
reused now s = record s { in_use = true; last_used_at = now; reuse_count = s.reuse_count + 1 }

-- `acquire` up to the call of `createSession`: the id of the session that is reused, if there is one.
unfoldable pub acquire : ℕ → String → SessionPool → SessionPool × Option String
acquire now agent p =
    elim (find_session (is_available p.config) p.sessions_by_id (agent_pool agent p)) [
      | some (id, s) ↦ (
        record p {
          sessions_by_id = Map.set id (reused now s) p.sessions_by_id;
          reuse_hits = p.reuse_hits + 1;
        },
        some id,
      )
      | none ↦ (record p { creation_misses = p.creation_misses + 1 }, none)
    ]

abbrev pub fresh : ℕ → String → PooledSession
fresh now agent = record {
  agent_name = agent;
  created_at = now;
  last_used_at = now;
  reuse_count = 0;
  in_use = true;
  health = healthy;
  last_reset_at = now;
}

-- `createSession` once the server has answered: the session with the id is added, and given to the
-- caller. An answer with no id is thrown as an error and changes nothing.
unfoldable pub session_created :
    ℕ → String → Option String → SessionPool → SessionPool × Option String
session_created now agent none p = (p, none)
session_created now agent (some id) p = (
  record p {
    pool = Map.set agent (agent_pool agent p ++ (id ∷ [])) p.pool;
    sessions_by_id = Map.set id (fresh now agent) p.sessions_by_id;
  },
  some id,
)

-- `splice` at the first index of the id.
abbrev pub without_first : String → List String → List String
without_first id [] = []
without_first id (j ∷ ids) = if str_eq j id then ids else j ∷ without_first id ids

abbrev pub put_agent_pool : String → List String → Map (List String) → Map (List String)
put_agent_pool agent [] m = Map.delete agent m
put_agent_pool agent (id ∷ ids) m = Map.set agent (id ∷ ids) m

-- `deleteSession` before the server is told.
unfoldable pub delete_session : String → SessionPool → SessionPool
delete_session id p = elim (Map.get id p.sessions_by_id) [
  | none ↦ p
  | some s ↦ record p {
    sessions_by_id = Map.delete id p.sessions_by_id;
    pool = elim (Map.get s.agent_name p.pool) [
      | none ↦ p.pool
      | some ids ↦ put_agent_pool s.agent_name (without_first id ids) p.pool
    ];
  }
]

unfoldable pub invalidate : String → SessionPool → SessionPool
unfolding delete_session
invalidate id p = delete_session id p

-- Whether `release` retires the session.
abbrev pub is_retired : ℕ → SessionPoolConfig → PooledSession → Bool
is_retired now config s =
    leb config.max_reuse_count s.reuse_count
    || ltb (config.idle_timeout_ms * 2) (now - s.created_at)

-- The sessions of an agent that nobody uses.
unfoldable pub idle : Map PooledSession → List String → List (String × PooledSession)
idle m [] = []
idle m (id ∷ ids) = elim (Map.get id m) [
  | none ↦ idle m ids
  | some s ↦ if s.in_use then idle m ids else (id, s) ∷ idle m ids
]

-- The first of those that were used the longest time ago: the head of the stable sort.
abbrev pub oldest : List (String × PooledSession) → Option (String × PooledSession)
oldest [] = none
oldest (e ∷ es) = elim (oldest es) [
  | none ↦ some e
  | some o ↦ if ltb o.1.last_used_at e.1.last_used_at then some o else some e
]

abbrev pub delete_oldest : Option (String × PooledSession) → SessionPool → SessionPool
delete_oldest none p = p
delete_oldest (some e) p = delete_session e.0 p

-- `release` up to the reset, and whether it goes on to it.
unfoldable pub release_started : ℕ → String → SessionPool → SessionPool × Bool
release_started now id p = elim (Map.get id p.sessions_by_id) [
  | none ↦ (p, false)
  | some s ↦
      if is_retired now p.config s
      then (invalidate id p, false)
      else (let free : List (String × PooledSession) =
            idle p.sessions_by_id (agent_pool s.agent_name p) in
          if leb p.config.max_pool_size_per_agent (length free)
          then (delete_oldest (oldest free) p, true)
          else (p, true))
]

-- A change of the fields of a session, which shows while the session is in the maps.
unfoldable pub update : (PooledSession → PooledSession) → String → SessionPool → SessionPool
update f id p = elim (Map.get id p.sessions_by_id) [
  | none ↦ p
  | some s ↦ record p { sessions_by_id = Map.set id (f s) p.sessions_by_id }
]

-- The end of `resetSession`, for whether the compaction succeeded.
unfoldable pub session_reset : ℕ → Bool → String → SessionPool → SessionPool
session_reset now compacted id p =
    update
      (λ s.
        if compacted
        then record s { last_reset_at = now; health = healthy }
        else record s { health = degraded })
      id p

-- The end of `release`.
unfoldable pub release_ended : String → SessionPool → SessionPool
release_ended id p = update (λ s. record s { in_use = false }) id p

-- `release` with nothing in between.
unfoldable pub release : ℕ → Bool → String → SessionPool → SessionPool
release now compacted id p =
    let (q, resets) = release_started now id p in
    if resets then release_ended id (session_reset now compacted id q) else q

abbrev pub is_stale : ℕ → SessionPoolConfig → PooledSession → Bool
is_stale now config s = not s.in_use && ltb config.idle_timeout_ms (now - s.last_used_at)

-- The loop of `cleanup` over the entries, and the number of deleted sessions.
unfoldable pub cleanup_all : ℕ → Map PooledSession → SessionPool → SessionPool × ℕ
cleanup_all now [] p = (p, 0)
cleanup_all now ((id, s) ∷ m) p = elim (is_stale now p.config s) [
  | true ↦ let (q, n) = cleanup_all now m (delete_session id p) in (q, n + 1)
  | false ↦ cleanup_all now m p
]

unfoldable pub cleanup : ℕ → SessionPool → SessionPool × ℕ
cleanup now p = cleanup_all now p.sessions_by_id p

unfoldable pub shutdown : SessionPool → SessionPool
shutdown p = record p { pool = []; sessions_by_id = [] }
