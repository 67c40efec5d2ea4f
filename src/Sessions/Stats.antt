-- ===== src/Sessions/Stats.antt =====
-- src/core/agents/session-pool.ts: `getStats`.
use open_supervisor.Sessions.Pool.{passes, PooledSession, SessionPool}
use open_supervisor.Prelude.Map.{Map}
use open_supervisor.Prelude.Map
use open_supervisor.Prelude.{map, ◌-◌, String, List, filter, length, ℕ}

pub record AgentStats : Type 0 where
  pub total : ℕ
  pub in_use : ℕ
  pub available : ℕ

pub record SessionPoolStats : Type 0 where
  pub total_sessions : ℕ
  pub sessions_in_use : ℕ
  pub available_sessions : ℕ
  pub reuse_hits : ℕ
  pub creation_misses : ℕ
  pub by_agent : Map AgentStats

abbrev pub used : Map PooledSession → List String → ℕ
used m ids = length (filter (λ id. passes (λ s. s.in_use) (Map.get id m)) ids)

abbrev pub agent_stats : Map PooledSession → List String → AgentStats
agent_stats m ids = record {
  total = length ids;
  in_use = used m ids;
  available = length ids - used m ids;
}

unfoldable pub get_stats : SessionPool → SessionPoolStats
get_stats p =
    let in_use_count : ℕ = length (filter (λ s. s.in_use) (Map.values p.sessions_by_id)) in
    record {
      total_sessions = length p.sessions_by_id;
      sessions_in_use = in_use_count;
      available_sessions = length p.sessions_by_id - in_use_count;
      reuse_hits = p.reuse_hits;
      creation_misses = p.creation_misses;
      by_agent = map (λ (e : String × List String). (e.0, agent_stats p.sessions_by_id e.1)) p.pool;
    }
