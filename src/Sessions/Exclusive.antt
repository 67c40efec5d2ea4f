-- ===== src/Sessions/Exclusive.antt =====
-- src/core/agents/session-pool.ts: a session in use is not handed out again, and what a release and a
-- deletion leave.
use open_supervisor.Prelude.Map.{Map}
use open_supervisor.Sessions.Pool.{
  fresh, session_created, degraded, healthy, idle, agent_pool, reused, is_available, is_retired,
  session_reset, release_ended, PooledSession, release_started, acquire, SessionPool,
  delete_session, update, find_session, release,
}
use open_supervisor.Prelude.Map
use open_supervisor.Prelude.{
  ap₂, subst, Option, refl, if◌then◌else◌, [], leb, Bool-cases, arith, ◌∷◌, ◌∙◌, ap, inr, length,
  sym, true, ◌<◌, List, inl, Option-cases, ◌≢◌, false, Bool, none, some, ◌≡◌, String, ℕ,
}

find_session-found :
    (test : PooledSession → Bool) (m : Map PooledSession) (ids : List String) (id : String)
    (s : PooledSession)
    → find_session test m ids ≡ some (id, s)
    → (Map.get id m ≡ some s) × (test s ≡ true)
unfolding find_session
find_session-found test m [] id s e = cc
find_session-found test m (j ∷ ids) id s e = elim (Option-cases (Map.get j m)) [
  | inl absent ↦ find_session-found test m ids id s (rw (absent, find_session) at e)
  | inr (t, here) ↦ elim (Bool-cases (test t)) [
    | inl good ↦
        let found : ◌≡◌ {A = String × PooledSession} (j, t) (id, s) =
          ground (arith, rw (here, good, find_session) at e) in
        let same_id : j ≡ id = ap (λ x. x.0) found in
        let same : t ≡ s = ap (λ x. x.1) found in (rw (← same_id, ← same) here, rw (← same) good)
    | inr bad ↦ find_session-found test m ids id s (rw (here, bad, find_session) at e)
  ]
]

-- What it means that `acquire` gave a session of the pool `p` and left the pool `q`.
pub record IsReuse (now : ℕ) (p q : SessionPool) (id : String) : Type 0 where
  pub session : PooledSession
  pub there : Map.get id p.sessions_by_id ≡ some session
  pub was_free : session.in_use ≡ false
  pub had_uses : session.reuse_count < p.config.max_reuse_count
  pub taken : Map.get id q.sessions_by_id ≡ some (reused now session)

-- When `acquire` reuses a session, the session was in use by nobody and had uses left, and now it is in
-- use and counted once more.
pub acquire-IsReuse :
    (now : ℕ) (agent : String) (p q : SessionPool) (id : String)
    → acquire now agent p ≡ (q, some id)
    → IsReuse now p q id
unfolding acquire
acquire-IsReuse now agent p q id e =
    elim (Option-cases
      (find_session (is_available p.config) p.sessions_by_id (agent_pool agent p))) [
        | inl nothing ↦ cc (ap (λ r. r.1) (rw (nothing, acquire) at e))
        | inr ((j, s), here) ↦
            let (there, ok) = find_session-found _ _ _ j s here in
            let f = rw (here, acquire) at e in
            let same_id : j ≡ id = ground (arith, ap (λ r. r.1) f) in
            let left : Map.set j (reused now s) p.sessions_by_id ≡ q.sessions_by_id =
              ap (λ r. r.0.sessions_by_id) f in
            record {
              session = s;
              there = rw (← same_id) there;
              was_free = ground (arith, ok);
              had_uses = ground (arith, ok);
              taken = rw (← left, ← same_id) (Map.get-set_self j (reused now s) p.sessions_by_id);
            }
      ]

-- `acquire` with nothing in between: a session is reused, or created with the id that the server answers.
abbrev pub acquired : ℕ → String → Option String → SessionPool → SessionPool × Option String
acquired now agent answer p =
    let r = acquire now agent p in
    elim r.1 [ some id ↦ (r.0, some id) | none ↦ session_created now agent answer r.0 ]

-- An answer of the server with an id that the pool does not have, or with none.
abbrev pub IsNew : Option String → SessionPool → Type 0
IsNew none p = Unit
IsNew (some id) p = Map.get id p.sessions_by_id ≡ none

acquire-none :
    (now : ℕ) (agent : String) (p : SessionPool)
    → (acquire now agent p).1 ≡ none
    → (acquire now agent p).0.sessions_by_id ≡ p.sessions_by_id
unfolding acquire
acquire-none now agent p e =
    elim (Option-cases
      (find_session (is_available p.config) p.sessions_by_id (agent_pool agent p))) [
        | inl nothing ↦ rw (nothing, acquire) refl
        | inr (found, here) ↦ cc (rw (here, acquire) at e)
      ]

-- The session that was given is in use, and before it was free or not in the pool.
abbrev InUse : String → SessionPool → Type 0
InUse id p = (s : PooledSession) × (Map.get id p.sessions_by_id ≡ some s) × (s.in_use ≡ true)

acquired-InUse :
    (now : ℕ) (agent : String) (answer : Option String) (p q : SessionPool) (id : String)
    → acquired now agent answer p ≡ (q, some id)
    → InUse id q
unfolding session_created
acquired-InUse now agent answer p q id e = by_answer (acquire now agent p).1 answer refl e
  where
    by_answer :
        (o a : Option String)
        → (acquire now agent p).1 ≡ o
        → ◌≡◌ {A = SessionPool × Option String}
            (elim o as (λ x. SessionPool × Option String) [
              | some id ↦ ((acquire now agent p).0, some id)
              | none ↦ session_created now agent a (acquire now agent p).0
            ])
            (q, some id)
        → InUse id q
    by_answer (some j) a o f =
        let whole : acquire now agent p ≡ (q, some id) =
          ap₂ (λ x y. (x, y)) (ap (λ r. r.0) f) (o ∙ ap (λ r. r.1) f) in
        let k = acquire-IsReuse now agent p q id whole in (reused now k.session, k.taken, refl)
    by_answer none none o f = cc (ap (λ r. r.1) f)
    by_answer none (some j) o f =
        let same : j ≡ id = ground (arith, ap (λ r. r.1) f) in
        let sessions : Map.set j (fresh now agent) (acquire now agent p).0.sessions_by_id
            ≡ q.sessions_by_id =
          ap (λ r. r.0.sessions_by_id) f in
        (
          fresh now agent,
          rw (← sessions, ← same)
              (Map.get-set_self j (fresh now agent) (acquire now agent p).0.sessions_by_id),
          refl,
        )

-- What is given was not in use before.
acquired-free :
    (now : ℕ) (agent : String) (answer : Option String) (p q : SessionPool) (id : String)
    → IsNew answer p
    → acquired now agent answer p ≡ (q, some id)
    → ¬ InUse id p
unfolding session_created
acquired-free now agent answer p q id new e = by_answer (acquire now agent p).1 answer refl new e
  where
    by_answer :
        (o a : Option String)
        → (acquire now agent p).1 ≡ o
        → IsNew a p
        → ◌≡◌ {A = SessionPool × Option String}
            (elim o as (λ x. SessionPool × Option String) [
              | some id ↦ ((acquire now agent p).0, some id)
              | none ↦ session_created now agent a (acquire now agent p).0
            ])
            (q, some id)
        → ¬ InUse id p
    by_answer (some j) a o n f (s, there, used) =
        let whole : acquire now agent p ≡ (q, some id) =
          ap₂ (λ x y. (x, y)) (ap (λ r. r.0) f) (o ∙ ap (λ r. r.1) f) in
        let k = acquire-IsReuse now agent p q id whole in
        let both : some k.session ≡ some s = sym k.there ∙ there in
        let one : k.session ≡ s = ground (arith, both) in
        let clash : false ≡ true = sym k.was_free ∙ ap (λ x. x.in_use) one ∙ used in cc clash
    by_answer none none o n f used = cc (ap (λ r. r.1) f)
    by_answer none (some j) o n f (s, there, used) =
        let same : j ≡ id = ground (arith, ap (λ r. r.1) f) in
        cc (sym n ∙ ap (λ k. Map.get k p.sessions_by_id) same ∙ there)

-- Two calls of `acquire` with nothing in between, for whatever agents, never give the same session,
-- whether they reuse or create it, if the server answers the second call with no id that the pool has.
pub acquire_twice :
    (now later : ℕ) (agent other : String) (answer next_answer : Option String)
    (p q r : SessionPool) (id next : String)
    → IsNew next_answer q
    → acquired now agent answer p ≡ (q, some id)
    → acquired later other next_answer q ≡ (r, some next)
    → id ≢ next
acquire_twice now later agent other answer next_answer p q r id next new e f same =
    acquired-free later other next_answer q r next new f
      (subst (λ k. InUse k q) same (acquired-InUse now agent answer p q id e))

update-some :
    (f : PooledSession → PooledSession) (id : String) (p : SessionPool) (s : PooledSession)
    → Map.get id p.sessions_by_id ≡ some s
    → Map.get id (update f id p).sessions_by_id ≡ some (f s)
unfolding update
update-some f id p s e = rw (e, update) (Map.get-set_self id (f s) p.sessions_by_id)

-- After the release of a session that is not retired, while its agent has room for one more, the session
-- is in use by nobody and has as many uses counted, whether it was in use before or not.
pub release_frees :
    (now : ℕ) (compacted : Bool) (id : String) (p : SessionPool) (s : PooledSession)
    → Map.get id p.sessions_by_id ≡ some s
    → is_retired now p.config s ≡ false
    → length (idle p.sessions_by_id (agent_pool s.agent_name p)) < p.config.max_pool_size_per_agent
    → (t : PooledSession) × (Map.get id (release now compacted id p).sessions_by_id ≡ some t)
      × (t.in_use ≡ false)
      × (t.reuse_count ≡ s.reuse_count)
unfolding release release_started release_ended session_reset
release_frees now compacted id p s e keeps room =
    rw (e, release_started, keeps, no_eviction)
      (
        record (reset s) { in_use = false },
        update-some (λ u. record u { in_use = false }) id (session_reset now compacted id p)
            (reset s) (update-some reset id p s e),
        refl,
        ground arith,
      )
  where
    reset : PooledSession → PooledSession
    reset u =
        if compacted
        then record u { last_reset_at = now; health = healthy }
        else record u { health = degraded }

    no_eviction :
        leb p.config.max_pool_size_per_agent
          (length (idle p.sessions_by_id (agent_pool s.agent_name p)))
        ≡ false
    no_eviction = ground arith

-- After `deleteSession` the session is not among the sessions any more.
pub delete_session-gone :
    (id : String) (p : SessionPool) → Map.get id (delete_session id p).sessions_by_id ≡ none
unfolding delete_session
delete_session-gone id p = elim (Option-cases (Map.get id p.sessions_by_id)) [
  | inl absent ↦ rw (absent, delete_session) absent
  | inr (s, here) ↦ rw (here, delete_session) (Map.get-delete_self id p.sessions_by_id)
]
