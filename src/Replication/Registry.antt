-- ===== src/Replication/Registry.antt =====
-- src/replication/follower_registry.h and follower_registry.cpp: what the leader knows of each
-- follower. The map is the list of its values: the key of each is its `node_id`. The clock's value
-- is an argument, and the lock is left out.
use nyxdb.Base.{
  ℕ, ◌+◌, ◌-◌, ◌≤◌, ◌<◌, Bool, true, false, not, ◌&&◌, List, [], ◌∷◌, arith, ltb, min,
  if◌then◌else◌, Bool-cases, inl, inr,
}
use nyxdb.Base.Strings.{str_eq}
use nyxdb.Base.Words.{u64_mod}

pub record FollowerState : Type 0 where
  pub node_id : List ℕ
  pub confirmed_lsn : ℕ
  pub active_queries : ℕ
  pub last_ack : ℕ
  pub stale : Bool

unfoldable pub upsert : List ℕ → ℕ → ℕ → ℕ → List FollowerState → List FollowerState
unfolding str_eq
upsert id lsn queries now [] =
    record {
      node_id = id;
      confirmed_lsn = lsn;
      active_queries = queries;
      last_ack = now;
      stale = false;
    }
    ∷ []
upsert id lsn queries now (s ∷ ss) =
    let rest = upsert id lsn queries now ss in
    if str_eq s.node_id id
    then record {
      node_id = id;
      confirmed_lsn = lsn;
      active_queries = queries;
      last_ack = now;
      stale = false;
    }
      ∷ ss
    else s ∷ rest

unfoldable pub evict : ℕ → ℕ → FollowerState → FollowerState
evict leader_lsn max_lag s =
    if not s.stale && (ltb s.confirmed_lsn leader_lsn && ltb max_lag (leader_lsn - s.confirmed_lsn))
    then record s { stale = true }
    else s

unfoldable pub evict_stale : ℕ → ℕ → List FollowerState → List FollowerState
unfolding evict
evict_stale leader_lsn max_lag [] = []
evict_stale leader_lsn max_lag (s ∷ ss) =
    evict leader_lsn max_lag s ∷ evict_stale leader_lsn max_lag ss

unfoldable pub min_loop : ℕ → List FollowerState → ℕ
min_loop m [] = m
min_loop m (s ∷ ss) = min_loop (if s.stale then m else min m s.confirmed_lsn) ss

unfoldable pub min_confirmed_lsn : List FollowerState → ℕ
unfolding min_loop
min_confirmed_lsn ss = min_loop (u64_mod - 1) ss

evict_lag :
    (leader lag m : ℕ) (s : FollowerState)
    → leader ≤ m + lag
    → leader
      ≤ (if (evict leader lag s).stale then m else min m (evict leader lag s).confirmed_lsn) + lag
unfolding evict
evict_lag leader lag m s h = ground arith

min_loop-evict_stale :
    (leader lag : ℕ) (ss : List FollowerState) (m : ℕ)
    → leader ≤ m + lag
    → leader ≤ min_loop m (evict_stale leader lag ss) + lag
unfolding min_loop evict_stale
min_loop-evict_stale leader lag [] m h = h
min_loop-evict_stale leader lag (s ∷ ss) m h =
    min_loop-evict_stale leader lag ss _ (evict_lag leader lag m s h)

-- After an eviction, the log that is kept for the followers is at most `max_lag_bytes` behind the
-- leader, whatever the followers confirmed.
pub min_confirmed_lsn-evict_stale :
    (leader_lsn max_lag : ℕ) (ss : List FollowerState)
    → leader_lsn < u64_mod
    → leader_lsn ≤ min_confirmed_lsn (evict_stale leader_lsn max_lag ss) + max_lag
unfolding min_confirmed_lsn
min_confirmed_lsn-evict_stale leader lag ss h =
    min_loop-evict_stale leader lag ss (u64_mod - 1) (omega arith)

min_loop_le : (m : ℕ) (ss : List FollowerState) → min_loop m ss ≤ m
unfolding min_loop
min_loop_le m [] = omega arith
min_loop_le m (s ∷ ss) =
    ground (arith, min_loop_le (if s.stale then m else min m s.confirmed_lsn) ss)

min_loop-upsert :
    (lsn queries now : ℕ) (id : List ℕ) (ss : List FollowerState) (m : ℕ)
    → min_loop m (upsert id lsn queries now ss) ≤ lsn
unfolding min_loop upsert
min_loop-upsert lsn queries now id [] m = omega arith
min_loop-upsert lsn queries now id (s ∷ ss) m = elim (Bool-cases (str_eq s.node_id id)) [
  | inl e ↦ rw e (ground (arith, min_loop_le (min m lsn) ss))
  | inr e ↦
      rw e (min_loop-upsert lsn queries now id ss (if s.stale then m else min m s.confirmed_lsn))
]

-- Right after a follower confirms a position, the position that counts as confirmed by all is at
-- most that one, also when the follower was stale before.
pub min_confirmed_lsn-upsert :
    (id : List ℕ) (lsn queries now : ℕ) (ss : List FollowerState)
    → min_confirmed_lsn (upsert id lsn queries now ss) ≤ lsn
unfolding min_confirmed_lsn
min_confirmed_lsn-upsert id lsn queries now ss = min_loop-upsert lsn queries now id ss (u64_mod - 1)
