-- ===== src/Server/ReplicaCoordinator.antt =====
-- src/server/replica_coordinator.h and replica_coordinator.cpp: reads go round the replicas, all other
-- statements to the leader. The pool of clients is a parameter: what `execute` and `evict` make of it.
pub mod Reads
pub mod Members
mod Tests
use nyxdb.Base.{
  ℕ, zero, suc, ◌+◌, ◌-◌, ◌%◌, Bool, true, false, not, ◌&&◌, ◌||◌, List, [], ◌∷◌, ◌++◌, map, ◌==◌,
  ltb, leb, if◌then◌else◌, length, take, drop, get_or,
}
use nyxdb.Base.Strings.{is_empty, str_eq, text}
use nyxdb.Common.Result.{Result}

pub record Coordinator (P : Type 0) : Type 0 where
  pub replicas : List (List ℕ)
  pub leader_addr : List ℕ
  pub rr_idx : ℕ
  pub token : List ℕ
  pub pool : P

unfoldable pub has_addr : List ℕ → List (List ℕ) → Bool
has_addr addr [] = false
has_addr addr (r ∷ rs) = str_eq r addr || has_addr addr rs

-- `erase` at what `std::find` gives.
unfoldable pub erase_addr : List ℕ → List (List ℕ) → List (List ℕ)
erase_addr addr [] = []
erase_addr addr (r ∷ rs) = let rest = erase_addr addr rs in if str_eq r addr then rs else r ∷ rest

-- `std::isspace` and `std::toupper` of the "C" locale.
unfoldable pub is_blank : ℕ → Bool
is_blank c = (leb 9 c && leb c 13) || c == 32

unfoldable pub to_upper : ℕ → ℕ
to_upper c = if leb b'a' c && leb c b'z' then c - 32 else c

-- The loop over white space in front of a statement.
unfoldable pub skip_blanks : List ℕ → List ℕ
unfolding is_blank
skip_blanks [] = []
skip_blanks (c ∷ cs) = let rest = skip_blanks cs in if is_blank c then rest else c ∷ cs

unfoldable pub is_write : List ℕ → Bool
unfolding skip_blanks to_upper
is_write sql =
    let rest = skip_blanks sql in
    if ltb (length rest) 6 then true else not (str_eq (map to_upper (take 6 rest)) (text "SELECT"))

module _ {P : Type 0} where
  abbrev pub make : List ℕ → P → Coordinator P
  make token pool = record {
    replicas = [];
    leader_addr = [];
    rr_idx = 0;
    token = token;
    pool = pool;
  }

  unfoldable pub register_node : List ℕ → Bool → Coordinator P → Coordinator P
  unfolding has_addr
  register_node addr is_leader s = record s {
    replicas = if has_addr addr s.replicas then s.replicas else s.replicas ++ addr ∷ [];
    leader_addr = if is_leader then addr else s.leader_addr;
  }

  unfoldable pub notify_leader : (P → List ℕ → P) → List ℕ → List ℕ → Coordinator P → Coordinator P
  unfolding erase_addr
  notify_leader evict old_addr new_addr s = record s {
    replicas = erase_addr old_addr s.replicas;
    leader_addr = new_addr;
    pool = evict s.pool old_addr;
  }

  unfoldable pub pick_replica : Coordinator P → List ℕ × Coordinator P
  pick_replica s =
      let n = length s.replicas in
      if is_empty s.replicas
      then ([], s)
      else (get_or s.replicas (s.rr_idx % n) [], record s { rr_idx = (s.rr_idx + 1) % n })

  abbrev pub with_pool {ℓ} : {R : Type ℓ} → Coordinator P → R × P → R × Coordinator P
  with_pool s (answer, pool) = (answer, record s { pool = pool })

  unfoldable pub execute {ℓ} :
      {R : Type ℓ}
      → (P → List ℕ → List ℕ → List ℕ → Result R × P)
      → List ℕ
      → Coordinator P
      → Result R × Coordinator P
  unfolding pick_replica
  execute pool_execute sql s =
      let (replica, next) = pick_replica s in
      if is_write sql
      then (if is_empty s.leader_addr
          then (Result.err (text "replica_coordinator: no leader registered"), s)
          else with_pool s (pool_execute s.pool s.leader_addr s.token sql))
      else if is_empty replica
      then (Result.err (text "replica_coordinator: no replicas registered"), next)
      else with_pool next (pool_execute next.pool replica next.token sql)
