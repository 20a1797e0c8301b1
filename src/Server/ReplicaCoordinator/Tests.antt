-- ===== src/Server/ReplicaCoordinator/Tests.antt =====
-- A coordinator of src/server/replica_coordinator.cpp with two replicas.
use nyxdb.Base.{ℕ, ◌<◌, ◌≡◌, refl, true, false, List, [], ◌∷◌, ◌++◌, map, arith, length, All}
use nyxdb.Base.Strings.{text, str_eq}
use nyxdb.Common.Result.{Result}
use nyxdb.Server.ReplicaCoordinator.{
  Coordinator, has_addr, is_blank, to_upper, is_write, notify_leader, pick_replica, execute, make,
}
use nyxdb.Server.ReplicaCoordinator.Reads.{after_reads, pick_replica_fair, is_write-read}
use nyxdb.Server.ReplicaCoordinator.Members.{
  Distinct, Call, run, Routed, notify_leader-run, execute-Routed,
}

-- A pool that keeps what it sent, and forgets it at an eviction.
abbrev Sent : Type 0
Sent = List (List ℕ × List ℕ)

abbrev send : Sent → List ℕ → List ℕ → List ℕ → Result ℕ × Sent
send sent addr token sql = (Result.ok (length sql), (addr, sql) ∷ sent)

abbrev forget : Sent → List ℕ → Sent
forget sent addr = []

abbrev pair : Coordinator Sent
pair = record {
  replicas = text "a" ∷ text "b" ∷ [];
  leader_addr = text "a";
  rr_idx = 1;
  token = text "t";
  pool = [];
}

execute_write_test :
    (execute send (text " update t") pair).1.pool ≡ (text "a", text " update t") ∷ []
unfolding execute is_write str_eq
execute_write_test = refl

execute_read_test :
    (execute send (text " Select 1") pair).1.pool ≡ (text "b", text " Select 1") ∷ []
unfolding execute is_write str_eq
execute_read_test = refl

execute-Routed_example : Routed send (text " select 1") pair (execute send (text " select 1") pair)
execute-Routed_example = execute-Routed send (text " select 1") pair

pick_replica_fair_example : (k : ℕ) × (k < 2) × ((pick_replica (after_reads k pair)).0 ≡ text "a")
pick_replica_fair_example = pick_replica_fair pair 0 (omega arith)

is_write-read_example :
    (w word rest : List ℕ) × All (λ c. is_blank c ≡ true) w
    × (text " select 1" ≡ w ++ (word ++ rest))
    × (map to_upper word ≡ text "SELECT")
unfolding is_write str_eq
is_write-read_example = is_write-read (text " select 1") refl

abbrev calls : List Call
calls =
    Call.register (text "a") true
    ∷ Call.register (text "b") false
    ∷ Call.register (text "a") false
    ∷ Call.read
    ∷ []

notify_leader-run_example :
    Distinct (run forget calls (make (text "t") [])).replicas
    × (has_addr
          (text "a")
          (notify_leader forget
            (text "a")
            (text "b")
            (run forget calls (make (text "t") []))).replicas
        ≡ false)
notify_leader-run_example = notify_leader-run forget (text "t") [] calls (text "a") (text "b")
