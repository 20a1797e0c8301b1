-- ===== src/Replication/Election.antt =====
-- src/replication/election.h and election.cpp: the election of a leader, one node's side of it.
-- A handler returns the node's new state and, in order, what it does to the outside: callbacks,
-- frames to peers, the answer to a vote request. The WAL position, a callback in the source, is an
-- argument. The state file `election_state.bin` is a field of the node, its bytes or `none`, and how
-- the calls on it come out is an argument of the handlers that save.
pub mod Persist
pub mod Saved
pub mod Steps
pub mod Terms
pub mod Votes
pub mod Quorum
use nyxdb.Base.{
  ℕ, zero, suc, ◌+◌, ◌-◌, ◌/◌, ◌%◌, Bool, true, false, not, ◌&&◌, ◌||◌, List, [], ◌∷◌, ◌++◌, Option,
  none, some, ltb, leb, ◌==◌, if◌then◌else◌, length, take, drop, map,
}
use nyxdb.Base.Int.{ℤ}
use nyxdb.Base.Strings.{is_empty, str_eq}
use nyxdb.Base.Words.{u16_mod, u32_mod, u64_mod}
use nyxdb.Bytes.{to_u32}
use nyxdb.Wire.{FrameType, encode_str, encode_u16, encode_u64}

pub data Role : Type 0 where
  follower candidate leader : Role

-- `NodeConfig::Role` of src/replication/replication_config.h.
pub data ConfigRole : Type 0 where
  standalone leader follower shard_coordinator replica_coordinator : ConfigRole

pub record NodeConfig : Type 0 where
  pub node_id : List ℕ
  pub role : ConfigRole
  pub peer_addrs : List (List ℕ)

pub record Node : Type 0 where
  pub config : NodeConfig
  pub non_self_peers : List (List ℕ)
  pub cluster_size : ℕ
  pub current_term : ℕ
  pub voted_for : List ℕ
  pub current_leader : List ℕ
  pub role : Role
  pub votes_received : ℕ
  pub state_file : Option (List ℕ)

pub data Event : Type 0 where
  became_leader became_follower : Event
  send : List ℕ → FrameType → List ℕ → Event
  respond : Bool → Event

-- `addr.rfind(c)`: the last place of a byte; `none` is `npos`.
unfoldable pub rfind : ℕ → List ℕ → Option ℕ
rfind c [] = none
rfind c (x ∷ xs) = elim (rfind c xs) [
  | some i ↦ some (suc i)
  | none ↦ if x == c then some 0 else none
]

-- `stoi` is `std::stoi`, `none` where it throws.
unfoldable pub parse_addr : (List ℕ → Option ℤ) → List ℕ → List ℕ × ℕ
parse_addr stoi addr = elim (rfind b':' addr) [
  | none ↦ (addr, 4433)
  | some colon ↦ if leb (length addr) (colon + 1) then (addr, 4433) else (
    take colon addr,
    elim (stoi (drop (colon + 1) addr)) [ some p ↦ to_u32 p % u16_mod | none ↦ 4433 ],
  )
]

-- The loop of the constructor: the peers whose host is not the node's own id.
unfoldable pub others : (List ℕ → Option ℤ) → List ℕ → List (List ℕ) → List (List ℕ)
unfolding parse_addr
others stoi node_id [] = []
others stoi node_id (peer ∷ peers) =
    let rest = others stoi node_id peers in
    if not (str_eq (parse_addr stoi peer).0 node_id) then peer ∷ rest else rest

-- The constructor, over what the state directory holds.
unfoldable pub make : (List ℕ → Option ℤ) → NodeConfig → Option (List ℕ) → Node
unfolding others
make stoi config file =
    let n = length config.peer_addrs % u32_mod in
    record {
      config = config;
      non_self_peers = others stoi config.node_id config.peer_addrs;
      cluster_size = if n == 0 then 1 else n;
      current_term = 0;
      voted_for = [];
      current_leader = [];
      role = Role.follower;
      votes_received = 0;
      state_file = file;
    }

unfoldable pub is_leader : Node → Bool
is_leader n = elim n.role [ Role.leader ↦ true | _ ↦ false ]

unfoldable pub is_follower : Role → Bool
is_follower Role.follower = true
is_follower _ = false

unfoldable pub is_candidate : Role → Bool
is_candidate Role.candidate = true
is_candidate _ = false

-- `(cluster_size_ + 1) / 2` on 32 bits.
unfoldable pub majority : ℕ → ℕ
majority cluster_size = (cluster_size + 1) % u32_mod / 2

-- The bytes that `persist_state_` hands to `write`.
unfoldable pub state_bytes : ℕ → List ℕ → List ℕ
state_bytes term voted_for = encode_u64 term ++ encode_str voted_for

-- How the calls of one `persist_state_` on the file system come out: whether the file is opened,
-- how many bytes of each `write` are not stored, whether `fsync` succeeds and what the file has in
-- it where it does not, and whether `rename` succeeds.
pub record FileCalls : Type 0 where
  pub opens : Bool
  pub header_unwritten : ℕ
  pub name_unwritten : ℕ
  pub syncs : Bool
  pub unsynced : List ℕ
  pub renames : Bool

-- The bytes that a `write` with so many bytes not stored leaves.
unfoldable pub stored : ℕ → List ℕ → List ℕ
stored unwritten bytes = take (length bytes - unwritten) bytes

-- The state file behind `persist_state_`, which looks at the result of `open` alone.
unfoldable pub saved_file : FileCalls → Option (List ℕ) → ℕ → List ℕ → Option (List ℕ)
saved_file calls file term voted_for =
    let header = encode_u64 term ++ encode_u16 (length voted_for % u16_mod) in
    let name = if is_empty voted_for then [] else stored calls.name_unwritten voted_for in
    let bytes =
      if calls.syncs then stored calls.header_unwritten header ++ name else calls.unsynced in
    if calls.opens && calls.renames then some bytes else file

unfoldable pub persist_state : FileCalls → Node → ℕ → List ℕ → Node
persist_state calls n term voted_for = record n {
  state_file = saved_file calls n.state_file term voted_for;
}

-- One frame to every peer.
unfoldable pub send_to_peers : Node → FrameType → List ℕ → List Event
send_to_peers n type payload = map (λ peer. send peer type payload) n.non_self_peers

unfoldable pub send_heartbeats : Node → List Event
unfolding send_to_peers is_leader
send_heartbeats n =
    if is_leader n
    then send_to_peers n FrameType.repl_heartbeat
        (encode_u64 n.current_term ++ encode_str n.config.node_id)
    else []

unfoldable pub broadcast_vote_req : Node → ℕ → List Event
unfolding send_to_peers
broadcast_vote_req n lsn =
    send_to_peers n FrameType.repl_vote_req
      (encode_u64 n.current_term ++ (encode_str n.config.node_id ++ encode_u64 lsn))

unfoldable pub became_follower_if : Bool → List Event
became_follower_if true = became_follower ∷ []
became_follower_if false = []
