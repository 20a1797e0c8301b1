-- ===== src/Replication/Election/Saved.antt =====
-- Whether the state file of src/replication/election.cpp has the node's term and vote, over the
-- handlers.
use nyxdb.Base.{
  ℕ, ◌+◌, ◌%◌, ◌≤◌, ◌<◌, ◌≡◌, ◌⊎◌, Bool, true, false, not, ◌&&◌, List, [], some, arith, ltb, ◌==◌,
}
use nyxdb.Base.Strings.{str_eq}
use nyxdb.Base.Words.{u64_mod}
use nyxdb.Replication.Election.{
  Node, FileCalls, is_leader, persist_state, state_bytes, became_follower_if,
}
use nyxdb.Replication.Election.Persist.{is_complete, saved_file-is_complete}
use nyxdb.Replication.Election.Steps.{
  start_election, handle_heartbeat, handle_vote_req, handle_vote_resp, Msg, heartbeat, vote_req,
  vote_resp, process_msg, timeout,
}
use nyxdb.Replication.Election.Votes.{answer}

-- The state file has the node's term and vote.
abbrev pub Saved : Node → Type 0
Saved n = n.state_file ≡ some (state_bytes n.current_term n.voted_for)

-- A heartbeat makes a leader give way to another leader of its own term, above 0.
abbrev gives_way : Node → ℕ → List ℕ → Bool
gives_way n term from =
    is_leader n
    && (term == n.current_term && (not (str_eq from n.config.node_id) && ltb 0 n.current_term))

-- The state file behind a message, for a node that has its term and vote there in front of it.
abbrev pub FileBehind : FileCalls → Node → ℕ → Msg → Type 0
FileBehind calls n lsn (heartbeat term from) =
    let n' = (process_msg calls n lsn (heartbeat term from)).0 in
    ((gives_way n term from ≡ false) × Saved n')
    ⊎ ((gives_way n term from ≡ true) × (n'.state_file ≡ some (state_bytes n.current_term [])))
FileBehind calls n lsn (vote_req term from wal_lsn) =
    let (n', events) = process_msg calls n lsn (vote_req term from wal_lsn) in
    (((term ≤ n.current_term) ⊎ (answer events ≡ some true)) × Saved n')
    ⊎ ((n.current_term < term)
        × (answer events ≡ some false)
        × (n'.current_term ≡ term)
        × (n'.state_file ≡ n.state_file))
FileBehind calls n lsn (vote_resp term granted) =
    let n' = (process_msg calls n lsn (vote_resp term granted)).0 in
    ((term ≤ n.current_term) × Saved n')
    ⊎ ((n.current_term < term) × (n'.current_term ≡ term) × (n'.state_file ≡ n.state_file))

-- With the node's term and vote in the state file and all calls on the file successful, a message
-- leaves the term and vote that the node then has in the file, but for three cases: a leader that
-- a heartbeat makes give way to another leader of its own term above 0 leaves an empty vote there;
-- a vote request of a later term that is denied, and an answer of a later term, change the node's
-- term and leave the file what it was.
pub process_msg-FileBehind :
    (calls : FileCalls) (n : Node) (lsn : ℕ) (m : Msg)
    → is_complete calls ≡ true
    → Saved n
    → FileBehind calls n lsn m
unfolding process_msg handle_heartbeat handle_vote_req handle_vote_resp persist_state is_leader
    became_follower_if
process_msg-FileBehind calls n lsn (heartbeat term from) c s =
    let laid = saved_file-is_complete calls n.state_file n.current_term [] c in
    let laid' = saved_file-is_complete calls n.state_file term [] c in ground (arith, laid, laid')
process_msg-FileBehind calls n lsn (vote_req term from wal_lsn) c s =
    let laid = saved_file-is_complete calls n.state_file term from c in
    let laid' = saved_file-is_complete calls n.state_file n.current_term from c in
    ground (arith, laid, laid')
process_msg-FileBehind calls n lsn (vote_resp term granted) c s = ground arith

-- A timeout leaves them there in all cases.
timeout-Saved :
    (calls : FileCalls) (n : Node) (lsn : ℕ)
    → is_complete calls ≡ true
    → Saved n
    → Saved (timeout calls n lsn).0
unfolding timeout start_election persist_state
timeout-Saved calls n lsn c s =
    let laid =
      saved_file-is_complete calls n.state_file ((n.current_term + 1) % u64_mod) n.config.node_id
        c in
    ground (arith, laid)
