-- ===== src/Replication/Election/Quorum.antt =====
-- How many votes make a leader, and where two leaders of one term come from.
use nyxdb.Base.{
  ℕ, ◌+◌, ◌%◌, ◌≤◌, ◌<◌, ◌≡◌, ◌≢◌, refl, ap, ◌∙◌, ◌⊎◌, Bool, true, false, List, [], some, none,
  arith,
}
use nyxdb.Base.Strings.{str_eq}
use nyxdb.Base.Words.{u32_mod, u64_mod}
use nyxdb.Replication.Election.{
  Role, ConfigRole, Node, FileCalls, majority, persist_state, saved_file, state_bytes, is_candidate,
  became_follower_if,
}
use nyxdb.Replication.Election.Persist.{
  load_state, start, load_state-state_bytes, is_complete, saved_file-is_complete,
}
use nyxdb.Replication.Election.Steps.{
  start_election, handle_heartbeat, handle_vote_req, handle_vote_resp, timeout,
}
use nyxdb.Replication.Election.Votes.{answer}

-- In a group of odd size two majorities share a node; in one of even size half of the nodes is
-- taken for a majority.
pub majority_overlap :
    (n : ℕ)
    → n + 1 < u32_mod
    → ((n % 2 ≡ 1) × (n < majority n + majority n)) ⊎ ((n % 2 ≡ 0) × (majority n + majority n ≡ n))
unfolding majority
majority_overlap n h = omega arith

-- An answer to a vote request makes a leader only of a candidate that it grants the vote of the
-- candidate's own term, and whose votes then reach the majority.
pub handle_vote_resp_leader :
    (n : Node) (term : ℕ) (granted : Bool)
    → n.votes_received + 1 < u32_mod
    → n.role ≢ Role.leader
    → (handle_vote_resp n term granted).0.role ≡ Role.leader
    → (n.role ≡ Role.candidate)
      × (granted ≡ true)
      × (term ≡ n.current_term)
      × (majority n.cluster_size ≤ n.votes_received + 1)
unfolding handle_vote_resp is_candidate
handle_vote_resp_leader n term granted w r h =
    (ground arith, ground arith, ground arith, ground arith)

-- Two nodes of a group of two, in one term and neither a leader, that both time out are both
-- leaders of the next term.
pub timeout_two_leaders :
    (calls calls' : FileCalls) (n m : Node) (lsn lsn' : ℕ)
    → n.cluster_size ≡ 2
    → m.cluster_size ≡ 2
    → n.role ≢ Role.leader
    → m.role ≢ Role.leader
    → n.current_term ≡ m.current_term
    → let n' = (timeout calls n lsn).0 in
      let m' = (timeout calls' m lsn').0 in
      (n'.role ≡ Role.leader) × (m'.role ≡ Role.leader) × (n'.current_term ≡ m'.current_term)
unfolding timeout start_election persist_state
timeout_two_leaders calls calls' n m lsn lsn' c c' r r' t =
    (ground arith, ground arith, ground arith)

-- A configured leader that starts with no state file is the leader of term 1 and has not voted, so
-- it grants a vote in term 1 to any other candidate that is not behind, and stays the leader.
pub start_leader_votes :
    (calls : FileCalls) (n : Node) (lsn : ℕ) (from : List ℕ) (wal_lsn : ℕ)
    → n.config.role ≡ ConfigRole.leader
    → n.state_file ≡ none
    → n.current_term ≡ 0
    → n.voted_for ≡ []
    → lsn ≤ wal_lsn
    → let after = handle_vote_req calls (start n) lsn 1 from wal_lsn in
      (answer after.1 ≡ some true) × (after.0.role ≡ Role.leader) × (after.0.current_term ≡ 1)
unfolding start load_state handle_vote_req persist_state became_follower_if
start_leader_votes calls n lsn from wal_lsn c f t v h = (ground arith, ground arith, ground arith)

-- A node with no vote in its term grants one to any candidate that is not behind.
free_vote :
    (calls : FileCalls) (r : Node) (lsn : ℕ) (other : List ℕ) (wal_lsn : ℕ)
    → r.voted_for ≡ []
    → lsn ≤ wal_lsn
    → answer (handle_vote_req calls r lsn r.current_term other wal_lsn).1 ≡ some true
unfolding handle_vote_req persist_state became_follower_if
free_vote calls r lsn other wal_lsn v h = ground arith

contested_heartbeat :
    (calls : FileCalls) (n : Node) (from : List ℕ)
    → n.role ≡ Role.leader
    → str_eq from n.config.node_id ≡ false
    → 0 < n.current_term
    → let n' = (handle_heartbeat calls n n.current_term from).0 in
      (n'.voted_for ≡ n.voted_for)
      × (n'.state_file ≡ saved_file calls n.state_file n.current_term [])
unfolding handle_heartbeat persist_state
contested_heartbeat calls n from r e pos = ground arith

-- A leader that a heartbeat of its own term makes give way saves, if the calls on its state file
-- succeed, that it has no vote in that term: restarted, it grants one in that term to any candidate
-- that is not behind, whoever it voted for.
pub handle_heartbeat_forgets :
    (calls later : FileCalls) (n fresh : Node) (from other : List ℕ) (lsn wal_lsn : ℕ)
    → is_complete calls ≡ true
    → n.role ≡ Role.leader
    → str_eq from n.config.node_id ≡ false
    → 0 < n.current_term
    → n.current_term < u64_mod
    → fresh.voted_for ≡ []
    → lsn ≤ wal_lsn
    → let n' = (handle_heartbeat calls n n.current_term from).0 in
      let restarted = load_state (record fresh { state_file = n'.state_file }) in
      (n'.voted_for ≡ n.voted_for)
      × (restarted.current_term ≡ n.current_term)
      × (answer (handle_vote_req later restarted lsn n.current_term other wal_lsn).1 ≡ some true)
handle_heartbeat_forgets calls later n fresh from other lsn wal_lsn c r e pos lt v h =
    let (kept, file) = contested_heartbeat calls n from r e pos in
    let written = file ∙ saved_file-is_complete calls n.state_file n.current_term [] c in
    let loaded = load_state-state_bytes fresh n.current_term [] lt (omega arith) v in
    let saved : Node = record fresh { state_file = some (state_bytes n.current_term []) } in
    (
      kept,
      rw written (ap (λ x. x.current_term) loaded),
      rw (written, loaded)
          (free_vote later (record saved { current_term = n.current_term; voted_for = [] }) lsn
            other wal_lsn refl h),
    )
