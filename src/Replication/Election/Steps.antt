-- ===== src/Replication/Election/Steps.antt =====
-- The handlers of `ElectionManager`, each with every change of state that it makes.
use nyxdb.Base.{
  ℕ, ◌+◌, ◌%◌, Bool, true, not, ◌&&◌, ◌||◌, List, [], ◌∷◌, ◌++◌, ltb, leb, if◌then◌else◌,
}
use nyxdb.Base.Strings.{is_empty, str_eq}
use nyxdb.Base.Words.{u32_mod, u64_mod}
use nyxdb.Replication.Election.{
  Role, Node, Event, FileCalls, became_leader, respond, is_follower, is_candidate, majority,
  persist_state, send_heartbeats, broadcast_vote_req, became_follower_if,
}

-- `become_leader_`
unfoldable pub become_leader : Node → Node × List Event
become_leader n =
    let n' = record n {
      role = Role.leader;
      current_leader = n.config.node_id;
      votes_received = 0;
    } in
    (n', became_leader ∷ send_heartbeats n')

-- `become_follower_`
unfoldable pub become_follower : FileCalls → Node → ℕ → List ℕ → Node × List Event
become_follower calls n new_term leader_id =
    let n' = record n {
      current_term = new_term;
      voted_for = [];
      role = Role.follower;
      current_leader = leader_id;
      votes_received = 0;
    } in
    (persist_state calls n' new_term [], became_follower_if (not (is_follower n.role)))

-- `start_election_`
unfoldable pub start_election : FileCalls → Node → ℕ → Node × List Event
unfolding majority become_leader
start_election calls n lsn =
    let new_term = (n.current_term + 1) % u64_mod in
    let n' = record n {
      current_term = new_term;
      voted_for = n.config.node_id;
      votes_received = 1;
      role = Role.candidate;
    } in
    let n'' = persist_state calls n' new_term n.config.node_id in
    let sent = broadcast_vote_req n'' lsn in
    if leb (majority n.cluster_size) 1
    then (let (n''', events) = become_leader n'' in (n''', sent ++ events))
    else (n'', sent)

-- The branches of `handle_heartbeat_` at the node's own term.
unfoldable pub heartbeat_same_term : FileCalls → Node → Role → List ℕ → Node × List Event
heartbeat_same_term calls n Role.candidate from =
    (record n { role = Role.follower; current_leader = from }, became_follower_if true)
heartbeat_same_term calls n Role.follower from = (record n { current_leader = from }, [])
heartbeat_same_term calls n Role.leader from =
    if str_eq from n.config.node_id
    then (n, [])
    else (let n' = record n { role = Role.follower; current_leader = from } in
        (
          if ltb 0 n.current_term then persist_state calls n' n.current_term [] else n',
          became_follower_if true,
        ))

-- `handle_heartbeat_`
unfoldable pub handle_heartbeat : FileCalls → Node → ℕ → List ℕ → Node × List Event
unfolding heartbeat_same_term
handle_heartbeat calls n term from =
    if ltb term n.current_term
    then (n, [])
    else if ltb n.current_term term
    then (let n' = record n {
      current_term = term;
      voted_for = [];
      role = Role.follower;
      current_leader = from;
    } in
        (persist_state calls n' term [], became_follower_if (not (is_follower n.role))))
    else heartbeat_same_term calls n n.role from

-- The first `if` of `handle_vote_req_`: a later term is taken over.
unfoldable pub adopt_term : Node → ℕ → Node
adopt_term n term =
    if ltb n.current_term term
    then record n { current_term = term; voted_for = []; role = Role.follower }
    else n

-- The condition of the second `if`.
unfoldable pub grants : Node → ℕ → ℕ → List ℕ → ℕ → Bool
grants n lsn term from wal_lsn =
    leb n.current_term term
    && (leb lsn wal_lsn && (is_empty n.voted_for || str_eq n.voted_for from))

-- `handle_vote_req_`; `lsn` is the node's own WAL position.
unfoldable pub handle_vote_req : FileCalls → Node → ℕ → ℕ → List ℕ → ℕ → Node × List Event
unfolding adopt_term grants became_follower_if is_follower
handle_vote_req calls n lsn term from wal_lsn =
    let stepped_down = ltb n.current_term term && not (is_follower n.role) in
    let n' = adopt_term n term in
    let grant = grants n' lsn term from wal_lsn in
    (
      if grant
          then persist_state calls (record n' { voted_for = from }) n'.current_term from
          else n',
      became_follower_if stepped_down ++ respond grant ∷ [],
    )

-- The first `if` of `handle_vote_resp_`, which also forgets the leader.
unfoldable pub adopt_later : Node → ℕ → Node
adopt_later n term =
    if ltb n.current_term term
    then record n { current_term = term; voted_for = []; role = Role.follower; current_leader = [] }
    else n

-- `++votes_received_`, and what a majority brings.
unfoldable pub count_vote : Node → Node × List Event
unfolding majority become_leader
count_vote n =
    let n' = record n { votes_received = (n.votes_received + 1) % u32_mod } in
    if ltb n'.votes_received (majority n.cluster_size) then (n', []) else become_leader n'

-- `handle_vote_resp_`
unfoldable pub handle_vote_resp : Node → ℕ → Bool → Node × List Event
unfolding adopt_later count_vote is_candidate
handle_vote_resp n term granted =
    let n' = adopt_later n term in
    if not (is_candidate n'.role) || ltb term n'.current_term
    then (n', [])
    else if granted
    then count_vote n'
    else (n', [])

-- `Msg`
pub data Msg : Type 0 where
  heartbeat : ℕ → List ℕ → Msg
  vote_req : ℕ → List ℕ → ℕ → Msg
  vote_resp : ℕ → Bool → Msg

-- `process_msg_`
unfoldable pub process_msg : FileCalls → Node → ℕ → Msg → Node × List Event
process_msg calls n lsn (heartbeat term from) = handle_heartbeat calls n term from
process_msg calls n lsn (vote_req term from wal_lsn) = handle_vote_req calls n lsn term from wal_lsn
process_msg calls n lsn (vote_resp term granted) = handle_vote_resp n term granted

-- A round of `loop_` that found no message before its timeout.
unfoldable pub timeout : FileCalls → Node → ℕ → Node × List Event
timeout calls n lsn = elim n.role [
  | Role.leader ↦ (n, send_heartbeats n)
  | _ ↦ start_election calls n lsn
]

-- A round of `loop_` that found messages handles them in order. The calls on the
-- state file of message `i` come out as `calls i`.
unfoldable pub process_batch : (ℕ → FileCalls) → Node → ℕ → List Msg → Node × List Event
process_batch calls n lsn [] = (n, [])
process_batch calls n lsn (m ∷ ms) =
    let (n', events) = process_msg (calls 0) n lsn m in
    let (n'', later) = process_batch (λ i. calls (i + 1)) n' lsn ms in (n'', events ++ later)

-- `loop_`, one round.
unfoldable pub round : (ℕ → FileCalls) → Node → ℕ → List Msg → Node × List Event
unfolding timeout process_batch process_msg
round calls n lsn [] = timeout (calls 0) n lsn
round calls n lsn (m ∷ ms) = process_batch calls n lsn (m ∷ ms)
