-- ===== src/Replication/Tests.antt =====
-- The properties of the election at concrete nodes.

use nyxdb.Base.{
  ℕ, ◌+◌, ◌%◌, ◌≤◌, ◌<◌, ◌≡◌, refl, ◌⊎◌, true, false, List, [], ◌∷◌, Option, some, none, arith,
}
use nyxdb.Base.Int.{ℤ}
use nyxdb.Base.Strings.{str_eq}
use nyxdb.Replication.Election.{
  Role, ConfigRole, Node, FileCalls, saved_file, majority, persist_state, state_bytes, rfind,
  others,
}
use nyxdb.Replication.Registry.{
  FollowerState, upsert, evict_stale, min_confirmed_lsn, min_confirmed_lsn-evict_stale,
}
use nyxdb.Replication.Election.Persist.{load_state, start, FileAfter, load_state-persist_state}
use nyxdb.Replication.Election.Steps.{
  heartbeat, vote_req, vote_resp, handle_heartbeat, handle_vote_req, handle_vote_resp, process_msg,
  process_batch, round, timeout,
}
use nyxdb.Replication.Election.Terms.{round_term, process_msg_later}
use nyxdb.Replication.Election.Votes.{answer, round_vote, handle_vote_req_grants}
use nyxdb.Replication.Election.Saved.{FileBehind, process_msg-FileBehind}
use nyxdb.Replication.Election.Quorum.{
  majority_overlap, handle_vote_resp_leader, timeout_two_leaders, start_leader_votes,
  handle_heartbeat_forgets,
}

abbrev followers : List FollowerState
followers =
    record {
      node_id = b'a' ∷ [];
      confirmed_lsn = 40;
      active_queries = 0;
      last_ack = 1;
      stale = false;
    }
    ∷ record {
      node_id = b'b' ∷ [];
      confirmed_lsn = 90;
      active_queries = 2;
      last_ack = 2;
      stale = true;
    }
    ∷ []

min_confirmed_lsn-evict_stale_example : 100 ≤ min_confirmed_lsn (evict_stale 100 50 followers) + 50
min_confirmed_lsn-evict_stale_example = min_confirmed_lsn-evict_stale 100 50 followers (omega arith)

min_confirmed_lsn_of_evicted :
    min_confirmed_lsn (evict_stale 100 50 (upsert (b'b' ∷ []) 95 1 3 followers)) ≡ 95
unfolding min_confirmed_lsn evict_stale upsert
min_confirmed_lsn_of_evicted = refl

-- All calls on a state file succeed.
abbrev all_done : FileCalls
all_done = record {
  opens = true;
  header_unwritten = 0;
  name_unwritten = 0;
  syncs = true;
  unsynced = [];
  renames = true;
}

-- The file is not opened.
abbrev not_opened : FileCalls
not_opened = record all_done { opens = false }

abbrev always : FileCalls → ℕ → FileCalls
always calls i = calls

abbrev id_a : List ℕ
id_a = b'a' ∷ []

abbrev id_b : List ℕ
id_b = b'b' ∷ []

-- A follower of a group of three that has voted for `a` in term 4.
abbrev voter : Node
voter = record {
  config = record { node_id = id_b; role = ConfigRole.follower; peer_addrs = [] };
  non_self_peers = [];
  cluster_size = 3;
  current_term = 4;
  voted_for = id_a;
  current_leader = [];
  role = Role.follower;
  votes_received = 0;
  state_file = some (state_bytes 4 id_a);
}

abbrev runner : Node
runner = record voter { voted_for = id_b; role = Role.candidate; votes_received = 1 }

abbrev chief : Node
chief = record runner { role = Role.leader; votes_received = 0 }

abbrev blank : Node
blank = record voter { current_term = 0; voted_for = []; state_file = none }

abbrev pair : Node
pair = record blank { cluster_size = 2 }

round_term_example : 4 ≤ (round (always all_done) voter 0 (heartbeat 3 id_a ∷ [])).0.current_term
round_term_example = round_term (always all_done) voter 0 (heartbeat 3 id_a ∷ []) (omega arith)

process_msg_later_example :
    ((process_msg all_done chief 0 (vote_resp 6 false)).0.role ≡ Role.follower)
    × ((process_msg all_done chief 0 (vote_resp 6 false)).0.current_term ≡ 6)
process_msg_later_example = process_msg_later all_done chief 0 (vote_resp 6 false) (omega arith)

round_vote_example :
    (round (always not_opened) voter 0 (vote_req 4 id_b 9 ∷ heartbeat 4 id_b ∷ [])).0.voted_for
    ≡ id_a
unfolding round process_batch process_msg handle_vote_req handle_heartbeat str_eq
round_vote_example =
    round_vote (always not_opened) voter 0 (vote_req 4 id_b 9 ∷ heartbeat 4 id_b ∷ []) (λ e. cc)
      (omega arith) refl

handle_vote_req_grants_example :
    (5 ≤ 9)
    × ((4 < 5) ⊎ ((5 ≡ voter.current_term) × ((voter.voted_for ≡ []) ⊎ (voter.voted_for ≡ id_b))))
    × ((handle_vote_req not_opened voter 5 5 id_b 9).0.current_term ≡ 5)
    × ((handle_vote_req not_opened voter 5 5 id_b 9).0.voted_for ≡ id_b)
    × FileAfter not_opened voter.state_file 5 id_b
        (handle_vote_req not_opened voter 5 5 id_b 9).0.state_file
unfolding handle_vote_req
handle_vote_req_grants_example = handle_vote_req_grants not_opened voter 5 5 id_b 9 refl

-- The vote is granted although the state file still has the vote of the earlier term.
granted_unsaved :
    (answer (handle_vote_req not_opened voter 5 5 id_b 9).1 ≡ some true)
    × ((handle_vote_req not_opened voter 5 5 id_b 9).0.state_file ≡ some (state_bytes 4 id_a))
unfolding handle_vote_req persist_state saved_file
granted_unsaved = (refl, refl)

process_msg-FileBehind_example : FileBehind all_done voter 0 (vote_req 5 id_b 9)
process_msg-FileBehind_example =
    process_msg-FileBehind all_done voter 0 (vote_req 5 id_b 9) refl refl

load_state-persist_state_example :
    load_state (persist_state all_done blank 7 id_b)
    ≡ record (persist_state all_done blank 7 id_b) { current_term = 7; voted_for = id_b }
load_state-persist_state_example =
    load_state-persist_state all_done blank 7 id_b refl (omega arith) (omega arith) refl

majority_overlap_example :
    ((4 % 2 ≡ 1) × (4 < majority 4 + majority 4)) ⊎ ((4 % 2 ≡ 0) × (majority 4 + majority 4 ≡ 4))
majority_overlap_example = majority_overlap 4 (omega arith)

handle_vote_resp_leader_example :
    (runner.role ≡ Role.candidate)
    × (true ≡ true)
    × (4 ≡ runner.current_term)
    × (majority runner.cluster_size ≤ runner.votes_received + 1)
unfolding handle_vote_resp
handle_vote_resp_leader_example = handle_vote_resp_leader runner 4 true (omega arith) (λ e. cc) refl

timeout_two_leaders_example :
    ((timeout not_opened pair 3).0.role ≡ Role.leader)
    × ((timeout not_opened pair 5).0.role ≡ Role.leader)
    × ((timeout not_opened pair 3).0.current_term ≡ (timeout not_opened pair 5).0.current_term)
timeout_two_leaders_example =
    timeout_two_leaders not_opened not_opened pair pair 3 5 refl refl (λ e. cc) (λ e. cc) refl

abbrev configured : Node
configured = record blank {
  config = record { node_id = id_b; role = ConfigRole.leader; peer_addrs = [] };
}

start_leader_votes_example :
    (answer (handle_vote_req not_opened (start configured) 0 1 id_a 0).1 ≡ some true)
    × ((handle_vote_req not_opened (start configured) 0 1 id_a 0).0.role ≡ Role.leader)
    × ((handle_vote_req not_opened (start configured) 0 1 id_a 0).0.current_term ≡ 1)
start_leader_votes_example =
    start_leader_votes not_opened configured 0 id_a 0 refl refl refl refl (omega arith)

handle_heartbeat_forgets_example :
    ((handle_heartbeat all_done chief 4 id_a).0.voted_for ≡ id_b)
    × ((load_state (record blank {
      state_file = (handle_heartbeat all_done chief 4 id_a).0.state_file;
    })).current_term
        ≡ 4)
    × (answer
          (handle_vote_req not_opened
            (load_state
              (record blank { state_file = (handle_heartbeat all_done chief 4 id_a).0.state_file }))
            0
            4
            id_a
            0).1
        ≡ some true)
unfolding str_eq
handle_heartbeat_forgets_example =
    handle_heartbeat_forgets all_done not_opened chief blank id_a id_a 0 0 refl refl refl
      (omega arith) (omega arith) refl (omega arith)

-- The peers of a node are the others of the list.
abbrev no_port : List ℕ → Option ℤ
no_port text = none

host_b :
    others no_port id_b ((b'a' ∷ b':' ∷ b'1' ∷ []) ∷ (b'b' ∷ b':' ∷ b'1' ∷ []) ∷ [])
    ≡ (b'a' ∷ b':' ∷ b'1' ∷ []) ∷ []
unfolding others rfind str_eq
host_b = refl
