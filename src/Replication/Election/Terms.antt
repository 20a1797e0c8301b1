-- ===== src/Replication/Election/Terms.antt =====
-- The term never falls, and a later term makes a follower.
use nyxdb.Base.{ℕ, ◌+◌, ◌%◌, ◌≤◌, ◌<◌, ◌≡◌, Bool, List, [], ◌∷◌, arith}
use Prim.Native.Nat.{max}
use nyxdb.Base.Words.{u64_mod}
use nyxdb.Replication.Election.{Role, Node, FileCalls, persist_state, is_candidate}
use nyxdb.Replication.Election.Steps.{
  start_election, heartbeat_same_term, handle_heartbeat, handle_vote_req, adopt_later, count_vote,
  handle_vote_resp, Msg, heartbeat, vote_req, vote_resp, process_msg, timeout, process_batch, round,
}

-- The term that a message carries.
abbrev pub term_of : Msg → ℕ
term_of (heartbeat term from) = term
term_of (vote_req term from wal_lsn) = term
term_of (vote_resp term granted) = term

pub start_election_term :
    (calls : FileCalls) (n : Node) (lsn : ℕ)
    → (start_election calls n lsn).0.current_term ≡ (n.current_term + 1) % u64_mod
unfolding start_election persist_state
start_election_term calls n lsn = ground arith

handle_heartbeat_term :
    (calls : FileCalls) (n : Node) (term : ℕ) (from : List ℕ)
    → (handle_heartbeat calls n term from).0.current_term ≡ max n.current_term term
unfolding handle_heartbeat heartbeat_same_term persist_state
handle_heartbeat_term calls n term from = ground arith

handle_vote_req_term :
    (calls : FileCalls) (n : Node) (lsn term : ℕ) (from : List ℕ) (wal_lsn : ℕ)
    → (handle_vote_req calls n lsn term from wal_lsn).0.current_term ≡ max n.current_term term
unfolding handle_vote_req persist_state
handle_vote_req_term calls n lsn term from wal_lsn = ground arith

count_vote_term : (n : Node) → (count_vote n).0.current_term ≡ n.current_term
unfolding count_vote
count_vote_term n = ground arith

handle_vote_resp_term :
    (n : Node) (term : ℕ) (granted : Bool)
    → (handle_vote_resp n term granted).0.current_term ≡ max n.current_term term
unfolding handle_vote_resp
handle_vote_resp_term n term granted = ground (arith, count_vote_term (adopt_later n term))

-- Handling a message sets the term to the later of the node's and the message's.
pub process_msg_term :
    (calls : FileCalls) (n : Node) (lsn : ℕ) (m : Msg)
    → (process_msg calls n lsn m).0.current_term ≡ max n.current_term (term_of m)
unfolding process_msg
process_msg_term calls n lsn (heartbeat term from) = handle_heartbeat_term calls n term from
process_msg_term calls n lsn (vote_req term from wal_lsn) =
    handle_vote_req_term calls n lsn term from wal_lsn
process_msg_term calls n lsn (vote_resp term granted) = handle_vote_resp_term n term granted

pub process_batch_term :
    (calls : ℕ → FileCalls) (n : Node) (lsn : ℕ) (ms : List Msg)
    → n.current_term ≤ (process_batch calls n lsn ms).0.current_term
unfolding process_batch
process_batch_term calls n lsn [] = omega arith
process_batch_term calls n lsn (m ∷ ms) = omega (
  arith,
  process_msg_term (calls 0) n lsn m,
  process_batch_term (λ i. calls (i + 1)) (process_msg (calls 0) n lsn m).0 lsn ms,
)

-- A round of the loop, with messages or at a timeout, lets the term stay or grow, unless the
-- 64-bit counter wraps.
pub round_term :
    (calls : ℕ → FileCalls) (n : Node) (lsn : ℕ) (ms : List Msg)
    → n.current_term + 1 < u64_mod
    → n.current_term ≤ (round calls n lsn ms).0.current_term
unfolding round timeout
round_term calls n lsn [] h = ground (arith, start_election_term (calls 0) n lsn)
round_term calls n lsn (m ∷ ms) h = process_batch_term calls n lsn (m ∷ ms)

handle_heartbeat_later :
    (calls : FileCalls) (n : Node) (term : ℕ) (from : List ℕ)
    → n.current_term < term
    → (handle_heartbeat calls n term from).0.role ≡ Role.follower
unfolding handle_heartbeat persist_state
handle_heartbeat_later calls n term from h = ground arith

handle_vote_req_later :
    (calls : FileCalls) (n : Node) (lsn term : ℕ) (from : List ℕ) (wal_lsn : ℕ)
    → n.current_term < term
    → (handle_vote_req calls n lsn term from wal_lsn).0.role ≡ Role.follower
unfolding handle_vote_req persist_state
handle_vote_req_later calls n lsn term from wal_lsn h = ground arith

handle_vote_resp_later :
    (n : Node) (term : ℕ) (granted : Bool)
    → n.current_term < term
    → (handle_vote_resp n term granted).0.role ≡ Role.follower
unfolding handle_vote_resp is_candidate
handle_vote_resp_later n term granted h = ground arith

-- A message of a later term leaves the node a follower in exactly that term.
pub process_msg_later :
    (calls : FileCalls) (n : Node) (lsn : ℕ) (m : Msg)
    → n.current_term < term_of m
    → ((process_msg calls n lsn m).0.role ≡ Role.follower)
      × ((process_msg calls n lsn m).0.current_term ≡ term_of m)
unfolding process_msg
process_msg_later calls n lsn (heartbeat term from) h = (
  handle_heartbeat_later calls n term from h,
  omega (arith, handle_heartbeat_term calls n term from),
)
process_msg_later calls n lsn (vote_req term from wal_lsn) h = (
  handle_vote_req_later calls n lsn term from wal_lsn h,
  omega (arith, handle_vote_req_term calls n lsn term from wal_lsn),
)
process_msg_later calls n lsn (vote_resp term granted) h =
    (handle_vote_resp_later n term granted h, omega (arith, handle_vote_resp_term n term granted))
