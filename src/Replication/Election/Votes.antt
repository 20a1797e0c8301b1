-- ===== src/Replication/Election/Votes.antt =====
-- The vote of a node in memory, and what a handler of a vote request answers.

use nyxdb.Base.{
  ℕ, ◌≤◌, ◌<◌, ◌≡◌, ◌≢◌, ◌+◌, refl, sym, subst, ◌∙◌, ◌⊎◌, Bool, true, false, List, [], ◌∷◌, Option,
  some, none, arith,
}
use nyxdb.Base.Strings.{is_empty, str_eq→eq}
use nyxdb.Replication.Election.{
  Node, Event, FileCalls, persist_state, saved_file, became_follower_if,
}
use nyxdb.Replication.Election.Terms.{process_msg_term, process_batch_term, start_election_term}
use nyxdb.Replication.Election.Persist.{FileAfter, FileAfter-saved_file}
use nyxdb.Base.Words.{u64_mod}
use nyxdb.Replication.Election.Steps.{
  handle_heartbeat, handle_vote_req, handle_vote_resp, Msg, heartbeat, vote_req, vote_resp,
  process_msg, process_batch, timeout, round,
}

empty_iff : (xs : List ℕ) → is_empty xs ≡ true → xs ≡ []
empty_iff [] h = refl
empty_iff (x ∷ xs) h = cc

heartbeat_vote :
    (calls : FileCalls) (n : Node) (term : ℕ) (from : List ℕ)
    → term ≤ n.current_term
    → (handle_heartbeat calls n term from).0.voted_for ≡ n.voted_for
unfolding handle_heartbeat persist_state
heartbeat_vote calls n term from h = ground arith

vote_req_vote :
    (calls : FileCalls) (n : Node) (lsn term : ℕ) (from : List ℕ) (wal_lsn : ℕ)
    → term ≤ n.current_term
    → n.voted_for ≢ []
    → (handle_vote_req calls n lsn term from wal_lsn).0.voted_for ≡ n.voted_for
unfolding handle_vote_req persist_state
vote_req_vote calls n lsn term from wal_lsn h e = ground (arith, str_eq→eq n.voted_for from)

vote_resp_vote :
    (n : Node) (term : ℕ) (granted : Bool)
    → term ≤ n.current_term
    → (handle_vote_resp n term granted).0.voted_for ≡ n.voted_for
unfolding handle_vote_resp
vote_resp_vote n term granted h = ground arith

pub process_msg_vote :
    (calls : FileCalls) (n : Node) (lsn : ℕ) (m : Msg)
    → n.voted_for ≢ []
    → (process_msg calls n lsn m).0.current_term ≡ n.current_term
    → (process_msg calls n lsn m).0.voted_for ≡ n.voted_for
unfolding process_msg
process_msg_vote calls n lsn (heartbeat term from) v e =
    heartbeat_vote calls n term from
      (omega (arith, process_msg_term calls n lsn (heartbeat term from)))
process_msg_vote calls n lsn (vote_req term from wal_lsn) v e =
    vote_req_vote calls n lsn term from wal_lsn
      (omega (arith, process_msg_term calls n lsn (vote_req term from wal_lsn))) v
process_msg_vote calls n lsn (vote_resp term granted) v e =
    vote_resp_vote n term granted
      (omega (arith, process_msg_term calls n lsn (vote_resp term granted)))

process_batch_vote :
    (calls : ℕ → FileCalls) (n : Node) (lsn : ℕ) (ms : List Msg)
    → n.voted_for ≢ []
    → (process_batch calls n lsn ms).0.current_term ≡ n.current_term
    → (process_batch calls n lsn ms).0.voted_for ≡ n.voted_for
unfolding process_batch
process_batch_vote calls n lsn [] v e = refl
process_batch_vote calls n lsn (m ∷ ms) v e =
    let later : ℕ → FileCalls = λ i. calls (i + 1) in
    let n' = (process_msg (calls 0) n lsn m).0 in
    let same : n'.current_term ≡ n.current_term =
      omega (arith, process_msg_term (calls 0) n lsn m, process_batch_term later n' lsn ms) in
    let kept : n'.voted_for ≡ n.voted_for = process_msg_vote (calls 0) n lsn m v same in
    process_batch_vote later n' lsn ms (λ none. v (sym kept ∙ none)) (e ∙ sym same) ∙ kept

timeout_vote :
    (calls : FileCalls) (n : Node) (lsn : ℕ)
    → n.current_term + 1 < u64_mod
    → (timeout calls n lsn).0.current_term ≡ n.current_term
    → (timeout calls n lsn).0.voted_for ≡ n.voted_for
unfolding timeout
timeout_vote calls n lsn h e = ground (arith, start_election_term calls n lsn)

-- In a round of the loop that leaves the term what it was, over any messages or at a timeout and
-- with any results of the calls on the state file, a node that has voted keeps its vote in memory.
-- The term is one that can still grow; a restart is not part of a round.
pub round_vote :
    (calls : ℕ → FileCalls) (n : Node) (lsn : ℕ) (ms : List Msg)
    → n.voted_for ≢ []
    → n.current_term + 1 < u64_mod
    → (round calls n lsn ms).0.current_term ≡ n.current_term
    → (round calls n lsn ms).0.voted_for ≡ n.voted_for
unfolding round
round_vote calls n lsn [] v h e = timeout_vote (calls 0) n lsn h e
round_vote calls n lsn (m ∷ ms) v h e = process_batch_vote calls n lsn (m ∷ ms) v e

-- The answer among what a handler does.
abbrev pub answer : List Event → Option Bool
answer [] = none
answer (Event.respond b ∷ events) = some b
answer (Event.became_leader ∷ events) = answer events
answer (Event.became_follower ∷ events) = answer events
answer (Event.send peer type payload ∷ events) = answer events

grant_saved :
    (calls : FileCalls) (n : Node) (lsn term : ℕ) (from : List ℕ) (wal_lsn : ℕ)
    → answer (handle_vote_req calls n lsn term from wal_lsn).1 ≡ some true
    → (handle_vote_req calls n lsn term from wal_lsn).0.state_file
      ≡ saved_file calls n.state_file term from
unfolding handle_vote_req persist_state became_follower_if
grant_saved calls n lsn term from wal_lsn h = ground arith

-- A vote is granted only to a candidate of the node's term or a later one that is not behind in
-- the WAL, and only where the node has no other vote in that term; the node then has that vote in
-- the candidate's term. The state file holds both if all calls on it succeed, and is what it was if
-- it cannot be opened or renamed.
pub handle_vote_req_grants :
    (calls : FileCalls) (n : Node) (lsn term : ℕ) (from : List ℕ) (wal_lsn : ℕ)
    → answer (handle_vote_req calls n lsn term from wal_lsn).1 ≡ some true
    → let n' = (handle_vote_req calls n lsn term from wal_lsn).0 in
      (lsn ≤ wal_lsn)
      × ((n.current_term < term)
          ⊎ ((term ≡ n.current_term) × ((n.voted_for ≡ []) ⊎ (n.voted_for ≡ from))))
      × (n'.current_term ≡ term)
      × (n'.voted_for ≡ from)
      × FileAfter calls n.state_file term from n'.state_file
unfolding handle_vote_req persist_state became_follower_if
handle_vote_req_grants calls n lsn term from wal_lsn h = (
  ground arith,
  ground (arith, str_eq→eq n.voted_for from, empty_iff n.voted_for),
  ground arith,
  ground arith,
  subst (FileAfter calls n.state_file term from) (sym (grant_saved calls n lsn term from wal_lsn h))
      (FileAfter-saved_file calls n.state_file term from),
)

-- Denied, a candidate leaves the node's vote and its state file alone, unless its term is later.
pub handle_vote_req_denies :
    (calls : FileCalls) (n : Node) (lsn term : ℕ) (from : List ℕ) (wal_lsn : ℕ)
    → answer (handle_vote_req calls n lsn term from wal_lsn).1 ≡ some false
    → term ≤ n.current_term
    → (handle_vote_req calls n lsn term from wal_lsn).0 ≡ n
unfolding handle_vote_req persist_state became_follower_if
handle_vote_req_denies calls n lsn term from wal_lsn h le = ground arith
