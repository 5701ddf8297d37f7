-- ===== src/Raft/Says.antt =====
-- The messages that a node of crates/sigil-cluster/src/raft.rs sends speak of its own term, and only a
-- leader sends entries.
use mathlib.Core.Path.{subst, subst₂}
use sigil_siem.Prelude.{
  ◌>>=◌, ℕ, ◌+◌, ◌≡◌, refl, String, Bool, true, false, Option, none, some, List, [], ◌∷◌, arith,
  Assoc, ◌++◌, if◌then◌else◌,
}
use sigil_siem.Raft.Types.{
  LogEntry, request_vote, vote_reply, append_entries, append_reply, Envelope, RaftState, RaftNode,
  follower, candidate, leader, u32,
}
use sigil_siem.Raft.Node.{
  state_is_leader, tick, propose, accepted, refused, Proposal, current_leader, is_leader,
  append_for, append_message, appends, broadcast_in, broadcast_appends, become_leader, elected,
  stand, campaign, start_election, advance_commit,
}
use sigil_siem.Raft.Step.{
  step, on_request_vote, on_vote_reply, on_append_entries, count_vote, accept_entries,
}
use sigil_siem.Raft.Turns.{Cause, ticks, proposes, receives, Calls, Says, SaysAll}

bind-some :
    {A B : Type 0} {f : A → Option B} {r : B} (o : Option A)
    → (o >>= f) ≡ some r
    → (a : A) × (o ≡ some a) × (f a ≡ some r)
bind-some none h = absurd (ground arith)
bind-some (some a) h = (a, refl, h)

append_for-Says :
    (m n : RaftNode) (next_index : Assoc ℕ) (peer : String) (e : Envelope)
    → n.id ≡ m.id
    → n.term ≡ m.term
    → state_is_leader m.state ≡ true
    → append_for n next_index peer ≡ some e
    → Says m e.to e.msg
unfolding append_for append_message
append_for-Says m n next_index peer e i t l h = ground arith

appends-Says :
    (m n : RaftNode) (next_index : Assoc ℕ) (peers : List String) (out : List Envelope)
    → n.id ≡ m.id
    → n.term ≡ m.term
    → state_is_leader m.state ≡ true
    → appends n next_index peers ≡ some out
    → SaysAll m out
unfolding appends
appends-Says m n next_index [] out i t l h = ground arith
appends-Says m n next_index (p ∷ ps) out i t l h =
    let (e, a, q) = bind-some (append_for n next_index p) h in
    let (rest, b, same) = bind-some (appends n next_index ps) q in
    said out (e ∷ rest) same
      (append_for-Says m n next_index p e i t l a, appends-Says m n next_index ps rest i t l b)
  where
    said : (out sent : List Envelope) → some sent ≡ some out → SaysAll m sent → SaysAll m out
    said out sent s k = let same : sent ≡ out = ground arith in subst (SaysAll m) same k

broadcast_in-Says :
    (s : RaftState) (m n : RaftNode) (out : List Envelope)
    → n.id ≡ m.id
    → n.term ≡ m.term
    → state_is_leader m.state ≡ state_is_leader s
    → broadcast_in s n ≡ some out
    → SaysAll m out
broadcast_in-Says (leader next_index matched) m n out i t l h =
    appends-Says m n next_index n.peers out i t l h
broadcast_in-Says follower m n out i t l h = ground arith
broadcast_in-Says (candidate votes) m n out i t l h = ground arith

broadcast_appends-Says :
    (n : RaftNode) (out : List Envelope) → broadcast_appends n ≡ some out → SaysAll n out
unfolding broadcast_appends
broadcast_appends-Says n out h = broadcast_in-Says n.state n n out refl refl refl h

-- A node that broadcasts and is not changed after it.
broadcasts-Says :
    (n m : RaftNode) (out : List Envelope)
    → ◌>>=◌ {B = RaftNode × List Envelope} (broadcast_appends n) (λ sent. some (n, sent))
      ≡ some (m, out)
    → SaysAll m out
broadcasts-Says n m out h =
    let (sent, e, same) = bind-some (broadcast_appends n) h in
    said n m sent out (ground arith) (ground arith) (broadcast_appends-Says n sent e)
  where
    said :
        (n m : RaftNode) (sent out : List Envelope)
        → n ≡ m
        → sent ≡ out
        → SaysAll n sent
        → SaysAll m out
    said n m sent out a b k = subst₂ SaysAll a b k

become_leader-Says :
    (n m : RaftNode) (out : List Envelope) → become_leader n ≡ some (m, out) → SaysAll m out
unfolding become_leader
become_leader-Says n m out h = broadcasts-Says (elected n) m out h

campaign-Says :
    (peers : List String) (n m : RaftNode) (out : List Envelope)
    → campaign peers n ≡ some (m, out)
    → SaysAll m out
campaign-Says [] n m out h = become_leader-Says n m out h
campaign-Says (_ ∷ _) n m out h = ground arith

tick-Says : (n m : RaftNode) (out : List Envelope) → tick n ≡ some (m, out) → SaysAll m out
unfolding tick start_election
tick-Says n m out h =
    let waited = record n { quiet_ticks = u32 (n.quiet_ticks + 1) } in
    ground (
      arith,
      broadcasts-Says (record waited { quiet_ticks = 0 }) m out,
      campaign-Says (stand waited).peers (stand waited) m out,
    )

propose-Says :
    (payload : List ℕ) (n m : RaftNode) (out : List Envelope)
    → propose payload n ≡ some (accepted m out)
    → SaysAll m out
unfolding propose
propose-Says payload n m out h =
    let grown =
      advance_commit
        (record n { log = n.log ++ record { term = n.term; payload = payload } ∷ [] }) in
    let (sent, e, a, b) =
      accepts (current_leader n) (is_leader n) (broadcast_appends grown) grown h in
    subst₂ SaysAll a b (broadcast_appends-Says grown sent e)
  where
    accepts :
        {m : RaftNode} {out : List Envelope} (hint : Option String) (leads : Bool)
        (o : Option (List Envelope)) (k : RaftNode)
        → (if leads
            then ◌>>=◌ {B = Proposal} o (λ sent. some (accepted k sent))
            else some (refused hint))
          ≡ some (accepted m out)
        → (sent : List Envelope) × (o ≡ some sent) × (k ≡ m) × (sent ≡ out)
    accepts hint false o k h = absurd (ground arith)
    accepts hint true none k h = absurd (ground arith)
    accepts hint true (some sent) k h = (sent, refl, ground arith, ground arith)

request_vote-Says :
    (term : ℕ) (c : String) (index last : ℕ) (n : RaftNode)
    → let r = on_request_vote term c index last n in SaysAll r.0 r.1
unfolding on_request_vote
request_vote-Says term c index last n = ground arith

count_vote-Says :
    (s : RaftState) (n m : RaftNode) (out : List Envelope)
    → count_vote s n ≡ some (m, out)
    → SaysAll m out
count_vote-Says (candidate votes) n m out h =
    ground (arith, become_leader-Says (record n { state = candidate (votes + 1) }) m out)
count_vote-Says follower n m out h = ground arith
count_vote-Says (leader next_index matched) n m out h = ground arith

vote_reply-Says :
    (term : ℕ) (granted : Bool) (n m : RaftNode) (out : List Envelope)
    → on_vote_reply term granted n ≡ some (m, out)
    → SaysAll m out
unfolding on_vote_reply
vote_reply-Says term granted n m out h = ground (arith, count_vote-Says n.state n m out)

append_entries-Says :
    (term : ℕ) (from : String) (prev_index prev_term : ℕ) (entries : List LogEntry) (commit : ℕ)
    (n : RaftNode)
    → let r = on_append_entries term from prev_index prev_term entries commit n in SaysAll r.0 r.1
unfolding on_append_entries accept_entries
append_entries-Says term from prev_index prev_term entries commit n = ground arith

-- What every call of a node sends is true of the node after the call.
pub Calls-Says :
    (cause : Cause) (n m : RaftNode) (out : List Envelope) → Calls cause n m out → SaysAll m out
unfolding step
Calls-Says ticks n m out h = tick-Says n m out h.1
Calls-Says (proposes payload) n m out h = propose-Says payload n m out h
Calls-Says (receives (request_vote term c index last)) n m out h =
    ground (arith, request_vote-Says term c index last n)
Calls-Says (receives (vote_reply term from granted)) n m out h =
    vote_reply-Says term granted n m out h
Calls-Says (receives (append_entries term from prev_index prev_term entries commit)) n m out h =
    ground (arith, append_entries-Says term from prev_index prev_term entries commit n)
Calls-Says (receives (append_reply term from success i)) n m out h = ground arith
