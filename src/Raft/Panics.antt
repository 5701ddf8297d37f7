-- ===== src/Raft/Panics.antt =====
-- crates/sigil-cluster/src/raft.rs never slices its log out of range, as long as what its peers
-- acknowledge lies in it.
use sigil_siem.Prelude.{
  ℕ, ◌+◌, ◌≤◌, ◌≡◌, refl, inl, inr, ◌⊎◌, String, Bool, true, false, some, List, [], ◌∷◌, ◌++◌,
  arith, ltb, leb, length, ◌>>=◌, if◌then◌else◌, ◌==◌, ◌&&◌, Bool-cases, length-append,
}
use sigil_siem.Raft.Types.{
  u64, u32, LogEntry, RaftMsg, request_vote, vote_reply, append_entries, append_reply, Envelope,
  RaftState, RaftNode, follower, candidate, leader,
}
use sigil_siem.Raft.Node.{
  Outcome, state_is_leader, is_leader, propose, refused, accepted, current_leader, become_follower,
  become_leader, broadcast_appends, elected, tick, stand, campaign, start_election, advance_commit,
  majority,
}
use sigil_siem.Raft.Bounds.{
  NextInBounds, IsReady, Fits, unwrap_or-lookup-InBounds, insert-InBounds, broadcast_appends-total,
  elected-IsReady, become_leader-total, InBounds-grow,
}
use sigil_siem.Raft.Frame.{advance_commit-SameLog}
use sigil_siem.Raft.Step.{
  on_append_reply, on_vote_reply, on_request_vote, on_append_entries, step, note_reply, count_vote,
}

-- A call that does not panic and leaves the node ready.
abbrev pub Safely : Outcome → Type 0
Safely o = (m : RaftNode) × (out : List Envelope) × (o ≡ some (m, out)) × IsReady m

Safely-if : (b : Bool) (o p : Outcome) → Safely o → Safely p → Safely (if b then o else p)
Safely-if true o p so sp = so
Safely-if false o p so sp = sp

become_leader-Safely : (n : RaftNode) → Fits n → Safely (become_leader n)
become_leader-Safely n f =
    let (out, p) = become_leader-total n f in (elected n, out, p, elected-IsReady n f)

become_follower-IsReady : (term : ℕ) (n : RaftNode) → IsReady (become_follower term n)
unfolding become_follower
become_follower-IsReady term n = tt

count_vote-Safely : (s : RaftState) (n : RaftNode) → Fits n → IsReady n → Safely (count_vote s n)
count_vote-Safely (candidate votes) n f r =
    let counted = record n { state = candidate (votes + 1) } in
    Safely-if (leb (majority n) (votes + 1)) (become_leader counted) (some (counted, []))
      (become_leader-Safely counted f) (counted, [], refl, tt)
count_vote-Safely follower n f r = (n, [], refl, r)
count_vote-Safely (leader _ _) n f r = (n, [], refl, r)

on_vote_reply-Safely :
    (term : ℕ) (granted : Bool) (n : RaftNode)
    → Fits n
    → IsReady n
    → Safely (on_vote_reply term granted n)
unfolding on_vote_reply
on_vote_reply-Safely term granted n f r =
    Safely-if (ltb n.term term) _ _
      (become_follower term n, [], refl, become_follower-IsReady term n)
      (Safely-if (term == n.term && granted) _ _ (count_vote-Safely n.state n f r) (n, [], refl, r))

advance_commit-IsReady : (n : RaftNode) → IsReady n → IsReady (advance_commit n)
advance_commit-IsReady n r = let same = advance_commit-SameLog n in rw (same.state, same.log) r

-- An acknowledged index lies in the log.
abbrev pub Acknowledges : Bool → ℕ → RaftNode → Type 0
Acknowledges true i n = i ≤ length n.log
Acknowledges false i n = Unit

note_reply-IsReady :
    (s : RaftState) (from : String) (success : Bool) (i : ℕ) (n : RaftNode)
    → s ≡ n.state
    → Fits n
    → Acknowledges success i n
    → NextInBounds s (length n.log)
    → IsReady (note_reply s from success i n)
note_reply-IsReady (leader next_index matched) from true i n e f a r =
    advance_commit-IsReady _ (
      insert-InBounds (length n.log + 1) from (u64 (i + 1)) next_index (omega arith) (omega arith)
        r)
note_reply-IsReady (leader next_index matched) from false i n e f a r =
    let bounds = unwrap_or-lookup-InBounds (length n.log + 1) from next_index (omega arith) r in
    insert-InBounds (length n.log + 1) from _ next_index (omega arith) (omega arith) r
note_reply-IsReady follower from success i n e f a r = rw (← e) tt
note_reply-IsReady (candidate votes) from success i n e f a r = rw (← e) tt

on_append_reply-IsReady :
    (term : ℕ) (from : String) (success : Bool) (i : ℕ) (n : RaftNode)
    → Fits n
    → Acknowledges success i n
    → IsReady n
    → IsReady (on_append_reply term from success i n)
unfolding on_append_reply
on_append_reply-IsReady term from success i n f a r = elim (Bool-cases (ltb n.term term)) [
  | inl later ↦ rw later (become_follower-IsReady term n)
  | inr same ↦ rw same (note_reply-IsReady n.state from success i n refl f a r)
]

on_request_vote-IsReady :
    (term : ℕ) (c : String) (index last : ℕ) (n : RaftNode)
    → IsReady n
    → IsReady (on_request_vote term c index last n).0
unfolding on_request_vote
on_request_vote-IsReady term c index last n r = ground arith

-- A node that is not a follower and hears a leader of its term becomes one; a follower that hears
-- one stays one; otherwise the log and the state are as they were.
on_append_entries-IsReady :
    (term : ℕ) (from : String) (prev_index prev_term : ℕ) (entries : List LogEntry) (commit : ℕ)
    (n : RaftNode)
    → IsReady n
    → IsReady (on_append_entries term from prev_index prev_term entries commit n).0
unfolding on_append_entries
on_append_entries-IsReady term from prev_index prev_term entries commit n r = ground arith

-- What the environment owes: a successful reply acknowledges no more than the log holds.
abbrev pub Honest : RaftMsg → RaftNode → Type 0
Honest (append_reply term from success i) n = Acknowledges success i n
Honest _ n = Unit

-- A ready node with room in its log takes every message without a panic and stays ready, where
-- acknowledgements of entries name entries that it has.
pub step-Safely :
    (msg : RaftMsg) (n : RaftNode) → Fits n → Honest msg n → IsReady n → Safely (step msg n)
unfolding step
step-Safely (request_vote term c index last) n f a r =
    (_, _, refl, on_request_vote-IsReady term c index last n r)
step-Safely (vote_reply term from granted) n f a r = on_vote_reply-Safely term granted n f r
step-Safely (append_entries term from prev_index prev_term entries commit) n f a r =
    (_, _, refl, on_append_entries-IsReady term from prev_index prev_term entries commit n r)
step-Safely (append_reply term from success i) n f a r =
    (_, _, refl, on_append_reply-IsReady term from success i n f a r)

campaign-Safely :
    (peers : List String) (n : RaftNode) → Fits n → IsReady n → Safely (campaign peers n)
campaign-Safely [] n f r = become_leader-Safely n f
campaign-Safely (p ∷ ps) n f r = (n, _, refl, r)

start_election-Safely : (n : RaftNode) → Fits n → Safely (start_election n)
unfolding start_election
start_election-Safely n f = campaign-Safely n.peers (stand n) f tt

heartbeat-Safely : (n : RaftNode) → IsReady n → Safely (do out ← broadcast_appends n; some (n, out))
heartbeat-Safely n r = let (out, p) = broadcast_appends-total n r in (n, out, ground arith, r)

-- A ready node with room in its log ticks without a panic and stays ready.
pub tick-Safely : (n : RaftNode) → Fits n → IsReady n → Safely (tick n)
unfolding tick
tick-Safely n f r =
    let waited = record n { quiet_ticks = u32 (n.quiet_ticks + 1) } in
    Safely-if (state_is_leader n.state) _ _
      (Safely-if (leb n.heartbeat_every waited.quiet_ticks) _ _
        (heartbeat-Safely (record waited { quiet_ticks = 0 }) r) (waited, [], refl, r))
      (Safely-if (leb n.election_after waited.quiet_ticks) _ _ (start_election-Safely waited f)
        (waited, [], refl, r))

NextInBounds-grow : (s : RaftState) (size : ℕ) → NextInBounds s size → NextInBounds s (size + 1)
NextInBounds-grow (leader next_index matched) size r = InBounds-grow next_index size r
NextInBounds-grow follower size r = tt
NextInBounds-grow (candidate votes) size r = tt

-- A proposal does not panic: a leader takes it and stays ready, any other node refuses it.
pub propose-total :
    (payload : List ℕ) (n : RaftNode)
    → IsReady n
    → ((is_leader n ≡ false) × (propose payload n ≡ some (refused (current_leader n))))
      ⊎ ((m : RaftNode) × (out : List Envelope) × (propose payload n ≡ some (accepted m out))
          × IsReady m
          × (m.log ≡ n.log ++ record { term = n.term; payload = payload } ∷ []))
unfolding propose
propose-total payload n r = elim (Bool-cases (is_leader n)) [
  | inl yes' ↦
      let e : LogEntry = record { term = n.term; payload = payload } in
      let longer = record n { log = n.log ++ e ∷ [] } in
      let ready : IsReady longer =
        rw (length-append n.log (e ∷ [])) (NextInBounds-grow n.state (length n.log) r) in
      let grown = advance_commit-IsReady longer ready in
      let (out, p) = broadcast_appends-total (advance_commit longer) grown in
      inr (advance_commit longer, out, ground arith, grown, (advance_commit-SameLog longer).log)
  | inr no' ↦ inl (no', rw no')
]
