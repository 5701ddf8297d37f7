-- ===== src/Raft/Votes.antt =====
-- Votes of crates/sigil-cluster/src/raft.rs: whom a node votes for, and how long the vote lasts.
use sigil_siem.Prelude.{
  ℕ, ◌+◌, ◌^◌, ◌≤◌, ◌<◌, ◌≡◌, refl, ◌⊎◌, inl, inr, String, Bool, true, false, Option, none, some,
  List, [], ◌∷◌, arith, eq_iff,
}
use sigil_siem.Raft.Types.{
  LogEntry, RaftMsg, candidate, request_vote, vote_reply, append_entries, append_reply, Envelope,
  RaftNode,
}
use sigil_siem.Raft.Node.{last_index, last_term, become_follower, tick}
use sigil_siem.Raft.Step.{grants, vote_available, on_request_vote, on_append_entries, step}
use sigil_siem.Raft.Frame.{on_vote_reply-vote, on_append_reply-vote, tick-vote}
use sigil_siem.Raft.Run.{Run, here, receive, wait, Run-term_mono}

-- The `granted` flag of a reply.
abbrev pub reply_grants : List Envelope → Bool
reply_grants [] = false
reply_grants (e ∷ es) = elim e.msg [ vote_reply term from granted ↦ granted | _ ↦ false ]

abbrev pub gives_vote : ℕ → String → ℕ → ℕ → RaftNode → Bool
gives_vote term c index last n = reply_grants (on_request_vote term c index last n).1

-- A log that ends with term `last` at `index` is at least as up to date as the node's.
abbrev pub IsUpToDate : RaftNode → ℕ → ℕ → Type 0
IsUpToDate n index last = (last_term n < last) ⊎ ((last ≡ last_term n) × (last_index n ≤ index))

-- The node has no vote in term `t` that would bar candidate `c`.
abbrev pub IsFree : RaftNode → ℕ → String → Type 0
IsFree n term c = (n.term < term) ⊎ ((n.voted_for ≡ none) ⊎ (n.voted_for ≡ some c))

vote_available-cases :
    (o : Option String) (c : String) → vote_available o c ≡ true → (o ≡ none) ⊎ (o ≡ some c)
unfolding vote_available
vote_available-cases none c h = inl refl
vote_available-cases (some v) c h = ground (arith, eq_iff v c)

last_term-become_follower :
    (term : ℕ) (n : RaftNode) → last_term (become_follower term n) ≡ last_term n
unfolding last_term become_follower
last_term-become_follower term n = refl

last_index-become_follower :
    (term : ℕ) (n : RaftNode) → last_index (become_follower term n) ≡ last_index n
unfolding last_index become_follower
last_index-become_follower term n = refl

-- A vote is given only for a term not behind the node's, to a log that is up to date, by a free
-- node; and it is recorded with the term.
pub gives_vote-needs :
    (term : ℕ) (c : String) (index last : ℕ) (n : RaftNode)
    → gives_vote term c index last n ≡ true
    → (n.term ≤ term)
      × IsUpToDate n index last
      × IsFree n term c
      × ((on_request_vote term c index last n).0.term ≡ term)
      × ((on_request_vote term c index last n).0.voted_for ≡ some c)
unfolding on_request_vote grants
gives_vote-needs term c index last n h = ground (
  arith,
  vote_available-cases n.voted_for c,
  last_term-become_follower term n,
  last_index-become_follower term n,
)

-- No message of a leader.
abbrev pub NotFromLeader : RaftMsg → Type 0
NotFromLeader (append_entries _ _ _ _ _ _) = ⊥
NotFromLeader _ = Unit

-- The node is past the term, or still in it with its vote for `c`.
abbrev pub StillVotes : ℕ → String → RaftNode → Type 0
StillVotes term c m = (term < m.term) ⊎ ((m.term ≡ term) × (m.voted_for ≡ some c))

on_request_vote-StillVotes :
    (term : ℕ) (d : String) (index last : ℕ) (n : RaftNode) (c : String)
    → n.voted_for ≡ some c
    → StillVotes n.term c (on_request_vote term d index last n).0
unfolding on_request_vote grants vote_available
on_request_vote-StillVotes term d index last n c v = ground (arith, eq_iff c d)

step-StillVotes :
    (msg : RaftMsg) (n m : RaftNode) (out : List Envelope) (c : String)
    → NotFromLeader msg
    → n.voted_for ≡ some c
    → step msg n ≡ some (m, out)
    → StillVotes n.term c m
unfolding step
step-StillVotes (request_vote term d index last) n m out c p v h =
    ground (arith, on_request_vote-StillVotes term d index last n c v)
step-StillVotes (vote_reply term from granted) n m out c p v h =
    ground (arith, on_vote_reply-vote term granted n m out)
step-StillVotes (append_entries _ _ _ _ _ _) n m out c p v h = absurd p
step-StillVotes (append_reply term from success i) n m out c p v h =
    ground (arith, on_append_reply-vote term from success i n)

tick-StillVotes :
    (n m : RaftNode) (out : List Envelope) (c : String)
    → n.term + 1 < 2 ^ 64
    → n.voted_for ≡ some c
    → tick n ≡ some (m, out)
    → StillVotes n.term c m
tick-StillVotes n m out c room v h = ground (arith, tick-vote n m out)

Run-StillVotes :
    {n k : RaftNode} (c : String)
    → n.voted_for ≡ some c
    → Run NotFromLeader n k
    → StillVotes n.term c k
Run-StillVotes c v here = inr (refl, v)
Run-StillVotes c v (receive {n = n} {m = m} msg out p h r) =
    elim (step-StillVotes msg n m out c p v h) [
      | inl later ↦ inl (omega (arith, Run-term_mono r))
      | inr kept ↦ rw (← kept.0) (Run-StillVotes c kept.1 r)
    ]
Run-StillVotes c v (wait {n = n} {m = m} out room h r) = elim (tick-StillVotes n m out c room v h) [
  | inl later ↦ inl (omega (arith, Run-term_mono r))
  | inr kept ↦ rw (← kept.0) (Run-StillVotes c kept.1 r)
]

-- Two votes that a node gives in one term go to one candidate, whatever ticks, requests and replies
-- come between them, if no message of a leader does, no call panics and no tick finds the term at
-- the end of its 64 bits.
pub one_vote_a_term :
    (term : ℕ) (c d : String) (index last index' last' : ℕ) (n k : RaftNode)
    → gives_vote term c index last n ≡ true
    → Run NotFromLeader (on_request_vote term c index last n).0 k
    → gives_vote term d index' last' k ≡ true
    → c ≡ d
one_vote_a_term term c d index last index' last' n k first r second =
    let given = gives_vote-needs term c index last n first in
    ground (arith, given, Run-StillVotes c given.4 r, gives_vote-needs term d index' last' k second)

free-gives_vote :
    (term : ℕ) (m : RaftNode) (d : String) (index last : ℕ)
    → m.term ≡ term
    → m.voted_for ≡ none
    → IsUpToDate m index last
    → gives_vote term d index last m ≡ true
unfolding on_request_vote grants vote_available
free-gives_vote term m d index last e v up = ground arith

candidate-yields :
    (n : RaftNode) (votes : ℕ) (from : String) (prev_index prev_term commit : ℕ)
    (entries : List LogEntry)
    → n.state ≡ candidate votes
    → let m = (on_append_entries n.term from prev_index prev_term entries commit n).0 in
      (m.term ≡ n.term) × (m.voted_for ≡ none)
unfolding on_append_entries
candidate-yields n votes from prev_index prev_term commit entries s = ground arith

-- The node after a message of a leader of its own term.
abbrev pub hears : RaftNode → String → ℕ → ℕ → List LogEntry → ℕ → RaftNode
hears n from prev_index prev_term entries commit =
    (on_append_entries n.term from prev_index prev_term entries commit n).0

-- A node that stands for a term, as it does with its own vote, and then hears a leader of the same
-- term keeps the term and drops the vote: it then votes again in that term, for any candidate whose
-- log is up to date.
pub candidate_votes_again :
    (n : RaftNode) (votes : ℕ) (from d : String) (prev_index prev_term commit index last : ℕ)
    (entries : List LogEntry)
    → n.state ≡ candidate votes
    → IsUpToDate (hears n from prev_index prev_term entries commit) index last
    → let m = hears n from prev_index prev_term entries commit in
      (m.term ≡ n.term) × (m.voted_for ≡ none) × (gives_vote n.term d index last m ≡ true)
candidate_votes_again n votes from d prev_index prev_term commit index last entries s up =
    let (same, dropped) = candidate-yields n votes from prev_index prev_term commit entries s in
    (
      same,
      dropped,
      free-gives_vote n.term (hears n from prev_index prev_term entries commit) d index last same
          dropped up,
    )
