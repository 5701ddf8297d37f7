-- ===== src/Raft/Turning/Ticks.antt =====
-- Ticks and proposals of crates/sigil-cluster/src/raft.rs are turns.

use sigil_siem.Prelude.{
  ℕ, ◌+◌, ◌^◌, ◌≤◌, ◌<◌, ◌≡◌, refl, ap, sym, ◌∙◌, inl, inr, String, some, List, [], ◌∷◌, arith, leb,
  Bool-cases,
}
use sigil_siem.Raft.Types.{Envelope, RaftNode, u32}
use sigil_siem.Raft.Node.{
  state_is_leader, majority, tick, propose, accepted, is_leader, elected, stand, campaign,
  start_election, advance_commit,
}
use sigil_siem.Raft.Frame.{become_leader-elected}
use sigil_siem.Raft.Turns.{ticks, proposes, support, starts, Turn}
use sigil_siem.Raft.Turning.Rests.{Rests-Turn, voted-VotesForSelf}

-- A tick: a node that stands votes for itself in the next term; every other call is at rest.
pub stood-Turn :
    (n m : RaftNode)
    → n.term + 1 < 2 ^ 64
    → m.id ≡ n.id
    → m.peers ≡ n.peers
    → m.term ≡ n.term + 1
    → m.voted_for ≡ some n.id
    → support m ≤ 1
    → Turn ticks n m
stood-Turn n m room i p t v s = record {
  id = i;
  peers = p;
  term = omega arith;
  claim = starts s;
  own_vote = λ _. voted-VotesForSelf m.state m (v ∙ ap some (sym i));
  leads = λ _ e. absurd (omega arith);
  vote = λ _ _ _ e. absurd (omega arith);
}

pub campaign-Turn :
    (peers : List String) (quiet : ℕ) (n s m : RaftNode) (out : List Envelope)
    → n.term + 1 < 2 ^ 64
    → peers ≡ s.peers
    → s ≡ stand (record n { quiet_ticks = quiet })
    → campaign peers s ≡ some (m, out)
    → Turn ticks n m
unfolding stand majority elected
campaign-Turn [] quiet n s m out room p e h =
    let won = become_leader-elected s m out h in
    stood-Turn n m room (ground arith) (ground arith) (ground arith) (ground arith) (ground arith)
campaign-Turn (_ ∷ _) quiet n s m out room p e h =
    stood-Turn n m room (ground arith) (ground arith) (ground arith) (ground arith) (ground arith)

pub tick-Turn :
    (n m : RaftNode) (out : List Envelope)
    → n.term + 1 < 2 ^ 64
    → tick n ≡ some (m, out)
    → Turn ticks n m
unfolding tick start_election majority stand
tick-Turn n m out room h =
    let waited = record n { quiet_ticks = u32 (n.quiet_ticks + 1) } in
    elim (Bool-cases (state_is_leader n.state)) [
      | inl leads ↦ Rests-Turn ticks n m (ground arith)
      | inr follows ↦ elim (Bool-cases (leb n.election_after waited.quiet_ticks)) [
        | inl late ↦
            campaign-Turn n.peers (u32 (n.quiet_ticks + 1)) n (stand waited) m out room
              (ground arith) refl (ground arith)
        | inr early ↦ Rests-Turn ticks n m (ground arith)
      ]
    ]

pub propose-Turn :
    (payload : List ℕ) (n m : RaftNode) (out : List Envelope)
    → propose payload n ≡ some (accepted m out)
    → Turn (proposes payload) n m
unfolding propose majority is_leader advance_commit
propose-Turn payload n m out h = Rests-Turn (proposes payload) n m (ground arith)
