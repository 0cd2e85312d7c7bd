-- ===== src/Peer/Mesh.antt =====
-- internal/peer/swarm.go: the loops of ConnectToHost and handleMessage that connect to the addresses of a list.
-- Each Connect runs on its own; the list is in the order in which they add their peers.
use peerwatch.Base.{
  ℕ, ◌≡◌, refl, ap, ◌∙◌, inl, inr, ◌⊎◌, true, false, Option, none, some, List, [], ◌∷◌, ◌++◌,
}
use peerwatch.Base.Tests.{◌==◌, Bool-cases, if◌then◌else◌, ==_refl}
use peerwatch.Base.Entries.{lookup-put}
use peerwatch.Base.Results.{Result, ok, err, panic}
use peerwatch.Base.Floats.{Floats}
use peerwatch.Protocol.Message.{Bytes, PeerId, bitfield}
use peerwatch.Protocol.Encode.{frame}
use peerwatch.Chunk.Store.Defs.{Store}
use peerwatch.Peer.Connection.{Peer, send}
use peerwatch.Peer.Swarm.{Swarm, get_peer, add_peer}
use peerwatch.Peer.Handshake.{
  Conn, HandshakeError, ◌>>=◌, hello, pure, write_msg, read_handshake, modify, greet,
  expect_handshake, announce, peer_on, connect,
}
use peerwatch.Peer.Steady.{greet-IsSteady}
use peerwatch.Peer.Joining.{Travels, conn_with, read_msg-frame}

module _ {F : Type 0} (floats : Floats F) (dial : Bytes → Option Conn) (store : Option Store) where
  -- One goroutine: what it leaves of the swarm; an error is logged.
  unfoldable pub dial_peer : Bytes → Swarm F → Swarm F
  dial_peer addr s = elim (dial addr) [ none ↦ s | some c ↦ (connect floats store (c, s)).0.1 ]

  unfoldable pub dial_peers : List Bytes → Swarm F → Swarm F
  dial_peers [] s = s
  dial_peers (addr ∷ addrs) s = dial_peers addrs (dial_peer addr s)

module _ {F : Type 0} (floats : Floats F) (dial : Bytes → Option Conn) (store : Option Store) where
  -- Connect adds a peer, or leaves the swarm alone.
  connect_cases :
      (c : Conn) (s : Swarm F)
      → ((connect floats store (c, s)).0.1 ≡ s)
        ⊎ ((p : Peer F) × ((connect floats store (c, s)).0.1 ≡ add_peer p s))
  unfolding connect ◌>>=◌ modify pure
  connect_cases c s = go (greet (c, s)) refl (greet-IsSteady (c, s))
    where
      go :
          (r : (Conn × Swarm F) × Result HandshakeError PeerId)
          → greet (c, s) ≡ r
          → r.0.1 ≡ s
          → ((connect floats store (c, s)).0.1 ≡ s)
            ⊎ ((p : Peer F) × ((connect floats store (c, s)).0.1 ≡ add_peer p s))
      go (t, ok id) is e = inr (
        announce store (peer_on floats c id),
        rw is (ap (add_peer (announce store (peer_on floats c id))) e),
      )
      go (t, err x) is e = inl (rw is e)
      go (t, panic) is e = inl (rw is e)

  dial_peer_cases :
      (addr : Bytes) (s : Swarm F)
      → (dial_peer floats dial store addr s ≡ s)
        ⊎ ((p : Peer F) × (dial_peer floats dial store addr s ≡ add_peer p s))
  unfolding dial_peer
  dial_peer_cases addr s = go (dial addr) refl
    where
      go :
          (d : Option Conn)
          → dial addr ≡ d
          → (dial_peer floats dial store addr s ≡ s)
            ⊎ ((p : Peer F) × (dial_peer floats dial store addr s ≡ add_peer p s))
      go none is = inl (rw (is, dial_peer) refl)
      go (some c) is = rw (is, dial_peer) (connect_cases c s)

  get_peer-add_peer :
      (p q : Peer F) (id : ℕ) (s : Swarm F)
      → get_peer s id ≡ some q
      → (r : Peer F) × (get_peer (add_peer p s) id ≡ some r)
  unfolding get_peer add_peer
  get_peer-add_peer p q id s there = elim (Bool-cases (p.id == id)) [
    | inl same ↦ (p, lookup-put p.id id p s.peers ∙ rw same refl)
    | inr other ↦ (q, lookup-put p.id id p s.peers ∙ rw other there)
  ]

  stays :
      (addrs : List Bytes) (id : ℕ) (q : Peer F) (s : Swarm F)
      → get_peer s id ≡ some q
      → (r : Peer F) × (get_peer (dial_peers floats dial store addrs s) id ≡ some r)
  unfolding dial_peers
  stays [] id q s there = (q, there)
  stays (addr ∷ addrs) id q s there = elim (dial_peer_cases addr s) [
    | inl same ↦ rw same (stays addrs id q s there)
    | inr (p, more) ↦
        let r = get_peer-add_peer p q id s there in rw more (stays addrs id r.0 (add_peer p s) r.1)
  ]

  announce-id : (p : Peer F) → (announce store p).id ≡ p.id
  unfolding announce send
  announce-id p = elim store as (λ st. (announce st p).id ≡ p.id) [
    | none ↦ refl
    | some st ↦
        elim p.closed
          as (λ b.
            (if b then p else record p { queue = bitfield (st.bitfield) ∷ p.queue }).id ≡ p.id) [
              | true ↦ refl
              | false ↦ refl
            ]
  ]

  -- Connect to a peer that answers with its handshake.
  connect-hello :
      (remote rest : Bytes) (id : PeerId) (s : Swarm F)
      → Travels (hello id)
      → (connect floats store (conn_with remote (frame (hello id) ++ rest), s)).0.1
        ≡ add_peer (announce store (peer_on floats (conn_with remote rest) id)) s
  unfolding connect greet ◌>>=◌ write_msg modify pure expect_handshake
  connect-hello remote rest id s travels =
      rw
        (read_msg-frame read_handshake (hello id) rest
          (record (conn_with remote (frame (hello id) ++ rest)) {
            outgoing = frame (hello s.self_id);
          })
          s travels refl)
        refl

  met :
      (addr remote rest : Bytes) (id : PeerId) (s : Swarm F)
      → dial addr ≡ some (conn_with remote (frame (hello id) ++ rest))
      → Travels (hello id)
      → get_peer (dial_peer floats dial store addr s) id
        ≡ some (announce store (peer_on floats (conn_with remote rest) id))
  unfolding dial_peer get_peer add_peer
  met addr remote rest id s there travels =
      let p = announce store (peer_on floats (conn_with remote rest) id) in
      let same = announce-id (peer_on floats (conn_with remote rest) id) in
      rw (there, dial_peer, connect-hello remote rest id s travels)
        (lookup-put p.id id p s.peers ∙ rw (same, ==_refl id) refl)

  -- The loop over the addresses of a list, in whatever order its calls of Connect end: if an address of the
  -- list answers with a handshake, its ID is in the table in the end, whatever the others do; and
  -- every ID that was in the table before still is. Nobody leaves in the meantime.
  pub dial_peers-get_peer :
      (before after : List Bytes) (addr remote rest : Bytes) (id : PeerId) (s : Swarm F)
      → dial addr ≡ some (conn_with remote (frame (hello id) ++ rest))
      → Travels (hello id)
      → ((p : Peer F) × (get_peer (dial_peers floats dial store (before ++ addr ∷ after) s) id
            ≡ some p))
        × ((other : ℕ) (q : Peer F)
            → get_peer s other ≡ some q
            → (p : Peer F) × (get_peer
                  (dial_peers floats dial store (before ++ addr ∷ after) s)
                  other
                ≡ some p))
  unfolding dial_peers
  dial_peers-get_peer before after addr remote rest id s there travels =
      (joins before s, λ other q. stays (before ++ addr ∷ after) other q s)
    where
      joins :
          (addrs : List Bytes) (s : Swarm F)
          → (p : Peer F) × (get_peer (dial_peers floats dial store (addrs ++ addr ∷ after) s) id
              ≡ some p)
      joins [] s =
          stays after id _ (dial_peer floats dial store addr s)
            (met addr remote rest id s there travels)
      joins (a ∷ addrs) s = joins addrs (dial_peer floats dial store a s)
