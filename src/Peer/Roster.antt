-- ===== src/Peer/Roster.antt =====
-- internal/peer/swarm.go: the table of peers as peers connect and disconnect.
use peerwatch.Base.{ℕ, ◌≡◌, refl, ◌∙◌, not, ◌&&◌, none, some, arith}
use peerwatch.Base.Tests.{◌==◌, if◌then◌else◌}
use peerwatch.Base.Entries.{put, lookup-put, lookup-remove}
use peerwatch.Peer.Connection.{Peer}
use peerwatch.Peer.Tracker.{Tracker, remove_peer}
use peerwatch.Peer.Availability.{has_peer, has_peer-remove}
use peerwatch.Peer.Swarm.{Swarm, get_peer, add_peer, forget_peer, disconnect}

module _ {F : Type 0} where
  -- The end of a connection to peer `p`, after a peer `q` with the same ID has been added: `q` is gone
  -- from the table and from the tracker, and every other ID is what it was.
  pub disconnect-add_peer :
      (s : Swarm F) (t : Tracker) (p q : Peer F) (id i : ℕ)
      → s.tracker ≡ some t
      → p.id ≡ q.id
      → (t' : Tracker) × ((disconnect p (add_peer q s)).0.tracker ≡ some t')
        × (get_peer (disconnect p (add_peer q s)).0 id
            ≡ (if p.id == id then none else get_peer s id))
        × (has_peer t' i id ≡ (not (p.id == id) && has_peer t i id))
  unfolding disconnect add_peer get_peer forget_peer
  disconnect-add_peer s t p q id i tracked same = (
    remove_peer p.id t,
    rw tracked refl,
    lookup-remove p.id id (put q.id q s.peers) ∙ ground (arith, same, lookup-put q.id id q s.peers),
    has_peer-remove t p.id i id,
  )
