-- ===== src/Peer/Duties.antt =====
-- internal/peer/swarm.go: NewSwarm, SetStore, Listen, the broadcasts and their loops, Close and
-- acceptLoop, and the loop of cmd/join.go that connects to the host again. The store is an argument.
use peerwatch.Base.{ℕ, Bool, true, false, Option, none, some, List, [], ◌∷◌}
use peerwatch.Base.Tests.{if◌then◌else◌}
use peerwatch.Base.Lists.{length}
use peerwatch.Base.Floats.{Floats}
use peerwatch.Base.Results.{Result, ok, panic, wrap_error}
use peerwatch.Protocol.Message.{Bytes, PeerId, Message, bitfield, keepalive}
use peerwatch.Chunk.File.{IoError}
use peerwatch.Chunk.Manifest.{Manifest}
use peerwatch.Chunk.Store.Defs.{Store}
use peerwatch.Peer.Tracker.{Tracker, new_tracker}
use peerwatch.Peer.Connection.{Peer, send}
use peerwatch.Peer.Connection
use peerwatch.Peer.Swarm.{Swarm, addrs_of, knows}
use peerwatch.Peer.Handshake.{Conn, HandshakeError, connect_to_host}

pub data ListenError : Type 0 where
  listen_failed : IoError → ListenError

abbrev tracker_of : Option Manifest → Option Tracker
tracker_of none = none
tracker_of (some m) = some (new_tracker m.chunk_count)

module _ {F : Type 0} where
  abbrev pub empty_swarm : PeerId → Option Manifest → Bool → Swarm F
  empty_swarm id m is_host = record {
    self_id = id;
    is_host = is_host;
    manifest = m;
    tracker = tracker_of m;
    host_addr = [];
    done = false;
    peers = [];
  }

  unfoldable pub new_swarm :
      {E : Type 0} → PeerId → Option Store → Option Manifest → Bool → Result E (Swarm F)
  new_swarm id none m true = panic
  new_swarm id (some store) none true = panic
  new_swarm id (some store) (some m) true = ok (empty_swarm id (some m) true)
  new_swarm id store m false = ok (empty_swarm id m false)

  -- The store that the swarm uses from then on.
  unfoldable pub set_store : {E : Type 0} → Option Store → Swarm F → Result E (Option Store)
  set_store none s = panic
  set_store (some store) s = if s.is_host then panic else ok (some store)

  -- `listener` is what net.Listen answers.
  unfoldable pub listen : {L : Type 0} → Result IoError L → Swarm F → Result ListenError L
  listen listener s = if s.is_host then wrap_error listen_failed listener else panic

  unfoldable pub send_all : Message → List (ℕ × Peer F) → List (ℕ × Peer F)
  send_all m [] = []
  send_all m ((id, p) ∷ rest) = (id, send m p) ∷ send_all m rest

  unfoldable pub broadcast : Message → Swarm F → Swarm F
  unfolding send_all
  broadcast m s = record s { peers = send_all m s.peers }

  unfoldable pub peer_count : Swarm F → ℕ
  peer_count s = length s.peers

  unfoldable pub has_host_connection : Swarm F → Bool
  unfolding knows addrs_of
  has_host_connection s = elim s.host_addr [
    | [] ↦ false
    | b ∷ addr ↦ knows (b ∷ addr) (addrs_of s.peers)
  ]

  -- A tick of StartBitfieldBroadcast, and one of StartKeepaliveLoop; both end once `done` is set.
  unfoldable pub bitfield_tick : Option Store → Swarm F → Swarm F
  unfolding broadcast
  bitfield_tick none s = s
  bitfield_tick (some store) s = broadcast (bitfield store.bitfield) s

  unfoldable pub keepalive_tick : Swarm F → Swarm F
  unfolding broadcast
  keepalive_tick s = broadcast keepalive s

  unfoldable pub close_all : List (ℕ × Peer F) → List (ℕ × Peer F)
  close_all [] = []
  close_all ((id, p) ∷ rest) = (id, Connection.close p) ∷ close_all rest

  unfoldable pub close : Swarm F → Swarm F
  unfolding close_all
  close s = if s.done then s else record s { done = true; peers = close_all s.peers }

-- What Accept answers, one after the other, each with whether `done` is set by then: the connections
-- that are given to handleIncoming.
unfoldable pub accept_loop : List (Bool × Option Conn) → List Conn
accept_loop [] = []
accept_loop ((done, some c) ∷ answers) = c ∷ accept_loop answers
accept_loop ((done, none) ∷ answers) = let rest = accept_loop answers in if done then [] else rest

-- A tick of the loop that connects to the host again, on the connection that it gets if it dials.
unfoldable pub reconnect :
    {F : Type 0}
    → Floats F
    → Bytes
    → Option Store
    → Conn × Swarm F
    → (Conn × Swarm F) × Option (Result HandshakeError (Manifest × List Bytes))
unfolding has_host_connection
reconnect floats addr store s =
    if has_host_connection s.1
    then (s, none)
    else (let (t, r) = connect_to_host floats addr store s in (t, some r))
