-- ===== src/Joiner/Join.antt =====
-- cmd/join.go: Join, up to the joiner that then runs. What the machine answers is a parameter: the
-- connection that net.DialTimeout gives for an address, and os.OpenFile of the new file. A call of
-- log.Fatalf or os.Exit is an error.
use peerwatch.Base.{Bool, false, Option, none, some, List, [], ◌∷◌}
use peerwatch.Base.Floats.{Floats}
use peerwatch.Base.Results.{Result, ok, err, ◌>>=◌, wrap_error}
use peerwatch.Protocol.Message.{Bytes, PeerId}
use peerwatch.Chunk.File.{IoError}
use peerwatch.Chunk.Manifest.{Manifest}
use peerwatch.Chunk.Store.Defs.{StoreError, new_peer_store}
use peerwatch.Peer.Swarm.{Swarm}
use peerwatch.Peer.Handshake.{Conn, HandshakeError, connect_to_host}
use peerwatch.Peer.Duties.{new_swarm, set_store}
use peerwatch.Scheduler.Tick
use peerwatch.Token.{Token, TokenError, decode}
use peerwatch.Joiner.{Joiner}

pub data JoinError : Type 0 where
  usage dial_failed : JoinError
  invalid_token : TokenError → JoinError
  connect_failed : HandshakeError → JoinError
  store_failed : StoreError → JoinError

module _ {F : Type 0} where
  -- What Join does with the outcome of ConnectToHost.
  unfoldable pub wire_up :
      Result IoError (Unit {0})
      → (Conn × Swarm F) × Result HandshakeError (Manifest × List Bytes)
      → Result JoinError (Conn × Joiner F)
  wire_up opened ((conn, swarm), r) = wrap_error connect_failed r >>= λ found.
      wrap_error store_failed (new_peer_store opened found.0) >>= λ store.
      set_store (some store) swarm >>= λ kept.
      ok (conn, record { swarm = swarm; store = store; sched = Tick.new })

  module _ (floats : Floats F) (split_host_port : Bytes → Bool) (unmarshal : Bytes → Option Token)
      (dial : Bytes → Option Conn) (opened : Result IoError (Unit {0})) (self_id : PeerId) where
    unfoldable pub join_room : Token → Result JoinError (Conn × Joiner F)
    unfolding wire_up
    join_room tok = new_swarm self_id none none false >>= λ swarm. elim (dial tok.host) [
      | none ↦ err dial_failed
      | some conn ↦ wire_up opened (connect_to_host floats tok.host none (conn, swarm))
    ]

    -- Join, on the arguments behind its flags.
    unfoldable pub join : List Bytes → Result JoinError (Conn × Joiner F)
    unfolding join_room
    join [] = err usage
    join (token ∷ more) =
        wrap_error invalid_token (decode split_host_port unmarshal token) >>= join_room
