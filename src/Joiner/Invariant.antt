-- ===== src/Joiner/Invariant.antt =====
-- cmd/join.go: what every event keeps of a running joiner.
use peerwatch.Base.{ℕ, ◌≤◌, ◌<◌, ◌≡◌, refl, none, some, List, [], ◌∷◌}
use peerwatch.Base.Lists.{length, All}
use peerwatch.Base.Floats.{Floats}
use peerwatch.Base.Results.{Result, ok, err, panic}
use peerwatch.Base.Results
use peerwatch.Protocol.Message.{
  Bytes, Digest, Message, handshake, manifest, bitfield, have, request, piece, cancel, sync,
  peer_list, keepalive,
}
use peerwatch.Chunk.File.{WriteOutcome}
use peerwatch.Chunk.Chunker.Counting.{Fits}
use peerwatch.Chunk.Store.Integrity.{IsGenuine, NoCollision, chunk_total}
use peerwatch.Peer.Connection.{Peer, set_bitfield}
use peerwatch.Peer.Tracker.{Tracker}
use peerwatch.Peer.Swarm.{
  Swarm, Effect, piece_received, sync_received, connects, update_tracker, handle_message,
  serve_from,
}
use peerwatch.Joiner.{
  Joiner, Source, in_table, replaced, Event, received, added, demanded, Ran, put_back, settle,
}
use peerwatch.Joiner.Serving.{
  IsHonestPeer, IsHonestTable, IsHonestSwarm, put-IsHonest, clear_in_flight-queue,
  serve_request-IsHonest,
}
use peerwatch.Joiner.Arriving.{connects-IsLawfulEffect, IsLawfulEffect, run_effects-IsGenuine}

module _ (sha256 : Bytes → Digest) (orig : Bytes) (cs : ℕ) (name : Bytes) where
  -- What a message must not be: a piece with a second preimage of a digest, or a request for a chunk
  -- that the file has not.
  unfoldable pub IsLawful : Message → Type 0
  IsLawful (piece m) = (i : ℕ) → i < chunk_total orig cs → NoCollision sha256 orig cs i m.payload
  IsLawful (request indices) = All (λ index. index < chunk_total orig cs) indices
  IsLawful m = Unit

  module _ {F : Type 0} where
    unfoldable pub IsOwn : Source F → Type 0
    IsOwn (in_table id) = Unit
    IsOwn (replaced p) = IsHonestPeer orig cs p

    unfoldable pub IsAdmissible : Event F → Type 0
    IsAdmissible (received now source m disk) = IsOwn source × IsLawful m
    IsAdmissible (added p) = IsHonestPeer orig cs p
    IsAdmissible (demanded index) = index < chunk_total orig cs
    IsAdmissible e = Unit

    -- The store is sound and readable, the scheduler within its budget, and whatever waits in a queue to
    -- a peer is a piece of the original, or no piece.
    pub record IsSound (j : Joiner F) : Type 0 where
      pub genuine : IsGenuine sha256 orig cs name j.store
      pub healthy : j.store.file.fault ≡ none
      pub few : length j.sched.in_flight ≤ 16
      pub honest : IsHonestSwarm orig cs j.swarm

    -- The event runs to its end, and leaves a sound joiner.
    unfoldable pub Keeps : Ran F → Type 0
    Keeps r = (j : Joiner F) × (out : List Effect) × (r ≡ ok (j, out)) × IsSound j

    module _ (fits : Fits (length orig) cs) where
      put_back-IsHonest :
          (source : Source F) (p : Peer F) (s : Swarm F) (t : Tracker)
          → IsHonestPeer orig cs p
          → IsHonestTable orig cs s.peers
          → IsHonestSwarm orig cs (put_back source p (record s { tracker = some t }))
      unfolding put_back
      put_back-IsHonest (in_table id) p s t h v = record {
        tracked = (t, refl);
        honest = put-IsHonest orig cs id p s.peers h v;
      }
      put_back-IsHonest (replaced q) p s t h v = record { tracked = (t, refl); honest = v }

      settle-Keeps :
          (source : Source F) (disk : WriteOutcome) (j : Joiner F) (p : Peer F) (t : Tracker)
          (effects : List Effect)
          → IsSound j
          → IsHonestPeer orig cs p
          → All (IsLawfulEffect sha256 orig cs name fits) effects
          → Keeps (settle sha256 source disk j ((p, some t), effects))
      unfolding settle Keeps
      settle-Keeps source disk j p t effects v h safe =
          let (s₁, c₁, out, is, genuine, well, few) =
            run_effects-IsGenuine sha256 orig cs name fits disk effects j.store j.sched safe
              v.genuine v.healthy v.few in
          (
            record {
              swarm = put_back source p (record (j.swarm) { tracker = some t });
              store = s₁;
              sched = c₁;
            },
            out,
            rw is refl,
            record {
              genuine = genuine;
              healthy = well;
              few = few;
              honest = put_back-IsHonest source p j.swarm t h v.honest.honest;
            },
          )

      module _ (floats : Floats F) (seconds : ℕ → F) (now : ℕ) (known : List Bytes) where
        -- handleMessage with the callbacks behind it.
        pub handle_message-Keeps :
            (source : Source F) (disk : WriteOutcome) (m : Message) (j : Joiner F) (p : Peer F)
            (t : Tracker)
            → IsSound j
            → IsHonestPeer orig cs p
            → IsLawful m
            → Keeps (
                Results.◌>>=◌
                  (handle_message floats seconds now (some j.store) known m (p, some t))
                  (settle sha256 source disk j))
        unfolding handle_message IsLawful IsLawfulEffect IsHonestPeer update_tracker set_bitfield
            serve_from
        handle_message-Keeps source disk (bitfield bf) j p t v h lawful =
            settle-Keeps source disk j _ _ [] v h tt
        handle_message-Keeps source disk (request indices) j p t v h lawful =
            let (p', is, h') =
              serve_request-IsHonest orig cs sha256 name fits j.store v.genuine v.healthy indices p
                lawful h in
            rw is (settle-Keeps source disk j p' t [] v h' tt)
        handle_message-Keeps source disk (piece m) j p t v h lawful =
            settle-Keeps source disk j _ t (piece_received m.chunk_index m.payload ∷ []) v
              (rw
                (clear_in_flight-queue orig cs floats seconds now m.chunk_index (length m.payload)
                  p)
                h)
              (lawful, tt)
        handle_message-Keeps source disk (have index) j p t v h lawful =
            settle-Keeps source disk j _ _ [] v h tt
        handle_message-Keeps source disk (sync m) j p t v h lawful =
            settle-Keeps source disk j p t (sync_received m ∷ []) v h (tt, tt)
        handle_message-Keeps source disk (peer_list addrs) j p t v h lawful =
            settle-Keeps source disk j p t (connects known addrs) v h
              (connects-IsLawfulEffect sha256 orig cs name fits known addrs)
        handle_message-Keeps source disk keepalive j p t v h lawful =
            settle-Keeps source disk j p t [] v h tt
        handle_message-Keeps source disk (cancel index) j p t v h lawful =
            settle-Keeps source disk j p t [] v h tt
        handle_message-Keeps source disk (handshake m) j p t v h lawful =
            settle-Keeps source disk j p t [] v h tt
        handle_message-Keeps source disk (manifest m) j p t v h lawful =
            settle-Keeps source disk j p t [] v h tt
