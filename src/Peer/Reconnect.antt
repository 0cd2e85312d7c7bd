-- ===== src/Peer/Reconnect.antt =====
-- internal/peer/swarm.go and cmd/join.go: broadcasts, the end of a swarm, and when a joiner connects to
-- the host again.
use peerwatch.Base.{
  ℕ, ◌≡◌, refl, inl, inr, ap, ◌∙◌, true, false, Option, none, some, List, [], ◌∷◌, arith,
}
use mathlib.Core.Option
use peerwatch.Base.Tests.{◌==◌, if◌then◌else◌, Bool-cases}
use peerwatch.Base.Entries.{lookup, put}
use peerwatch.Base.Floats.{Floats}
use peerwatch.Protocol.Message.{Bytes, PeerId, Message}
use peerwatch.Chunk.Manifest.{Manifest}
use peerwatch.Chunk.Store.Defs.{Store}
use peerwatch.Peer.Connection.{Peer, send, set_bitfield}
use peerwatch.Peer.Connection
use peerwatch.Peer.Swarm.{Swarm, get_peer, add_peer, addrs_of, knows, same_bytes}
use peerwatch.Peer.Handshake.{Conn, announce, peer_on, connect_to_host}
use peerwatch.Peer.Joining.{Travels, conn_with, joined, connect_to_host-handle_incoming}
use peerwatch.Base.{◌||◌, ◌<◌, ◌^◌, append-nil}
use peerwatch.Base.Lists.{length, All}
use peerwatch.Base.Results.{Result, ok}
use peerwatch.Protocol.Message.{ManifestMsg, manifest, bitfield, peer_list}
use peerwatch.Protocol.Encode.{frame}
use peerwatch.Peer.Conversion.{manifest_to_proto, IsShort}
use peerwatch.Peer.Swarm.{peer_addrs}
use peerwatch.Peer.Handshake.{HandshakeError, hello, handle_incoming}
use peerwatch.Peer.Duties.{broadcast, send_all, close, close_all, has_host_connection, reconnect}

module _ {F : Type 0} where
  lookup-send_all :
      (m : Message) (id : ℕ) (ps : List (ℕ × Peer F))
      → lookup id (send_all m ps) ≡ Option.map (send m) (lookup id ps)
  unfolding send_all
  lookup-send_all m id [] = refl
  lookup-send_all m id ((x, p) ∷ ps) = elim (Bool-cases (x == id)) [
    | inl same ↦ rw same refl
    | inr other ↦ rw other (lookup-send_all m id ps)
  ]

  knows-put :
      (addr : Bytes) (id : ℕ) (p : Peer F) (ps : List (ℕ × Peer F))
      → knows addr (addrs_of ps) ≡ false
      → knows addr (addrs_of (put id p ps)) ≡ same_bytes p.addr addr
  unfolding knows addrs_of
  knows-put addr id p [] h = ground arith
  knows-put addr id p ((x, q) ∷ ps) h =
      let rest : knows addr (addrs_of ps) ≡ false = ground (arith, h) in
      elim (Bool-cases (x == id)) [
        | inl same ↦ rw same (ground (arith, rest))
        | inr other ↦ rw other (ground (arith, h, knows-put addr id p ps rest))
      ]

  module _ (floats : Floats F) where
    announce-addr :
        (store : Option Store) (bf : Bytes) (c : Conn) (id : PeerId)
        → (announce store (set_bitfield bf (peer_on floats c id))).addr ≡ c.remote
    unfolding announce set_bitfield send Connection.new_peer
    announce-addr none bf c id = refl
    announce-addr (some store) bf c id = refl

    has_host_connection-joined :
        (remote addr : Bytes) (b host : ℕ) (m : Manifest) (bf : Bytes) (own : Option Store)
        (s : Swarm F)
        → knows (b ∷ addr) (addrs_of s.peers) ≡ false
        → has_host_connection (joined floats remote (b ∷ addr) host m bf own s)
          ≡ same_bytes remote (b ∷ addr)
    unfolding has_host_connection add_peer
    has_host_connection-joined remote addr b host m bf own s h =
        let p = announce own (set_bitfield bf (peer_on floats (conn_with remote []) host)) in
        knows-put (b ∷ addr) p.id p s.peers h
        ∙ ap (λ a. same_bytes a (b ∷ addr)) (announce-addr own bf (conn_with remote []) host)

    -- A connection to a host that runs handleIncoming, which reads the joiner's handshake.
    abbrev pub host_conn : Bytes → Bytes → Swarm F → Manifest → Store → PeerId → Conn
    host_conn host_at joiner_at host m store id =
        conn_with host_at
          (handle_incoming floats (some store) (
            conn_with joiner_at (frame (hello id)),
            record host { is_host = true; manifest = some m },
          )).0.0.outgoing

    -- A joiner calls ConnectToHost on such a connection.
    abbrev pub joining :
        Bytes
        → Bytes
        → Bytes
        → Swarm F
        → Manifest
        → Store
        → Option Store
        → Swarm F
        → (Conn × Swarm F) × Result HandshakeError (Manifest × List Bytes)
    joining host_at joiner_at addr host m store own s =
        connect_to_host floats addr own
          (host_conn host_at joiner_at host m store s.self_id, record s { is_host = false })

    -- The parts of a handshake are within their limits.
    pub record Handshakes (host : Swarm F) (joiner : PeerId) (m : Manifest) (msg : ManifestMsg)
        (store : Store) : Type 0 where
      pub sent : manifest_to_proto {E = HandshakeError} m ≡ ok msg
      pub counts : length m.chunks ≡ m.chunk_count
      pub fits : m.chunk_count < 2 ^ 32
      pub short : All IsShort m.chunks
      pub joiner_hello : Travels (hello joiner)
      pub host_hello : Travels (hello host.self_id)
      pub manifest_travels : Travels (manifest msg)
      pub bitfield_travels : Travels (bitfield store.bitfield)
      pub list_travels : Travels (peer_list (peer_addrs host))

    joining-joined :
        (host_at joiner_at addr : Bytes) (host s : Swarm F) (m : Manifest) (msg : ManifestMsg)
        (store : Store) (own : Option Store)
        → Handshakes host s.self_id m msg store
        → joining host_at joiner_at addr host m store own s ≡ (
          (
            record (conn_with host_at []) { outgoing = frame (hello s.self_id) },
            joined floats host_at addr host.self_id m store.bitfield own s,
          ),
          ok (m, peer_addrs host),
        )
    joining-joined host_at joiner_at addr host s m msg store own h =
        let (talk, t, greets, connects, tracked, agree) =
          connect_to_host-handle_incoming floats host_at joiner_at addr [] host s m msg store own
            h.sent h.counts h.fits h.short h.joiner_hello h.host_hello h.manifest_travels
            h.bitfield_travels h.list_travels in
        rw (ap (λ o. o.0.0) greets) (rw (append-nil talk.outgoing) at connects)

    knows-joined :
        (remote addr : Bytes) (host : ℕ) (m : Manifest) (bf : Bytes) (own : Option Store)
        (s : Swarm F)
        → knows addr (addrs_of s.peers) ≡ false
        → knows addr (addrs_of (joined floats remote addr host m bf own s).peers)
          ≡ same_bytes remote addr
    unfolding add_peer
    knows-joined remote addr host m bf own s h =
        let p = announce own (set_bitfield bf (peer_on floats (conn_with remote []) host)) in
        knows-put addr p.id p s.peers h
        ∙ ap (λ a. same_bytes a addr) (announce-addr own bf (conn_with remote []) host)

    -- A joiner that knows no peer at an address, which is not empty, joins the host there by ConnectToHost, the
    -- host runs handleIncoming, and their messages are within their limits. Then comes the tick of the
    -- loop that connects again, with the host ready to answer once more: it does nothing just if the
    -- remote address of the first connection is spelled as the address that was dialled; else it joins
    -- the host a second time, with success. Afterwards HasHostConnection says no, so that the next tick
    -- dials again, unless one of the two remote addresses is spelled as the one dialled.
    pub reconnect-connect_to_host :
        (host_at joiner_at host_at' joiner_at' addr : Bytes) (b : ℕ) (host host' s : Swarm F)
        (m : Manifest) (msg : ManifestMsg) (store : Store) (own own' : Option Store)
        → Handshakes host s.self_id m msg store
        → Handshakes host' s.self_id m msg store
        → knows (b ∷ addr) (addrs_of s.peers) ≡ false
        → ((reconnect floats (b ∷ addr) own' (
          host_conn host_at' joiner_at' host' m store s.self_id,
          (joining host_at joiner_at (b ∷ addr) host m store own s).0.1,
        )).1
            ≡ (if same_bytes host_at (b ∷ addr) then none else some (ok (m, peer_addrs host'))))
          × (has_host_connection
                (reconnect floats (b ∷ addr) own' (
                  host_conn host_at' joiner_at' host' m store s.self_id,
                  (joining host_at joiner_at (b ∷ addr) host m store own s).0.1,
                )).0.1
              ≡ (same_bytes host_at (b ∷ addr) || same_bytes host_at' (b ∷ addr)))
    unfolding reconnect add_peer
    reconnect-connect_to_host host_at joiner_at host_at' joiner_at' addr b host host' s m msg store
          own own' h h' new =
        let w = joined floats host_at (b ∷ addr) host.self_id m store.bitfield own s in
        let first = joining-joined host_at joiner_at (b ∷ addr) host s m msg store own h in
        let known =
          has_host_connection-joined host_at addr b host.self_id m store.bitfield own s new in
        let second = joining-joined host_at' joiner_at' (b ∷ addr) host' w m msg store own' h' in
        elim (Bool-cases (same_bytes host_at (b ∷ addr))) [
          | inl same ↦ rw (first, known, same) (refl, known ∙ same)
          | inr other ↦
              let again =
                has_host_connection-joined host_at' addr b host'.self_id m store.bitfield own' w (
                  knows-joined host_at (b ∷ addr) host.self_id m store.bitfield own s new
                  ∙ other) in
              rw (first, known, other, second) (refl, again)
        ]

module _ {F : Type 0} where
  close_all-closed :
      (id : ℕ) (ps : List (ℕ × Peer F)) (p : Peer F)
      → lookup id (close_all ps) ≡ some p
      → p.closed ≡ true
  unfolding close_all Connection.close
  close_all-closed id [] p h = cc
  close_all-closed id ((x, q) ∷ ps) p h = elim (Bool-cases (x == id)) [
    | inl same ↦ ground (arith, h, same)
    | inr other ↦ close_all-closed id ps p (ground (arith, h, other))
  ]

  send_all-close_all :
      (m : Message) (ps : List (ℕ × Peer F)) → send_all m (close_all ps) ≡ close_all ps
  unfolding send_all close_all send Connection.close
  send_all-close_all m [] = refl
  send_all-close_all m ((x, p) ∷ ps) = rw (send_all-close_all m ps)

  -- Close on a swarm that was not closed: every peer of the table is closed, a broadcast afterwards
  -- reaches nobody, and a second Close changes nothing.
  pub broadcast-close :
      (m : Message) (s : Swarm F)
      → ((id : ℕ) (p : Peer F)
          → get_peer (close (record s { done = false })) id ≡ some p
          → p.closed ≡ true)
        × (broadcast m (close (record s { done = false })) ≡ close (record s { done = false }))
        × (close (close (record s { done = false })) ≡ close (record s { done = false }))
  unfolding broadcast close get_peer
  broadcast-close m s = (
    λ id p h. close_all-closed id s.peers p h,
    ap (λ ps. record s { done = true; peers = ps }) (send_all-close_all m s.peers),
    refl,
  )

  -- Broadcast puts the message into the queue of each open peer of the table, and changes nothing else
  -- of it.
  pub get_peer-broadcast :
      (m : Message) (id : ℕ) (s : Swarm F)
      → get_peer (broadcast m s) id ≡ Option.map (send m) (get_peer s id)
  unfolding get_peer broadcast
  get_peer-broadcast m id s = lookup-send_all m id s.peers
