-- ===== src/Peer/Refusal.antt =====
-- internal/peer/swarm.go: Connect, ConnectToHost and handleIncoming when they return an error.
use peerwatch.Base.{
  ℕ, ◌+◌, ◌≡◌, refl, inl, inr, ◌∙◌, true, false, Option, none, some, List, [], ◌∷◌, ◌++◌,
}
use peerwatch.Base.Tests.{ltb, if◌then◌else◌, Bool-cases}
use peerwatch.Base.Lists.{take, length, set}
use peerwatch.Base.Results
use peerwatch.Base.Results.{Result, ok, err, panic}
use peerwatch.Base.Floats.{Floats}
use peerwatch.Protocol.Message.{
  Bytes, PeerId, Message, handshake, manifest, bitfield, peer_list, ManifestMsg,
}
use peerwatch.Protocol.Encode.{frame}
use peerwatch.Protocol.Decode.{DecodeError, read_message}
use peerwatch.Chunk.Manifest.{Manifest}
use peerwatch.Chunk.Store.Defs.{Store}
use peerwatch.Peer.Connection.{Peer}
use peerwatch.Peer.Conversion.{fill, to_info, to_meta, manifest_to_proto, proto_to_manifest}
use peerwatch.Peer.Swarm.{Swarm}
use peerwatch.Peer.Handshake.{
  Conn, HandshakeError, Step, pure, ◌>>=◌, and_then, write_msg, read_msg, modify, lift, greet,
  greeting, expect_handshake, expect_manifest, expect_peer_list, connect, take_bitfield, join_host,
  connect_to_host, host_greeting, peer_greeting, handle_incoming,
}

-- A result that is no error.
abbrev IsSound : {E A : Type 0} → Result E A → Type 0
IsSound (err e) = ⊥
IsSound _ = Unit

fill-IsSound :
    {A B : Type 0} (E : Type 0) (f : A → B) (i : ℕ) (cs : List A) (out : List B)
    → IsSound (fill {E = E} f i cs out)
unfolding fill
fill-IsSound E f i [] out = tt
fill-IsSound E f i (c ∷ cs) out = elim (Bool-cases (ltb i (length out))) [
  | inl inside ↦ rw inside (fill-IsSound E f (i + 1) cs (set out i (f c)))
  | inr outside ↦ rw outside tt
]

then-IsSound :
    {E A B : Type 0} (r : Result E A) (f : A → B)
    → IsSound r
    → IsSound (Results.◌>>=◌ r (λ a. ok (f a)))
then-IsSound (ok a) f h = tt
then-IsSound (err e) f h = elim h [ ]
then-IsSound panic f h = tt

manifest_to_proto-IsSound : (m : Manifest) → IsSound (manifest_to_proto {E = HandshakeError} m)
unfolding manifest_to_proto
manifest_to_proto-IsSound m = then-IsSound _ _ (fill-IsSound HandshakeError to_info 0 m.chunks _)

proto_to_manifest-IsSound : (m : ManifestMsg) → IsSound (proto_to_manifest {E = HandshakeError} m)
unfolding proto_to_manifest
proto_to_manifest-IsSound m = then-IsSound _ _ (fill-IsSound HandshakeError to_meta 0 m.chunks _)

module _ {F B : Type 0} (view : Swarm F → B) where
  -- What the view shows of the swarm is as it was, and an error has closed the connection.
  unfoldable pub Kept :
      {A : Type 0} → Conn × Swarm F → (Conn × Swarm F) × Result HandshakeError A → Type 0
  Kept s (t, ok a) = view t.1 ≡ view s.1
  Kept s (t, err e) = (t.0.closed ≡ true) × (view t.1 ≡ view s.1)
  Kept s (t, panic) = Unit

  -- The same of an error alone.
  unfoldable pub Refused :
      {A : Type 0} → Conn × Swarm F → (Conn × Swarm F) × Result HandshakeError A → Type 0
  Refused s (t, ok a) = Unit
  Refused s (t, err e) = (t.0.closed ≡ true) × (view t.1 ≡ view s.1)
  Refused s (t, panic) = Unit

  bind-Kept :
      {A C : Type 0} (m : Step F A) (f : A → Step F C) (s : Conn × Swarm F)
      → Kept s (m s)
      → ((a : A) (t : Conn × Swarm F) → Kept t (f a t))
      → Kept s ((m >>= f) s)
  unfolding Kept ◌>>=◌
  bind-Kept {A} {C} m f s k h = go (m s) k
    where
      on :
          (t : Conn × Swarm F) (r : (Conn × Swarm F) × Result HandshakeError C)
          → view t.1 ≡ view s.1
          → Kept t r
          → Kept s r
      on t (u, ok c) q k' = k' ∙ q
      on t (u, err e) q (shut, same) = (shut, same ∙ q)
      on t (u, panic) q k' = tt

      go : (r : (Conn × Swarm F) × Result HandshakeError A) → Kept s r → Kept s (and_then f r)
      go (t, ok a) q = on t (f a t) q (h a t)
      go (t, err e) q = q
      go (t, panic) q = tt

  bind-Refused :
      {A C : Type 0} (m : Step F A) (f : A → Step F C) (s : Conn × Swarm F)
      → Kept s (m s)
      → ((a : A) (t : Conn × Swarm F) → Refused t (f a t))
      → Refused s ((m >>= f) s)
  unfolding Kept Refused ◌>>=◌
  bind-Refused {A} {C} m f s k h = go (m s) k
    where
      on :
          (t : Conn × Swarm F) (r : (Conn × Swarm F) × Result HandshakeError C)
          → view t.1 ≡ view s.1
          → Refused t r
          → Refused s r
      on t (u, ok c) q k' = tt
      on t (u, err e) q (shut, same) = (shut, same ∙ q)
      on t (u, panic) q k' = tt

      go : (r : (Conn × Swarm F) × Result HandshakeError A) → Kept s r → Refused s (and_then f r)
      go (t, ok a) q = on t (f a t) q (h a t)
      go (t, err e) q = q
      go (t, panic) q = tt

  write_msg-Kept :
      (e : HandshakeError) (m : Message) (s : Conn × Swarm F) → Kept s (write_msg e m s)
  unfolding Kept pure write_msg
  write_msg-Kept e m (c, s) =
      elim c.writes
        as (λ w.
          Kept {A = Unit {0}} (c, s)
            (elim w [
              | [] ↦ ((record c { outgoing = c.outgoing ++ frame m }, s), ok tt)
              | none ∷ more ↦
                  ((record c { outgoing = c.outgoing ++ frame m; writes = more }, s), ok tt)
              | some k ∷ more ↦ (
                (
                  record c {
                    outgoing = c.outgoing ++ take k (frame m);
                    writes = more;
                    closed = true;
                  },
                  s,
                ),
                err e,
              )
            ])) [ [] ↦ refl | none ∷ more ↦ refl | some k ∷ more ↦ (refl, refl) ]

  panic-Kept : (A : Type 0) (s : Conn × Swarm F) → Kept {A = A} s (s, panic)
  unfolding Kept
  panic-Kept A s = tt

  read_msg-Kept : (e : DecodeError → HandshakeError) (s : Conn × Swarm F) → Kept s (read_msg e s)
  unfolding Kept pure read_msg
  read_msg-Kept e (c, s) =
      elim (read_message c.incoming)
        as (λ x.
          Kept {A = Message} (c, s)
            (elim x [
              | ok (m, rest) ↦ ((record c { incoming = rest }, s), ok m)
              | err f ↦ ((record c { closed = true }, s), err (e f))
              | panic ↦ ((c, s), panic)
            ])) [ ok (m, rest) ↦ refl | err f ↦ (refl, refl) | panic ↦ tt ]

  expect_handshake-Kept : (m : Message) (s : Conn × Swarm F) → Kept s (expect_handshake m s)
  unfolding Kept pure expect_handshake
  expect_handshake-Kept (handshake hs) s = refl
  expect_handshake-Kept m s = (refl, refl)

  expect_manifest-Kept : (m : Message) (s : Conn × Swarm F) → Kept s (expect_manifest m s)
  unfolding Kept pure expect_manifest
  expect_manifest-Kept (manifest msg) s = refl
  expect_manifest-Kept m s = (refl, refl)

  expect_peer_list-Kept : (m : Message) (s : Conn × Swarm F) → Kept s (expect_peer_list m s)
  unfolding Kept pure expect_peer_list
  expect_peer_list-Kept (peer_list addrs) s = refl
  expect_peer_list-Kept m s = (refl, refl)

  pure-Kept : {A : Type 0} (a : A) (s : Conn × Swarm F) → Kept s (pure a s)
  unfolding Kept pure
  pure-Kept a s = refl

  modify-Kept :
      (f : Swarm F → Swarm F) (s : Conn × Swarm F) → view (f s.1) ≡ view s.1 → Kept s (modify f s)
  unfolding Kept modify
  modify-Kept f s h = h

  lift-Kept :
      {A : Type 0} (r : Result HandshakeError A) (s : Conn × Swarm F)
      → IsSound r
      → Kept s (lift r s)
  unfolding Kept lift
  lift-Kept (ok a) s h = refl
  lift-Kept (err e) s h = elim h [ ]
  lift-Kept panic s h = tt

  panic-Refused : (A : Type 0) (s : Conn × Swarm F) → Refused {A = A} s (s, panic)
  unfolding Refused
  panic-Refused A s = tt

  pure-Refused : {A : Type 0} (a : A) (s : Conn × Swarm F) → Refused s (pure a s)
  unfolding Refused pure
  pure-Refused a s = tt

  -- The table of peers is written last.
  modify-pure-Refused :
      {A : Type 0} (f : Swarm F → Swarm F) (a : A) (s : Conn × Swarm F)
      → Refused s ((modify f >>= λ _. pure a) s)
  unfolding Refused modify pure ◌>>=◌
  modify-pure-Refused f a s = tt

  ruleset kept_rules = (
    bind-Kept, write_msg-Kept, read_msg-Kept, expect_handshake-Kept, pure-Kept,
    expect_manifest-Kept, expect_peer_list-Kept, modify-Kept, lift-Kept, refl,
  )

  greet-Kept : (s : Conn × Swarm F) → Kept s (greet s)
  unfolding greet
  greet-Kept s = search kept_rules

  host_greeting-Kept :
      (m : Option Manifest) (store : Option Store) (s : Conn × Swarm F)
      → Kept s (host_greeting m store s)
  unfolding host_greeting
  host_greeting-Kept (some m) (some store) s = search (kept_rules, manifest_to_proto-IsSound m)
  host_greeting-Kept m none s = panic-Kept Unit s
  host_greeting-Kept none (some store) s = panic-Kept Unit s

  peer_greeting-Kept : (store : Option Store) (s : Conn × Swarm F) → Kept s (peer_greeting store s)
  unfolding peer_greeting
  peer_greeting-Kept none s = search kept_rules
  peer_greeting-Kept (some store) s = search kept_rules

  greeting-Kept : (store : Option Store) (s : Conn × Swarm F) → Kept s (greeting store s)
  unfolding greeting
  greeting-Kept store s =
      elim s.1.is_host
        as (λ b. Kept s (if b then host_greeting s.1.manifest store s else peer_greeting store s)) [
          | true ↦ host_greeting-Kept s.1.manifest store s
          | false ↦ peer_greeting-Kept store s
        ]

  ruleset refused_rules =
      (kept_rules, bind-Refused, modify-pure-Refused, pure-Refused, greet-Kept, greeting-Kept)

  module _ (floats : Floats F) where
    connect-Refused :
        (store : Option Store) (s : Conn × Swarm F) → Refused s (connect floats store s)
    unfolding connect
    connect-Refused store s = search refused_rules

    handle_incoming-Refused :
        (store : Option Store) (s : Conn × Swarm F) → Refused s (handle_incoming floats store s)
    unfolding handle_incoming
    handle_incoming-Refused store s = search refused_rules

abbrev pub table : {F : Type 0} → Swarm F → List (PeerId × Peer F)
table s = s.peers

module _ {F : Type 0} (floats : Floats F) where
  take_bitfield-Kept :
      (m : Message) (p : Peer F) (s : Conn × Swarm F) → Kept table s (take_bitfield floats m p s)
  unfolding take_bitfield
  take_bitfield-Kept (bitfield bf) p s = search kept_rules
  take_bitfield-Kept m p s = search kept_rules

  join_host-Refused :
      (addr : Bytes) (store : Option Store) (s : Conn × Swarm F)
      → Refused table s (join_host floats addr store s)
  unfolding join_host
  join_host-Refused addr store s =
      search (refused_rules, take_bitfield-Kept, proto_to_manifest-IsSound) depth 14

  -- Each of the three calls that set up a connection, if it gives an error, has closed the connection.
  -- Connect and handleIncoming then leave the swarm as it was; ConnectToHost leaves the table of peers
  -- as it was.
  pub connect-handle_incoming-Refused :
      (addr : Bytes) (store : Option Store) (s : Conn × Swarm F)
      → Refused (λ w. w) s (connect floats store s)
        × Refused (λ w. w) s (handle_incoming floats store s)
        × Refused table s (connect_to_host floats addr store s)
  unfolding connect_to_host
  connect-handle_incoming-Refused addr store s = (
    connect-Refused (λ w. w) floats store s,
    handle_incoming-Refused (λ w. w) floats store s,
    elim s.1.is_host
        as (λ b. Refused table s (if b then (s, panic) else join_host floats addr store s)) [
          | true ↦ panic-Refused table (Manifest × List Bytes) s
          | false ↦ join_host-Refused addr store s
        ],
  )
