-- ===== src/Peer/Steady.antt =====
-- internal/peer/swarm.go: the beginning of a dialled connection leaves the swarm alone, however it ends.
use peerwatch.Base.{ℕ, ◌≡◌, refl, ◌∙◌, Option, none, some, List, [], ◌∷◌}
use peerwatch.Base.Results.{Result, ok, err, panic}
use peerwatch.Protocol.Message.{Bytes, Message, handshake}
use peerwatch.Protocol.Decode.{DecodeError, read_message}
use peerwatch.Peer.Swarm.{Swarm}
use peerwatch.Peer.Handshake.{
  Conn, HandshakeError, Step, ◌>>=◌, and_then, abort, hello, pure, write_msg, read_msg,
  send_handshake, read_handshake, greet, expect_handshake,
}

module _ {F : Type 0} where
  -- A step that leaves the swarm alone, however it ends.
  abbrev pub IsSteady : {A : Type 0} → Step F A → Type 0
  IsSteady m = (s : Conn × Swarm F) → (m s).0.1 ≡ s.1

  bind-IsSteady :
      {A B : Type 0} (m : Step F A) (f : A → Step F B)
      → IsSteady m
      → ((a : A) → IsSteady (f a))
      → IsSteady (m >>= f)
  unfolding ◌>>=◌
  bind-IsSteady {A} {B} m f h k s = go (m s) (h s)
    where
      go : (r : (Conn × Swarm F) × Result HandshakeError A) → r.0.1 ≡ s.1 → (and_then f r).0.1 ≡ s.1
      go (t, ok a) e = k a t ∙ e
      go (t, err x) e = e
      go (t, panic) e = e

  write_msg-IsSteady : (e : HandshakeError) (m : Message) → IsSteady (write_msg e m)
  unfolding write_msg abort
  write_msg-IsSteady e m (c, s) = go c.writes refl
    where
      go : (w : List (Option ℕ)) → c.writes ≡ w → (write_msg e m (c, s)).0.1 ≡ s
      go [] is = rw is refl
      go (none ∷ more) is = rw is refl
      go (some k ∷ more) is = rw is refl

  read_msg-IsSteady : (e : DecodeError → HandshakeError) → IsSteady (read_msg e)
  unfolding read_msg abort
  read_msg-IsSteady e (c, s) = go (read_message c.incoming) refl
    where
      go :
          (r : Result DecodeError (Message × Bytes))
          → read_message c.incoming ≡ r
          → (read_msg e (c, s)).0.1 ≡ s
      go (ok (m, rest)) is = rw (is, read_msg) refl
      go (err f) is = rw (is, read_msg) refl
      go panic is = rw (is, read_msg) refl

  expect_handshake-IsSteady : (m : Message) → IsSteady (expect_handshake m)
  unfolding expect_handshake abort pure
  expect_handshake-IsSteady (handshake hs) s = refl
  expect_handshake-IsSteady m s = refl

  pub greet-IsSteady : IsSteady greet
  unfolding greet
  greet-IsSteady s =
      bind-IsSteady (write_msg send_handshake (hello s.1.self_id))
        (λ _. read_msg read_handshake >>= expect_handshake)
        (write_msg-IsSteady send_handshake (hello s.1.self_id))
        (λ _.
          bind-IsSteady (read_msg read_handshake) expect_handshake
            (read_msg-IsSteady read_handshake) expect_handshake-IsSteady)
        s
