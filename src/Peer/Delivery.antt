-- ===== src/Peer/Delivery.antt =====
-- internal/peer/peer.go: what one peer's writeLoop sends, the other's readLoop handles.
use peerwatch.Base.{
  ℕ, zero, suc, ◌+◌, ◌-◌, ◌≤◌, ◌<◌, ◌≡◌, ◌≢◌, refl, sym, ap, ◌∙◌, inl, inr, Bool, false, Option,
  none, some, List, [], ◌∷◌, ◌++◌, append-nil, append_assoc, arith,
}
use peerwatch.Base.Tests.{leb, le→leb, lt→leb_false, if◌then◌else◌}
use peerwatch.Base.Lists.{
  length, take, All, length-append, take-append_past, take_nil, take-append_within,
  take-append_more, take_long, take-append_self,
}
use peerwatch.Base.Results.{Result, ok, err, panic}
use native.Mathlib.Decide.{dec_le}
use peerwatch.Protocol.Message.{Bytes, Message}
use peerwatch.Protocol.Wire.{eof, read_full}
use peerwatch.Protocol.Encode.{frame}
use peerwatch.Protocol.Decode.{
  DecodeError, read_message, read_uint, read_bytes, length_read, body_read,
}
use peerwatch.Protocol.Framing.{read-frame}
use peerwatch.Protocol.Truncation.{read-take-frame}
use peerwatch.Protocol.Progress.{Consumes, read_message-Consumes}
use peerwatch.Peer.Joining.{Travels}
use peerwatch.Peer.Loops.{LoopEnd, ended, crashed, out_of_fuel, read_loop, write_loop}

-- The frames of the messages, one after the other.
unfoldable pub frames : List Message → Bytes
frames [] = []
frames (m ∷ ms) = frame m ++ frames ms

module _ {S : Type 0} (handler : S → Message → S) (close : S → S) where
  -- The handler, called with each message in turn.
  unfoldable pub handled : S → List Message → S
  handled s [] = s
  handled s (m ∷ ms) = handled (handler s m) ms

  -- One round, on what ReadMessage gives.
  round-ends :
      (fuel : ℕ) (stream : Bytes) (s : S) (x : Result DecodeError (Message × Bytes))
      → Consumes 4 stream x
      → length stream < suc fuel
      → ((rest : Bytes) (s' : S)
          → length rest < fuel
          → read_loop handler close fuel rest s' ≢ out_of_fuel)
      → ◌≢◌ {A = LoopEnd S}
          (elim x [
            | ok (m, rest) ↦ read_loop handler close fuel rest (handler s m)
            | err e ↦ ended (close s) e
            | panic ↦ crashed
          ])
          out_of_fuel
  round-ends fuel stream s (ok (m, rest)) c h ih = ih rest (handler s m) (omega arith)
  round-ends fuel stream s (err e) c h ih = λ q. cc
  round-ends fuel stream s panic c h ih = λ q. cc

  -- readLoop ends on every stream: as many rounds as the stream has bytes, and one more, are enough.
  pub read_loop-out_of_fuel :
      (fuel : ℕ) (stream : Bytes) (s : S)
      → length stream < fuel
      → read_loop handler close fuel stream s ≢ out_of_fuel
  unfolding read_loop
  read_loop-out_of_fuel zero stream s h = elim h [ ]
  read_loop-out_of_fuel (suc fuel) stream s h =
      round-ends fuel stream s (read_message stream) (read_message-Consumes stream) h
        (read_loop-out_of_fuel fuel)

-- How many whole frames the first `k` bytes hold.
unfoldable pub whole : ℕ → List Message → ℕ
whole k [] = 0
whole k (m ∷ ms) =
    let more = whole (k - length (frame m)) ms in if leb (length (frame m)) k then suc more else 0

whole-length : (k : ℕ) (ms : List Message) → length (frames ms) ≤ k → whole k ms ≡ length ms
unfolding whole frames
whole-length k [] h = refl
whole-length k (m ∷ ms) h =
    let n = length-append (frame m) (frames ms) in
    ground (arith, n, whole-length (k - length (frame m)) ms (omega (arith, n)))

module _ {S : Type 0} (handler : S → Message → S) (close : S → S) where
  read_loop-message :
      (fuel : ℕ) (stream rest : Bytes) (s : S) (m : Message)
      → read_message stream ≡ ok (m, rest)
      → read_loop handler close (suc fuel) stream s
        ≡ read_loop handler close fuel rest (handler s m)
  unfolding read_loop
  read_loop-message fuel stream rest s m e = rw (e, read_loop) refl

  read_loop-error :
      (fuel : ℕ) (stream : Bytes) (s : S) (e : DecodeError)
      → read_message stream ≡ err e
      → read_loop handler close (suc fuel) stream s ≡ ended (close s) e
  unfolding read_loop
  read_loop-error fuel stream s e q = rw (q, read_loop) refl

  -- The error behind the last whole frame.
  read_loop-cut :
      (fuel k : ℕ) (m : Message) (rest : Bytes) (s : S)
      → Travels m
      → k < length (frame m)
      → (e : DecodeError) × (read_loop handler close (suc fuel) (take k (frame m ++ rest)) s
          ≡ ended (close s) e)
  read_loop-cut fuel k m rest s (fits, short) cut =
      let (e, found) = read-take-frame m k short cut in
      rw (take-append_within (frame m) rest k (omega arith)) (elim found [
        | inl (early, q) ↦ (length_read e, read_loop-error fuel _ s (length_read e) q)
        | inr (late, q) ↦ (body_read e, read_loop-error fuel _ s (body_read e) q)
      ])

  -- What arrives is the first `k` bytes of the frames of legal messages: the handler is called with
  -- each message whose frame arrives whole, in order, and the loop ends with an error behind the last.
  pub read_loop-frames :
      (fuel k : ℕ) (ms : List Message) (s : S)
      → All Travels ms
      → length ms < fuel
      → (e : DecodeError) × (read_loop handler close fuel (take k (frames ms)) s
          ≡ ended (close (handled handler close s (take (whole k ms) ms))) e)
  unfolding whole frames handled read_message read_uint read_bytes read_full
  read_loop-frames zero k ms s fit h = elim h [ ]
  read_loop-frames (suc fuel) k [] s fit h =
      let stream : ◌≡◌ {A = Bytes} (take k []) [] = take_nil k in
      rw stream (length_read eof, read_loop-error fuel [] s (length_read eof) refl)
  read_loop-frames (suc fuel) k (m ∷ ms) s (fits, all_fit) h = elim (dec_le (length (frame m)) k) [
    | yes within ↦
        let later =
          read_loop-frames fuel (k - length (frame m)) ms (handler s m) all_fit (omega arith) in
        let round =
          read_loop-message fuel (frame m ++ take (k - length (frame m)) (frames ms))
            (take (k - length (frame m)) (frames ms)) s m (read-frame m _ fits.0 fits.1) in
        (
          later.0,
          rw (take-append_past (frame m) (frames ms) k within, le→leb (length (frame m)) k within)
              (round ∙ later.1),
        )
    | no beyond ↦
        let cut : k < length (frame m) = omega arith in
        rw (lt→leb_false (length (frame m)) k cut) (read_loop-cut fuel k m (frames ms) s fits cut)
  ]

-- What a run over the rest of the queue writes, behind the frame of the first message.
Written : List Message → Bytes → Bytes × Bool → Type 0
Written queue out (sent, closed) =
    (k : ℕ) × (sent ≡ out ++ take k (frames queue)) × (closed ≡ false → length (frames queue) ≤ k)

Written-frame :
    (m : Message) (queue : List Message) (out : Bytes) (r : Bytes × Bool)
    → Written queue (out ++ frame m) r
    → Written (m ∷ queue) out r
unfolding Written frames
Written-frame m queue out (sent, closed) (k, is, all_out) = (
  length (frame m) + k,
  is
      ∙ append_assoc (out) (frame m) (take k (frames queue))
      ∙ ap (◌++◌ out) (sym (take-append_more (frame m) (frames queue) k)),
  λ q. omega (arith, all_out q, length-append (frame m) (frames queue)),
)

-- A frame that is cut, whether or not the write got through it.
take-frame_prefix :
    (m : Message) (rest : Bytes) (k : ℕ) → (n : ℕ) × (take k (frame m) ≡ take n (frame m ++ rest))
take-frame_prefix m rest k = elim (dec_le k (length (frame m))) [
  | yes within ↦ (k, sym (take-append_within (frame m) rest k within))
  | no beyond ↦ (
    length (frame m),
    take_long (frame m) k (omega arith)
        ∙ sym (take-append_self (frame m) rest (length (frame m)) refl),
  )
]

write_loop-frames :
    (queue : List Message) (writes : List (Option ℕ)) (out : Bytes)
    → Written queue out (write_loop queue writes out)
unfolding write_loop frames Written
write_loop-frames [] writes out = (0, sym (append-nil out), λ q. omega arith)
write_loop-frames (m ∷ queue) [] out =
    Written-frame m queue out _ (write_loop-frames queue [] (out ++ frame m))
write_loop-frames (m ∷ queue) (none ∷ writes) out =
    Written-frame m queue out _ (write_loop-frames queue writes (out ++ frame m))
write_loop-frames (m ∷ queue) (some k ∷ writes) out =
    let (n, is) = take-frame_prefix m (frames queue) k in (n, ap (◌++◌ out) is, λ q. cc)

-- One side's writeLoop sends the queue, whatever its writes do, to the other side's readLoop: the
-- messages are legal, and there is fuel for each and for the end. The handler is called with the first
-- messages of the queue, in order, each once, and then the loop ends with an error and closes the peer;
-- with all messages of the queue if no write failed.
pub read_loop-write_loop :
    {S : Type 0} (handler : S → Message → S) (close : S → S) (queue : List Message)
    (writes : List (Option ℕ)) (fuel : ℕ) (s : S)
    → All Travels queue
    → length queue < fuel
    → (n : ℕ) × (e : DecodeError) × (read_loop handler close fuel (write_loop queue writes []).0 s
        ≡ ended (close (handled handler close s (take n queue))) e)
      × ((write_loop queue writes []).1 ≡ false → n ≡ length queue)
unfolding Written
read_loop-write_loop handler close queue writes fuel s fit h =
    let (k, is, all_out) = write_loop-frames queue writes [] in
    let (e, reads) = read_loop-frames handler close fuel k queue s fit h in
    (
      whole k queue,
      e,
      ap (λ stream. read_loop handler close fuel stream s) is ∙ reads,
      λ q. whole-length k queue (all_out q),
    )
