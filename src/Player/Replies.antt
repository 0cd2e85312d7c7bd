-- ===== src/Player/Replies.antt =====
-- internal/player/mpv.go: which reply a call gets.
use peerwatch.Base.{
  ℕ, ◌+◌, ◌^◌, ◌≤◌, ◌<◌, ◌≡◌, refl, ◌∙◌, inl, inr, Bool, true, false, Option, none, some, List, [],
  ◌∷◌, arith,
}
use mathlib.Core.Option
use peerwatch.Base.Tests.{◌==◌, if◌then◌else◌, Bool-cases}
use peerwatch.Base.Lists.{length, All}
use peerwatch.Base.Entries.{lookup, put, remove, lookup-put, lookup-remove}
use peerwatch.Base.Results.{Result, ok}
use peerwatch.Protocol.Message.{Bytes}
use peerwatch.Player.Mpv.{
  Reply, CallError, close, new_player, Mpv, next_id, register, sent_whole, no_json, no_write,
  send_request, read_line, await, interpret,
}
use peerwatch.Player.Events.{
  Event, line, begins, writes, ends, closes, ended, happen, happen_all, first_reply, IsOther,
  IsSound, new_player-IsSound, happen-IsSound, happen-req_id,
}

-- The entry of a call in the map, until its reply has come.
abbrev unless : ℕ → Option Reply → Option ℕ
unless id none = some id
unless id (some r) = none

-- What a call has got after one more line.
abbrev after : ℕ → Option Reply → Option Reply → Option Reply
after id none o = o
after id (some r) (some q) = some q
after id (some r) none = if r.id == id then some r else none

module _ {F : Type 0} where
  -- A call that waits, or whose reply has come.
  record Awaited (id : ℕ) (o : Option Reply) (p : Mpv F) : Type 0 where
    listed : lookup id p.pending ≡ unless id o
    arrived : lookup id p.inbox ≡ o
    low : id ≤ p.req_id
    counted : 0 < id

  read_line-Awaited :
      (id : ℕ) (r : Reply) (o : Option Reply) (p : Mpv F)
      → IsSound p
      → Awaited id o p
      → Awaited id (after id (some r) o) (read_line (some r) p)
  unfolding read_line
  read_line-Awaited id r o p s w = elim (Bool-cases (r.id == 0)) [
    | inl event ↦ rw (event, other o (ground (arith, event, w.counted))) w
    | inr reply ↦ rw reply (go (lookup r.id p.pending) refl)
  ]
    where
      other : (q : Option Reply) → (r.id == id) ≡ false → after id (some r) q ≡ q
      other none h = rw h refl
      other (some q) h = refl

      missed :
          (q : Option Reply)
          → lookup id p.pending ≡ unless id q
          → lookup r.id p.pending ≡ none
          → after id (some r) q ≡ q
      missed none h e = ground (arith, h, e)
      missed (some q) h e = refl

      taken :
          (channel : ℕ)
          → lookup r.id p.pending ≡ some channel
          → (q : Option Reply) → lookup id p.pending ≡ unless id q
          → lookup id p.inbox ≡ q
          → Awaited id
              (after id (some r) q)
              (record p { pending = remove r.id p.pending; inbox = put channel r p.inbox })
      taken channel e none h k = record {
        listed = ground (arith, h, e, s.own r.id channel e, lookup-remove r.id id p.pending);
        arrived = ground (arith, k, s.own r.id channel e, lookup-put channel id r p.inbox);
        low = w.low;
        counted = w.counted;
      }
      taken channel e (some q) h k = record {
        listed = ground (arith, h, e, s.own r.id channel e, lookup-remove r.id id p.pending);
        arrived = ground (arith, h, e, k, s.own r.id channel e, lookup-put channel id r p.inbox);
        low = w.low;
        counted = w.counted;
      }

      go :
          (l : Option ℕ)
          → lookup r.id p.pending ≡ l
          → Awaited id (after id (some r) o) (elim l as (λ _. Mpv F) [
            | none ↦ p
            | some channel ↦ record p {
              pending = remove r.id p.pending;
              inbox = put channel r p.inbox;
            }
          ])
      go none e = rw (missed o w.listed e) w
      go (some channel) e = taken channel e o w.listed w.arrived

  -- The reply that an event brings.
  abbrev brought : Event F → Option Reply
  brought (line l) = l
  brought e = none

  kept-Awaited :
      (id : ℕ) (o : Option Reply) (p p' : Mpv F)
      → Awaited id o p
      → lookup id p'.pending ≡ lookup id p.pending
      → lookup id p'.inbox ≡ lookup id p.inbox
      → p.req_id ≤ p'.req_id
      → Awaited id o p'
  kept-Awaited id o p p' w same still le = record {
    listed = same ∙ w.listed;
    arrived = still ∙ w.arrived;
    low = omega (arith, w.low);
    counted = w.counted;
  }

  happen-Awaited :
      (id : ℕ) (e : Event F) (o : Option Reply) (p : Mpv F)
      → IsSound p
      → p.req_id + 1 < 2 ^ 64
      → IsOther id e
      → Awaited id o p
      → Awaited id (after id (brought e) o) (happen e p)
  unfolding happen register send_request close read_line await
  happen-Awaited id (line none) o p s room other w = w
  happen-Awaited id (line (some r)) o p s room other w = read_line-Awaited id r o p s w
  happen-Awaited id begins o p s room other w =
      kept-Awaited id o p _ w
        (ground (arith, w.low, lookup-put (next_id p) id (next_id p) p.pending)) (ground arith)
        (happen-req_id begins p room).0
  happen-Awaited id (writes k c sent_whole) o p s room other w =
      kept-Awaited id o p _ w (ground arith) (ground arith)
        (happen-req_id (writes k c sent_whole) p room).0
  happen-Awaited id (writes k c no_json) o p s room other w = w
  happen-Awaited id (writes k c no_write) o p s room other w = w
  happen-Awaited id (ends k true) o p s room other w =
      kept-Awaited id o p _ w (ground (arith, other, lookup-remove k id p.pending)) refl
        (omega arith)
  happen-Awaited id (ends k false) o p s room other w = go (lookup k p.inbox)
    where
      go :
          (l : Option Reply)
          → Awaited id o (
              ended p (elim l as (λ _. Option (Mpv F × Result CallError Bytes)) [
                | some r ↦ some (record p { inbox = remove k p.inbox }, interpret r)
                | none ↦ none
              ]))
      go none = w
      go (some r) =
          kept-Awaited id o p _ w refl (ground (arith, other, lookup-remove k id p.inbox))
            (omega arith)
  happen-Awaited id (closes process) o p s room other w =
      kept-Awaited id o p _ w (ground arith) (ground arith)
        (happen-req_id (closes process) p room).0

  abbrev final : ℕ → Option Reply → List (Event F) → Option Reply
  final id o [] = o
  final id o (e ∷ es) = final id (after id (brought e) o) es

  final-some : (id : ℕ) (r : Reply) (es : List (Event F)) → final id (some r) es ≡ some r
  final-some id r [] = refl
  final-some id r (line none ∷ es) = final-some id r es
  final-some id r (line (some q) ∷ es) = final-some id r es
  final-some id r (begins ∷ es) = final-some id r es
  final-some id r (writes k c o ∷ es) = final-some id r es
  final-some id r (ends k late ∷ es) = final-some id r es
  final-some id r (closes process ∷ es) = final-some id r es

  final-first_reply : (id : ℕ) (es : List (Event F)) → final id none es ≡ first_reply id es
  unfolding first_reply
  final-first_reply id [] = refl
  final-first_reply id (line none ∷ es) = final-first_reply id es
  final-first_reply id (line (some r) ∷ es) = elim (Bool-cases (r.id == id)) [
    | inl same ↦ rw same (final-some id r es)
    | inr other ↦ rw other (final-first_reply id es)
  ]
  final-first_reply id (begins ∷ es) = final-first_reply id es
  final-first_reply id (writes k c o ∷ es) = final-first_reply id es
  final-first_reply id (ends k late ∷ es) = final-first_reply id es
  final-first_reply id (closes process ∷ es) = final-first_reply id es

  happen_all-IsSound :
      (es : List (Event F)) (p : Mpv F)
      → IsSound p
      → p.req_id + length es < 2 ^ 64
      → IsSound (happen_all es p) × ((happen_all es p).req_id ≤ p.req_id + length es)
  unfolding happen_all
  happen_all-IsSound [] p s room = (s, omega arith)
  happen_all-IsSound (e ∷ es) p s room =
      let step = happen-req_id e p (omega arith) in
      let (sound, le) =
        happen_all-IsSound es (happen e p) (happen-IsSound e p s (omega arith))
          (omega (arith, step)) in
      (sound, omega (arith, le, step))

  happen_all-Awaited :
      (id : ℕ) (es : List (Event F)) (o : Option Reply) (p : Mpv F)
      → IsSound p
      → p.req_id + length es < 2 ^ 64
      → All (IsOther id) es
      → Awaited id o p
      → Awaited id (final id o es) (happen_all es p)
  unfolding happen_all
  happen_all-Awaited id [] o p s room other w = w
  happen_all-Awaited id (e ∷ es) o p s room (other, others) w =
      happen_all-Awaited id es (after id (brought e) o) (happen e p)
        (happen-IsSound e p s (omega arith)) (omega (arith, happen-req_id e p (omega arith))) others
        (happen-Awaited id e o p s (omega arith) other w)

  register-Awaited :
      (id : ℕ) (p : Mpv F)
      → IsSound p
      → p.req_id + 1 < 2 ^ 64
      → (register p).1 ≡ ok id
      → Awaited id none (register p).0
  unfolding register
  register-Awaited id p s room h = elim (Bool-cases p.closed) [
    | inl shut ↦ absurd (ground (arith, h, shut))
    | inr going ↦
        let is : id ≡ next_id p = ground (arith, h, going) in
        rw going (record {
          listed = lookup-put (next_id p) id (next_id p) p.pending ∙ ground (arith, is);
          arrived = unused (lookup id p.inbox) refl is;
          low = omega (arith, is);
          counted = omega (arith, is);
        })
  ]
    where
      unused : (o : Option Reply) → lookup id p.inbox ≡ o → id ≡ next_id p → o ≡ none
      unused none e is = refl
      unused (some r) e is = absurd (omega (arith, s.kept id r e, is))

  register-IsSound :
      (p : Mpv F)
      → IsSound p
      → p.req_id + 1 < 2 ^ 64
      → IsSound (register p).0 × ((register p).0.req_id ≤ p.req_id + 1)
  unfolding happen
  register-IsSound p s room = (happen-IsSound begins p s room, (happen-req_id begins p room).1)

  await-arrived :
      (id : ℕ) (p : Mpv F) (o : Option Reply)
      → lookup id p.inbox ≡ o
      → Option.map (λ r. r.1) (await id false p) ≡ Option.map interpret o
  unfolding await
  await-arrived id p none h = rw (h, await) refl
  await-arrived id p (some r) h = rw (h, await) refl

  -- From a new player on, connected or not, after any events (lines of mpv, other calls that begin, write
  -- and end, Close), a call begins; then come any events but the end of that call. What its select finds
  -- if the time is not up is the first of these lines that replies to its request, read as a result, and
  -- nothing if none does. There are fewer than 2^64 events.
  pub await-first_reply :
      (connected : Bool) (earlier later : List (Event F)) (id : ℕ)
      → (register (happen_all earlier (record new_player { connected = connected }))).1 ≡ ok id
      → All (IsOther id) later
      → length earlier + 1 + length later < 2 ^ 64
      → Option.map
          (λ r. r.1)
          (await id false (
            happen_all later
              (register (happen_all earlier (record new_player { connected = connected }))).0))
        ≡ Option.map interpret (first_reply id later)
  await-first_reply connected earlier later id h others room =
      let (sound, low) =
        happen_all-IsSound earlier (record new_player { connected = connected })
          (new_player-IsSound connected) (omega arith) in
      let p = happen_all earlier (record new_player { connected = connected }) in
      let q = (register p).0 in
      let (going, next) = register-IsSound p sound (omega arith) in
      let waits = register-Awaited id p sound (omega arith) h in
      await-arrived id (happen_all later q) (first_reply id later) (
        (happen_all-Awaited id later none q going (omega (arith, next, low)) others waits).arrived
        ∙ final-first_reply id later)
