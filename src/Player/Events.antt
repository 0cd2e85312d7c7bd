-- ===== src/Player/Events.antt =====
-- internal/player/mpv.go: what can happen to the table of requests, and what always holds of it.
use peerwatch.Base.{
  ℕ, ◌+◌, ◌^◌, ◌≤◌, ◌<◌, ◌≡◌, ◌≢◌, refl, inl, inr, Bool, true, false, Option, none, some, List, [],
  ◌∷◌, arith,
}
use peerwatch.Base.Tests.{◌==◌, if◌then◌else◌, Bool-cases}
use peerwatch.Base.Entries.{lookup, put, remove, lookup-put, lookup-remove}
use peerwatch.Base.Results.{Result, err}
use peerwatch.Protocol.Message.{Bytes}
use peerwatch.Player.Mpv.{
  Reply, Command, CallError, close, new_player, player_is_closed, Mpv, next_id, register,
  SendOutcome, sent_whole, no_json, no_write, send_request, read_line, await, interpret,
}

-- What happens between the start of a call and its end: a line of mpv arrives, or another call begins,
-- writes or ends.
pub data Event (F : Type 0) : Type 0 where
  line : Option Reply → Event F
  begins : Event F
  writes : ℕ → Command F → SendOutcome → Event F
  ends : ℕ → Bool → Event F
  closes : Bool → Event F

module _ {F : Type 0} where
  abbrev pub ended_by : Mpv F × Option (Result CallError ℕ) → Mpv F
  ended_by (p, r) = p

  abbrev pub ended : Mpv F → Option (Mpv F × Result CallError Bytes) → Mpv F
  ended p none = p
  ended p (some (p', r)) = p'

  unfoldable pub happen : Event F → Mpv F → Mpv F
  unfolding register send_request read_line await close
  happen (line l) p = read_line l p
  happen begins p = (register p).0
  happen (writes id c o) p = (send_request id c o p).0
  happen (ends id late) p = ended p (await id late p)
  happen (closes process) p = (close process p).0

  unfoldable pub happen_all : List (Event F) → Mpv F → Mpv F
  unfolding happen
  happen_all [] p = p
  happen_all (e ∷ es) p = happen_all es (happen e p)

  -- The first reply to the request among the lines.
  unfoldable pub first_reply : ℕ → List (Event F) → Option Reply
  first_reply id [] = none
  first_reply id (line (some r) ∷ es) = if r.id == id then some r else first_reply id es
  first_reply id (e ∷ es) = first_reply id es

  -- The call itself does not end among the events.
  abbrev pub IsOther : ℕ → Event F → Type 0
  IsOther id (ends other late) = other ≢ id
  IsOther id e = Unit

  -- Every entry of the map leads to the channel of its own request, and no request has a number above
  -- the last one.
  pub record IsSound (p : Mpv F) : Type 0 where
    pub own : (k c : ℕ) → lookup k p.pending ≡ some c → (c ≡ k) × (0 < k) × (k ≤ p.req_id)
    pub kept : (k : ℕ) (r : Reply) → lookup k p.inbox ≡ some r → k ≤ p.req_id

  pub new_player-IsSound :
      (connected : Bool) → IsSound (record new_player { connected = connected })
  new_player-IsSound connected = record { own = λ k c h. cc; kept = λ k r h. cc }

  read_line-IsSound : (r : Reply) (p : Mpv F) → IsSound p → IsSound (read_line (some r) p)
  unfolding read_line
  read_line-IsSound r p s = elim (Bool-cases (r.id == 0)) [
    | inl event ↦ rw event s
    | inr reply ↦ rw reply (go (lookup r.id p.pending) refl)
  ]
    where
      go :
          (o : Option ℕ)
          → lookup r.id p.pending ≡ o
          → IsSound (elim o as (λ _. Mpv F) [
            | none ↦ p
            | some channel ↦ record p {
              pending = remove r.id p.pending;
              inbox = put channel r p.inbox;
            }
          ])
      go none e = s
      go (some channel) e = record {
        own = λ k c h. ground (arith, h, s.own k c, lookup-remove r.id k p.pending);
        kept = λ k q h.
            ground (arith, h, s.kept k q, s.own r.id channel e, lookup-put channel k r p.inbox);
      }

  await-IsSound :
      (id : ℕ) (late : Bool) (p : Mpv F) → IsSound p → IsSound (ended p (await id late p))
  unfolding await
  await-IsSound id true p s = record {
    own = λ k c h. ground (arith, h, s.own k c, lookup-remove id k p.pending);
    kept = s.kept;
  }
  await-IsSound id false p s = go (lookup id p.inbox)
    where
      go :
          (o : Option Reply)
          → IsSound (
              ended p (elim o as (λ _. Option (Mpv F × Result CallError Bytes)) [
                | some r ↦ some (record p { inbox = remove id p.inbox }, interpret r)
                | none ↦ none
              ]))
      go none = s
      go (some r) = record {
        own = s.own;
        kept = λ k q h. ground (arith, h, s.kept k q, lookup-remove id k p.inbox);
      }

  -- An event, as long as the numbers do not wrap.
  pub happen-IsSound :
      (e : Event F) (p : Mpv F) → IsSound p → p.req_id + 1 < 2 ^ 64 → IsSound (happen e p)
  unfolding happen register send_request close read_line
  happen-IsSound (line none) p s room = s
  happen-IsSound (line (some r)) p s room = read_line-IsSound r p s
  happen-IsSound begins p s room = elim (Bool-cases p.closed) [
    | inl shut ↦ rw shut (record { own = s.own; kept = s.kept })
    | inr going ↦ rw going (record {
      own = λ k c h. ground (arith, h, s.own k c, lookup-put (next_id p) k (next_id p) p.pending);
      kept = λ k r h. ground (arith, s.kept k r h);
    })
  ]
  happen-IsSound (writes id c sent_whole) p s room = elim (Bool-cases p.connected) [
    | inl there ↦ rw there (record { own = s.own; kept = s.kept })
    | inr gone ↦ rw gone (record { own = s.own; kept = s.kept })
  ]
  happen-IsSound (writes id c no_json) p s room = s
  happen-IsSound (writes id c no_write) p s room = s
  happen-IsSound (ends id late) p s room = await-IsSound id late p s
  happen-IsSound (closes process) p s room = elim (Bool-cases p.closed) [
    | inl shut ↦ rw shut (record { own = s.own; kept = s.kept })
    | inr going ↦ rw going (close_now process)
  ]
    where
      close_now :
          (b : Bool)
          → IsSound (
              ended_by (
                if b
                then (record p { closed = true }, some (err player_is_closed))
                else (record p { closed = true }, none)))
      close_now true = record { own = s.own; kept = s.kept }
      close_now false = record { own = s.own; kept = s.kept }

  pub happen-req_id :
      (e : Event F) (p : Mpv F)
      → p.req_id + 1 < 2 ^ 64
      → (p.req_id ≤ (happen e p).req_id) × ((happen e p).req_id ≤ p.req_id + 1)
  unfolding happen register send_request close read_line await
  happen-req_id (line none) p room = ground arith
  happen-req_id (line (some r)) p room = ground arith
  happen-req_id begins p room = ground arith
  happen-req_id (writes id c sent_whole) p room = ground arith
  happen-req_id (writes id c no_json) p room = ground arith
  happen-req_id (writes id c no_write) p room = ground arith
  happen-req_id (ends id true) p room = ground arith
  happen-req_id (ends id false) p room = ground arith
  happen-req_id (closes process) p room = ground arith
