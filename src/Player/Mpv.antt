-- ===== src/Player/Mpv.antt =====
-- internal/player/mpv.go: the requests to mpv and its replies. What mpv sends is a list of lines, of
-- which json.Unmarshal finds a reply in some; a channel of `call` is named by the request that made it,
-- and what it holds is the entry in `inbox`.
use peerwatch.Base.{
  ℕ, zero, suc, ◌+◌, ◌%◌, ◌^◌, Bool, true, false, not, ◌&&◌, ◌||◌, Option, none, some, List, [],
  ◌∷◌, ◌++◌,
}
use peerwatch.Base.Tests.{◌==◌, if◌then◌else◌}
use peerwatch.Base.Entries.{lookup, put, remove}
use peerwatch.Base.Results.{Result, ok, err, panic}
use peerwatch.Protocol.Message.{Bytes}
use peerwatch.Peer.Swarm.{same_bytes}

-- ipcResponse
pub record Reply : Type 0 where
  pub payload : Bytes
  pub error : Bytes
  pub id : ℕ

pub data Command (F : Type 0) : Type 0 where
  get_time get_duration get_pause quit : Command F
  set_pause : Bool → Command F
  set_time set_speed : F → Command F

-- Player: `connected` says whether there is a connection, `sent` what was written to it, oldest first.
pub record Mpv (F : Type 0) : Type 0 where
  pub connected : Bool
  pub req_id : ℕ
  pub pending : List (ℕ × ℕ)
  pub inbox : List (ℕ × Reply)
  pub sent : List (ℕ × Command F)
  pub closed : Bool

pub data CallError : Type 0 where
  player_is_closed marshal_failed no_connection write_failed timed_out unmarshal_failed : CallError
  mpv_error : Bytes → CallError

-- How the middle of a call ends: json.Marshal, then the write.
pub data SendOutcome : Type 0 where
  sent_whole no_json no_write : SendOutcome

-- "success" and "null"
abbrev pub success : Bytes
success = b's' ∷ b'u' ∷ b'c' ∷ b'c' ∷ b'e' ∷ b's' ∷ b's' ∷ []

abbrev pub null : Bytes
null = b'n' ∷ b'u' ∷ b'l' ∷ b'l' ∷ []

-- The reply that a call has waited for.
unfoldable pub interpret : Reply → Result CallError Bytes
interpret r =
    if not (same_bytes r.error success) && not (same_bytes r.error [])
    then err (mpv_error r.error)
    else ok r.payload

module _ {F : Type 0} where
  abbrev pub new_player : Mpv F
  new_player = record {
    connected = false;
    req_id = 0;
    pending = [];
    inbox = [];
    sent = [];
    closed = false;
  }

  abbrev pub next_id : Mpv F → ℕ
  next_id p = (p.req_id + 1) % 2 ^ 64

  -- The first part of a call: its number, and the entry for its channel.
  unfoldable pub register : Mpv F → Mpv F × Result CallError ℕ
  register p = if p.closed then (p, err player_is_closed) else (
    record p { req_id = next_id p; pending = put (next_id p) (next_id p) p.pending },
    ok (next_id p),
  )

  -- The second part: the request is written.
  unfoldable pub send_request :
      ℕ → Command F → SendOutcome → Mpv F → Mpv F × Result CallError (Unit {0})
  send_request id c no_json p = (p, err marshal_failed)
  send_request id c no_write p = (p, err (if p.connected then write_failed else no_connection))
  send_request id c sent_whole p =
      if p.connected
      then (record p { sent = p.sent ++ ((id, c) ∷ []) }, ok tt)
      else (p, err no_connection)

  -- readLoop, on one line.
  unfoldable pub read_line : Option Reply → Mpv F → Mpv F
  read_line none p = p
  read_line (some r) p = if r.id == 0 then p else elim (lookup r.id p.pending) [
    | none ↦ p
    | some channel ↦ record p { pending = remove r.id p.pending; inbox = put channel r p.inbox }
  ]

  -- The select at the end of a call: `none` while it waits, with `late` once two seconds have passed. If
  -- the reply is there too, either case may be taken.
  unfoldable pub await : ℕ → Bool → Mpv F → Option (Mpv F × Result CallError Bytes)
  unfolding interpret
  await id true p = some (record p { pending = remove id p.pending }, err timed_out)
  await id false p = elim (lookup id p.inbox) [
    | some r ↦ some (record p { inbox = remove id p.inbox }, interpret r)
    | none ↦ none
  ]

  -- GetPlaybackTime and GetDuration, on what their call gives; `nought` is the number 0.
  unfoldable pub read_number : (Bytes → Option F) → F → Result CallError Bytes → Result CallError F
  read_number unmarshal nought (err e) = err e
  read_number unmarshal nought panic = panic
  read_number unmarshal nought (ok payload) =
      if same_bytes payload [] || same_bytes payload null
      then ok nought
      else elim (unmarshal payload) [ some x ↦ ok x | none ↦ err unmarshal_failed ]

  -- Close, with whether there is a process: the player, and how the call of `quit` begins.
  unfoldable pub close : Bool → Mpv F → Mpv F × Option (Result CallError ℕ)
  unfolding register
  close process p =
      let shut = record p { closed = true } in
      let (p', quits) = register shut in
      if p.closed then (p, none) else if process then (p', some quits) else (shut, none)

-- IsPaused, on what its call gives.
unfoldable pub read_bool : (Bytes → Option Bool) → Result CallError Bytes → Result CallError Bool
read_bool unmarshal (err e) = err e
read_bool unmarshal panic = panic
read_bool unmarshal (ok payload) = elim (unmarshal payload) [
  | some x ↦ ok x
  | none ↦ err unmarshal_failed
]

-- The attempts of connectIPC, of which there are fifty: whether one succeeds.
unfoldable pub connect_ipc : ℕ → List Bool → Bool
connect_ipc zero dials = false
connect_ipc (suc n) [] = false
connect_ipc (suc n) (true ∷ dials) = true
connect_ipc (suc n) (false ∷ dials) = connect_ipc n dials
