-- ===== src/Player/Runs.antt =====
-- Calls of mpv at concrete inputs.
use peerwatch.Base.{ℕ, ◌≡◌, refl, ◌⊎◌, true, false, none, some, List, [], ◌∷◌, arith}
use mathlib.Core.Option
use peerwatch.Base.Results.{ok, err}
use peerwatch.Player.Mpv.{
  Reply, get_time, sent_whole, no_write, success, new_player, register, send_request, await,
  interpret, close, player_is_closed, connect_ipc,
}
use peerwatch.Player.Events.{Event, line, begins, writes, ends, happen, happen_all, first_reply}
use peerwatch.Player.Replies.{await-first_reply}
use peerwatch.Player.Process.{
  Player, Answers, connect_started, replace_process, StartError, running, no_process, start,
  close_player, IsReleased, start-close_player,
}

abbrev reply_to : ℕ → Reply
reply_to id = record { payload = id ∷ []; error = success; id = id }

-- Call 1 begins and writes; then call 2 begins, and the replies come in the other order.
abbrev earlier : List (Event ℕ)
earlier = begins ∷ writes 1 get_time sent_whole ∷ []

abbrev later : List (Event ℕ)
later =
    line (some (reply_to 0))
    ∷ line none
    ∷ line (some (reply_to 2))
    ∷ line (some (reply_to 1))
    ∷ ends 1 false
    ∷ []

await-first_reply_example :
    Option.map
      (λ r. r.1)
      (await 2 false (
        happen_all later
          (register (happen_all earlier (record new_player { connected = true }))).0))
    ≡ Option.map interpret (first_reply 2 later)
unfolding register happen_all happen send_request
await-first_reply_example =
    await-first_reply true earlier later 2 refl
      (tt, (tt, (tt, (tt, (λ q. absurd (omega (arith, q)), tt))))) (omega arith)

-- Close has set `closed` before it calls `quit`, so that call fails.
quit_fails :
    (close {F = ℕ} true (record new_player { connected = true })).1 ≡ some (err player_is_closed)
unfolding close register
quit_fails = refl

-- A call whose write fails leaves its entry in the map.
leaks :
    (send_request {F = ℕ} 1 get_time no_write
      (register (record new_player { connected = true })).0).0.pending
    ≡ (1, 1) ∷ []
unfolding register send_request
leaks = refl

-- The 51st attempt is not made.
fifty : connect_ipc 2 (false ∷ false ∷ true ∷ []) ≡ false
unfolding connect_ipc
fifty = refl

abbrev fresh : Player ℕ
fresh = record { mpv = new_player; process = no_process; lost = 0; tmp_dir = true }

-- mpv does not end in time, and is killed.
abbrev by_force : Answers
by_force = record { exits = false; kills = true; removes = true }

-- The first attempt fails and the second one does not.
abbrev begun : Player ℕ
begun = (start none (false ∷ true ∷ []) by_force fresh).0

start-close_player_example :
    (((start none (false ∷ true ∷ []) by_force fresh).1 ≡ ok tt)
        × (begun.mpv.connected ≡ true)
        × (begun.process ≡ running)
      ⊎ (e : StartError) × ((start none (false ∷ true ∷ []) by_force fresh).1 ≡ err e)
        × IsReleased begun)
    × IsReleased (close_player by_force begun)
    × (close_player by_force (close_player by_force begun) ≡ close_player by_force begun)
start-close_player_example =
    start-close_player none (false ∷ true ∷ []) by_force by_force by_force fresh (refl, refl)
      (refl, refl) refl refl refl

-- A second Start loses the process of the first.
loses : (start none (true ∷ []) by_force begun).0.lost ≡ 1
unfolding start connect_started replace_process connect_ipc
loses = refl
