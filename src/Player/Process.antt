-- ===== src/Player/Process.antt =====
-- internal/player/mpv.go: NewPlayer, Start, Close and cleanup, with the process of mpv and the temporary
-- directory. What the system answers is an argument: the working directory, the new directory, the
-- start of the process, the attempts to reach its socket, and what Close meets.
use peerwatch.Base.{
  arith, ◌∙◌, suc, not, ◌&&◌, ◌||◌, ℕ, ◌≡◌, refl, inl, inr, ◌⊎◌, Bool, true, false, Option, none,
  some, List,
}
use peerwatch.Base.Tests.{if◌then◌else◌, Bool-cases}
use peerwatch.Base.Results.{Result, ok, err, ◌>>=◌, wrap_error}
use peerwatch.Chunk.File.{IoError}
use peerwatch.Player.Mpv.{Mpv, new_player, close, connect_ipc, register}

-- p.cmd.Process: nil, or a process that runs, has ended, or was killed.
pub data Process : Type 0 where
  no_process running ended killed : Process

-- `lost` counts the processes that a later Start left running when it replaced p.cmd; `tmp_dir` says whether
-- the temporary directory is there.
pub record Player (F : Type 0) : Type 0 where
  pub mpv : Mpv F
  pub process : Process
  pub lost : ℕ
  pub tmp_dir : Bool

pub data PlayerError : Type 0 where
  no_working_directory no_temp_dir : IoError → PlayerError

pub data StartError : Type 0 where
  start_failed : IoError → StartError
  connect_failed : StartError

-- What the system answers in Close: whether the process ends within half a second, whether Kill ends it
-- otherwise, and whether RemoveAll removes the directory. The code ignores both errors.
pub record Answers : Type 0 where
  pub exits : Bool
  pub kills : Bool
  pub removes : Bool

-- connectIPC's bound
abbrev pub attempts : ℕ
attempts = 50

unfoldable pub has_process : Process → Bool
has_process no_process = false
has_process running = true
has_process ended = true
has_process killed = true

abbrev is_running : Process → Bool
is_running no_process = false
is_running running = true
is_running ended = false
is_running killed = false

-- What becomes of the process in Close.
unfoldable pub end_process : Answers → Process → Process
end_process o no_process = no_process
end_process o running = if o.exits then ended else if o.kills then killed else running
end_process o ended = ended
end_process o killed = killed

module _ {F : Type 0} where
  unfoldable pub make_player :
      Result IoError (Unit {0}) → Result IoError (Unit {0}) → Result PlayerError (Player F)
  make_player cwd tmp = wrap_error no_working_directory cwd >>= λ dir.
      wrap_error no_temp_dir tmp >>= λ made.
      ok (record { mpv = new_player; process = no_process; lost = 0; tmp_dir = true })

  unfoldable pub cleanup : Answers → Player F → Player F
  cleanup o p = record p { tmp_dir = p.tmp_dir && not o.removes }

  unfoldable pub close_player : Answers → Player F → Player F
  close_player o p =
      if p.mpv.closed
      then p
      else cleanup o (record p {
        mpv = (close (has_process p.process) p.mpv).0;
        process = end_process o p.process;
      })

  -- p.cmd is replaced, by a command that runs or one that does not.
  unfoldable pub replace_process : Process → Player F → Player F
  replace_process process p = record p {
    process = process;
    lost = if is_running p.process then suc p.lost else p.lost;
  }

  -- Start, behind the start of the process.
  unfoldable pub connect_started :
      List Bool → Answers → Player F → Player F × Result StartError (Unit {0})
  connect_started dials o p =
      if connect_ipc attempts dials
      then (record p { mpv = record (p.mpv) { connected = true } }, ok tt)
      else (close_player o p, err connect_failed)

  -- `launched` is the error of cmd.Start, if there is one.
  unfoldable pub start :
      Option IoError → List Bool → Answers → Player F → Player F × Result StartError (Unit {0})
  start none dials o p = connect_started dials o (replace_process running p)
  start (some e) dials o p = (cleanup o (replace_process no_process p), err (start_failed e))

-- Nothing is left behind: no temporary directory, and no process that runs.
abbrev pub IsReleased : {F : Type 0} → Player F → Type 0
IsReleased p = (p.tmp_dir ≡ false) × (is_running p.process ≡ false) × (p.lost ≡ 0)

-- The process can be ended, and the directory can be removed.
abbrev pub IsWilling : Answers → Type 0
IsWilling o = ((o.exits || o.kills) ≡ true) × (o.removes ≡ true)

is_running-end_process :
    (o : Answers) (p : Process)
    → is_running (end_process o p) ≡ (is_running p && not (o.exits || o.kills))
unfolding end_process
is_running-end_process o no_process = refl
is_running-end_process o running = elim (Bool-cases o.exits) [
  | inl exits ↦ rw exits refl
  | inr stays ↦ rw stays (elim (Bool-cases o.kills) [ inl k ↦ rw k refl | inr k ↦ rw k refl ])
]
is_running-end_process o ended = refl
is_running-end_process o killed = refl

module _ {F : Type 0} where
  close-closed : (b : Bool) (m : Mpv F) → m.closed ≡ false → (close b m).0.closed ≡ true
  unfolding close register
  close-closed true m h = rw h refl
  close-closed false m h = rw h refl

  -- What Close leaves of the process and of the directory, whatever the system answers.
  close_player-left :
      (o : Answers) (p : Player F)
      → p.mpv.closed ≡ false
      → ((close_player o p).tmp_dir ≡ (p.tmp_dir && not o.removes))
        × (is_running (close_player o p).process
            ≡ (is_running p.process && not (o.exits || o.kills)))
        × ((close_player o p).lost ≡ p.lost)
        × ((close_player o p).mpv.closed ≡ true)
  unfolding close_player cleanup
  close_player-left o p is_open = simp is_open (
    refl,
    is_running-end_process o p.process,
    refl,
    close-closed (has_process p.process) p.mpv is_open,
  )

  close_player-IsReleased :
      (o : Answers) (p : Player F)
      → IsWilling o
      → p.lost ≡ 0
      → p.mpv.closed ≡ false
      → IsReleased (close_player o p) × ((close_player o p).mpv.closed ≡ true)
  close_player-IsReleased o p (ends, removes) none_lost is_open =
      let (dir, runs, lost, shut) = close_player-left o p is_open in
      ((ground (arith, dir, removes), ground (arith, runs, ends), lost ∙ none_lost), shut)

  closed_twice : (again : Answers) (p : Player F) → p.mpv.closed ≡ true → close_player again p ≡ p
  unfolding close_player
  closed_twice again p shut = rw shut refl

  -- Start on a player that is not closed, has no process that runs and has lost none, where Close can end the
  -- process (which exits in time or is killed) and remove the directory: Start either succeeds, connected to
  -- a process that runs, or gives an error and leaves nothing behind, neither the temporary directory nor
  -- a process that runs. In both cases nothing is left behind after the next Close, and one more Close does
  -- nothing.
  pub start-close_player :
      (launched : Option IoError) (dials : List Bool) (o later again : Answers) (p : Player F)
      → IsWilling o
      → IsWilling later
      → p.mpv.closed ≡ false
      → is_running p.process ≡ false
      → p.lost ≡ 0
      → (((start launched dials o p).1 ≡ ok tt)
            × ((start launched dials o p).0.mpv.connected ≡ true)
            × ((start launched dials o p).0.process ≡ running)
          ⊎ (e : StartError) × ((start launched dials o p).1 ≡ err e)
            × IsReleased (start launched dials o p).0)
        × IsReleased (close_player later (start launched dials o p).0)
        × (close_player again (close_player later (start launched dials o p).0)
            ≡ close_player later (start launched dials o p).0)
  unfolding start cleanup connect_started replace_process
  start-close_player (some e) dials o later again p can can_later is_open idle none_lost =
      let still : (replace_process no_process p).lost ≡ 0 = rw idle none_lost in
      let c =
        close_player-IsReleased later (cleanup o (replace_process no_process p)) can_later still
          is_open in
      (
        inr (start_failed e, refl, (ground (arith, can), refl, still)),
        c.0,
        closed_twice again _ c.1,
      )
  start-close_player none dials o later again p can can_later is_open idle none_lost =
      let q = replace_process running p in
      let still : q.lost ≡ 0 = rw idle none_lost in
      elim (Bool-cases (connect_ipc attempts dials)) [
        | inl reached ↦
            let c =
              close_player-IsReleased later (record q { mpv = record (p.mpv) { connected = true } })
                can_later still is_open in
            rw reached (inl (refl, refl, refl), c.0, closed_twice again _ c.1)
        | inr silent ↦
            let c = close_player-IsReleased o q can still is_open in
            let same = closed_twice later (close_player o q) c.1 in
            rw (silent, same) (inr (connect_failed, refl, c.0), c.0, closed_twice again _ c.1)
      ]
