-- ===== src/Sync/Tiers.antt =====
-- internal/sync/sync.go: what the commands of handleSync amount to.
use peerwatch.Base.{sym, ◌∙◌, ◌≡◌, refl, inl, inr, Bool, true, false, some, List, [], ◌∷◌}
use mathlib.Core.Bool.{false≢true}
use peerwatch.Base.Tests.{if◌then◌else◌, ◌==◌, Bool-cases, Option-cases}
use peerwatch.Base.Floats.{Floats}
use peerwatch.Sync.{
  Command, set_paused, seek, set_speed, SyncState, PlayerView, far, correct, follow, handle_sync,
}

module _ {F : Type 0} (works : Command F → Bool) where
  -- Whether the player is paused after the commands, of which mpv carries out those that work; their errors
  -- are ignored.
  unfoldable pub paused_after : List (Command F) → Bool → Bool
  paused_after [] p = p
  paused_after (set_paused b ∷ cs) p = paused_after cs (if works (set_paused b) then b else p)
  paused_after (seek t ∷ cs) p = paused_after cs p
  paused_after (set_speed v ∷ cs) p = paused_after cs p

either_way : (b x : Bool) → (if b then x else x) ≡ x
either_way true x = refl
either_way false x = refl

module _ {F : Type 0} (works : Command F → Bool) (floats : Floats F) where
  correct-paused :
      (target drift : F) (p : Bool) → paused_after works (correct floats target drift) p ≡ p
  unfolding correct paused_after
  correct-paused target drift p = elim (Bool-cases (far floats (floats.decimal 2 0) drift)) [
    | inl much ↦ rw much refl
    | inr near ↦
        rw near
          (elim (Bool-cases
            (floats.less drift (floats.minus (floats.decimal 0 0) (floats.decimal 5 1)))) [
              | inl behind ↦ rw behind refl
              | inr level ↦ rw level (elim (Bool-cases (floats.less (floats.decimal 5 1) drift)) [
                | inl ahead ↦ rw ahead refl
                | inr within ↦ rw within refl
              ])
            ])
  ]

  follow-paused :
      (msg : SyncState F) (view : PlayerView F) (p : Bool)
      → paused_after works (follow floats msg view) p ≡ p
  unfolding paused_after follow
  follow-paused msg view p = elim (Option-cases view.time) [
    | inl unknown ↦ rw unknown refl
    | inr (time, known) ↦ rw known (correct-paused _ _ p)
  ]

  -- handleSync, when the player answers whether it is paused: if setting that works, the player is paused
  -- afterwards just if the message says that the host is, and otherwise it is as it was; and if both were
  -- paused before, there are no commands.
  pub handle_sync-paused :
      (msg : SyncState F) (view : PlayerView F) (p : Bool)
      → view.paused ≡ some p
      → (paused_after works (handle_sync floats msg view) p
          ≡ (if works (set_paused (msg.state == 0)) then (msg.state == 0) else p))
        × ((msg.state == 0) ≡ true → p ≡ true → handle_sync floats msg view ≡ [])
  unfolding handle_sync paused_after
  handle_sync-paused msg view true known = elim (Bool-cases (msg.state == 0)) [
    | inl host ↦ rw (known, host) (sym (either_way (works (set_paused true)) true), λ _ _. refl)
    | inr runs ↦
        rw (known, runs)
          (
            follow-paused msg (record view { paused = some true })
                (if works (set_paused false) then false else true),
            λ h _. absurd (false≢true h),
          )
  ]
  handle_sync-paused msg view false known = elim (Bool-cases (msg.state == 0)) [
    | inl host ↦ rw (known, host) (refl, λ _ h. absurd (false≢true h))
    | inr runs ↦
        rw (known, runs)
          (
            follow-paused msg (record view { paused = some false }) false
                ∙ sym (either_way (works (set_paused false)) false),
            λ h _. absurd (false≢true h),
          )
  ]
