-- ===== src/Scheduler/Selection.antt =====
-- internal/scheduler/strategy.go: the peer that SelectPeer picks.
use peerwatch.Base.{
  ℕ, ◌<◌, ◌≡◌, refl, sym, ap, ◌∙◌, ◌⊎◌, inl, inr, true, false, ◌||◌, Option, none, some, List, [],
  ◌∷◌, arith,
}
use peerwatch.Base.Tests.{leb, ==_refl, Bool-cases}
use peerwatch.Base.Keys.{contains}
use peerwatch.Base.Floats.{Floats}
use mathlib.Core.Bool.{false≢true}
use mathlib.Core.Option.{none-ne-some, some-injective}
use native.Mathlib.Decide.{ℕ_discrete}
use peerwatch.Peer.Connection.{Peer, in_flight_count}
use peerwatch.Peer.Swarm.{Swarm, get_peer}
use peerwatch.Scheduler.Strategy.{peer_score, better, weigh, select_from, select_peer}

-- What IEEE-754 says of `<`, NaN included.
pub record IsOrdered {F : Type 0} (floats : Floats F) : Type 0 where
  pub irreflexive : (a : F) → floats.less a a ≡ false
  pub transitive :
      (a b c : F) → floats.less a b ≡ true → floats.less b c ≡ true → floats.less a c ≡ true

module _ {F : Type 0} (floats : Floats F) (s : Swarm F) where
  -- A peer that one of the IDs names, connected and not saturated.
  abbrev pub Eligible : List ℕ → Peer F → Type 0
  Eligible ids p =
      (id : ℕ) × (contains id ids ≡ true) × (get_peer s id ≡ some p) × (in_flight_count p < 4)

  -- No eligible peer has a higher score than `p`.
  abbrev pub Highest : List ℕ → Peer F → Type 0
  Highest ids p =
      (q : Peer F)
      → Eligible ids q
      → floats.less (peer_score floats p) (peer_score floats q) ≡ false

  -- What SelectPeer gives: nothing if there is no eligible peer, and else one with the highest score.
  abbrev pub IsBest : List ℕ → Option (Peer F) → Type 0
  IsBest ids none = (q : Peer F) → ¬ Eligible ids q
  IsBest ids (some p) = Eligible ids p × Highest ids p

  wider : (ids : List ℕ) (x : ℕ) (p : Peer F) → Eligible ids p → Eligible (x ∷ ids) p
  unfolding contains
  wider ids x p (id, there, is, few) = (id, ground arith, is, few)

  -- An eligible peer of more IDs is that of the first, or one of the others.
  narrower :
      (ids : List ℕ) (x : ℕ) (q : Peer F)
      → Eligible (x ∷ ids) q
      → ((get_peer s x ≡ some q) × (in_flight_count q < 4)) ⊎ Eligible ids q
  unfolding contains
  narrower ids x q (id, there, is, few) = elim (ℕ_discrete x id) [
    | yes e ↦ inl (ap (get_peer s) e ∙ is, few)
    | no ne ↦ inr (id, ground arith, is, few)
  ]

  module _ (ordered : IsOrdered floats) where
    same_peer :
        (x : ℕ) (p q : Peer F)
        → get_peer s x ≡ some p
        → get_peer s x ≡ some q
        → floats.less (peer_score floats p) (peer_score floats q) ≡ false
    same_peer x p q is isq =
        ap (λ r. floats.less (peer_score floats p) (peer_score floats r))
          (some-injective q p (sym isq ∙ is))
        ∙ ordered.irreflexive (peer_score floats p)

    below_best :
        (p best q : Peer F)
        → floats.less (peer_score floats best) (peer_score floats p) ≡ true
        → floats.less (peer_score floats best) (peer_score floats q) ≡ false
        → floats.less (peer_score floats p) (peer_score floats q) ≡ false
    below_best p best q up not_up =
        elim (Bool-cases (floats.less (peer_score floats p) (peer_score floats q))) [
          | inl also ↦ absurd (false≢true (sym not_up ∙ ordered.transitive _ _ _ up also))
          | inr no_more ↦ no_more
        ]

    better-IsBest :
        (ids : List ℕ) (x : ℕ) (p : Peer F) (best : Option (Peer F))
        → get_peer s x ≡ some p
        → in_flight_count p < 4
        → IsBest ids best
        → IsBest (x ∷ ids) (better floats p best)
    unfolding better contains
    better-IsBest ids x p none is few b = (
      (x, ground (arith, ==_refl x), is, few),
      λ q e. elim (narrower ids x q e) [
        | inl (isq, _) ↦ same_peer x p q is isq
        | inr before ↦ absurd (b q before)
      ],
    )
    better-IsBest ids x p (some best) is few (e, high) =
        elim (Bool-cases (floats.less (peer_score floats best) (peer_score floats p))) [
          | inl higher ↦ rw higher (
            (x, ground (arith, ==_refl x), is, few),
            λ q f. elim (narrower ids x q f) [
              | inl (isq, _) ↦ same_peer x p q is isq
              | inr before ↦ below_best p best q higher (high q before)
            ],
          )
          | inr not_higher ↦ rw not_higher (
            wider ids x best e,
            λ q f. elim (narrower ids x q f) [
              | inl (isq, _) ↦
                  ap (λ r. floats.less (peer_score floats best) (peer_score floats r))
                    (some-injective q p (sym isq ∙ is))
                  ∙ not_higher
              | inr before ↦ high q before
            ],
          )
        ]

    skip-IsBest :
        (ids : List ℕ) (x : ℕ) (best : Option (Peer F))
        → ((q : Peer F) → get_peer s x ≡ some q → ¬ (in_flight_count q < 4))
        → IsBest ids best
        → IsBest (x ∷ ids) best
    skip-IsBest ids x none not_it b = λ q e. elim (narrower ids x q e) [
      | inl (is, few) ↦ not_it q is few
      | inr before ↦ b q before
    ]
    skip-IsBest ids x (some p) not_it (e, high) = (
      wider ids x p e,
      λ q e'. elim (narrower ids x q e') [
        | inl (is, few) ↦ absurd (not_it q is few)
        | inr before ↦ high q before
      ],
    )

    weigh-IsBest :
        (ids : List ℕ) (x : ℕ) (found best : Option (Peer F))
        → get_peer s x ≡ found
        → IsBest ids best
        → IsBest (x ∷ ids) (weigh floats found best)
    unfolding weigh
    weigh-IsBest ids x none best is b =
        skip-IsBest ids x best (λ q isq few. none-ne-some q (sym is ∙ isq)) b
    weigh-IsBest ids x (some p) best is b = elim (Bool-cases (leb 4 (in_flight_count p))) [
      | inl saturated ↦ rw saturated (
          skip-IsBest ids x best
            (λ q isq few.
              let same : in_flight_count q ≡ in_flight_count p =
                ap in_flight_count (some-injective q p (sym isq ∙ is)) in
              ground (arith, same, saturated))
            b)
      | inr free ↦ rw free (better-IsBest ids x p best is (ground arith) b)
    ]

    -- The IDs seen, after the loop.
    abbrev visited : List ℕ → List ℕ → List ℕ
    visited [] seen = seen
    visited (x ∷ ids) seen = visited ids (x ∷ seen)

    select_from-IsBest :
        (ids seen : List ℕ) (best : Option (Peer F))
        → IsBest seen best
        → IsBest (visited ids seen) (select_from floats s best ids)
    unfolding select_from
    select_from-IsBest [] seen best b = b
    select_from-IsBest (x ∷ ids) seen best b =
        select_from-IsBest ids (x ∷ seen) _ (weigh-IsBest seen x (get_peer s x) best refl b)

    contains-visited :
        (ids seen : List ℕ) (k : ℕ)
        → contains k (visited ids seen) ≡ (contains k ids || contains k seen)
    unfolding contains
    contains-visited [] seen k = ground arith
    contains-visited (x ∷ ids) seen k = ground (arith, contains-visited ids (x ∷ seen) k)

    same_ids :
        (ids ids' : List ℕ) (r : Option (Peer F))
        → ((k : ℕ) → contains k ids ≡ contains k ids')
        → IsBest ids r
        → IsBest ids' r
    same_ids ids ids' none same b = λ q (id, there, is, few). b q (id, same id ∙ there, is, few)
    same_ids ids ids' (some p) same ((id, there, is, few), high) = (
      (id, sym (same id) ∙ there, is, few),
      λ q (id', there', is', few'). high q (id', same id' ∙ there', is', few'),
    )

    nothing_more : (ids : List ℕ) (k : ℕ) → (contains k ids || contains k []) ≡ contains k ids
    unfolding contains
    nothing_more ids k = ground arith

    no_ids : IsBest [] none
    unfolding contains
    no_ids q (id, there, is, few) = false≢true there

    -- SelectPeer, for an order that is irreflexive and transitive as that of float64 is: it gives
    -- nothing just if no peer among the IDs is connected with fewer than four requests in flight, and
    -- otherwise such a peer, than which none of the others scores higher.
    pub select_peer-IsBest : (ids : List ℕ) → IsBest ids (select_peer floats s ids)
    unfolding select_peer
    select_peer-IsBest ids =
        same_ids (visited ids []) ids _ (λ k. contains-visited ids [] k ∙ nothing_more ids k)
          (select_from-IsBest ids [] none no_ids)
