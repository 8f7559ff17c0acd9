-- ===== src/L1/LinkHealing/Selection.antt =====
-- The peer that a failover goes to.
use ipvn.Base.{
  ◌≤◌, ◌<◌, ◌≡◌, String, Bool, true, false, not, ◌&&◌, List, [], ◌∷◌, Option, none, some, ltb, ◌==◌,
  arith, All, str_eq, Bool-cases, inl, inr,
}
use ipvn.L1.LinkHealing.{PeerNode, rtt, select_from, select_alternative_peer}

-- A peer that may stand in for another.
abbrev pub is_candidate : String → PeerNode → Bool
is_candidate degraded_did p = not (str_eq p.did degraded_did) && p.health_state == 0

-- The choice is a candidate, and no candidate of the list is closer.
abbrev pub IsBest : String → List PeerNode → Option PeerNode → Type 0
IsBest degraded_did peers none = All (λ p. is_candidate degraded_did p ≡ false) peers
IsBest degraded_did peers (some best) =
    (is_candidate degraded_did best ≡ true)
    × All (λ p. is_candidate degraded_did p ≡ true → rtt best ≤ rtt p) peers

module _ (degraded_did : String) where
  -- What the loop has chosen over the rest of the list, from a best candidate on.
  Chosen : Option PeerNode → List PeerNode → Option PeerNode → Type 0
  Chosen none ps r = IsBest degraded_did ps r
  Chosen (some a) ps none = ⊥
  Chosen (some a) ps (some b) =
      (is_candidate degraded_did b ≡ true)
      × (rtt b ≤ rtt a)
      × All (λ p. is_candidate degraded_did p ≡ true → rtt b ≤ rtt p) ps

  Chosen-first :
      (p : PeerNode) (ps : List PeerNode) (r : Option PeerNode)
      → Chosen (some p) ps r
      → IsBest degraded_did (p ∷ ps) r
  unfolding Chosen
  Chosen-first p ps none h = elim h [ ]
  Chosen-first p ps (some b) (c, near, all) = (c, ((λ e. near), all))

  IsBest-skip :
      (p : PeerNode) (ps : List PeerNode) (r : Option PeerNode)
      → is_candidate degraded_did p ≡ false
      → IsBest degraded_did ps r
      → IsBest degraded_did (p ∷ ps) r
  IsBest-skip p ps none e h = (e, h)
  IsBest-skip p ps (some b) e (c, all) = (c, ((λ e'. ground arith), all))

  Chosen-replace :
      (a p : PeerNode) (ps : List PeerNode) (r : Option PeerNode)
      → rtt p < rtt a
      → Chosen (some p) ps r
      → Chosen (some a) (p ∷ ps) r
  unfolding Chosen
  Chosen-replace a p ps none h c = elim c [ ]
  Chosen-replace a p ps (some b) h (c, near, all) = (c, omega arith, ((λ e. near), all))

  Chosen-keep :
      (a p : PeerNode) (ps : List PeerNode) (r : Option PeerNode)
      → (is_candidate degraded_did p ≡ true → rtt a ≤ rtt p)
      → Chosen (some a) ps r
      → Chosen (some a) (p ∷ ps) r
  unfolding Chosen
  Chosen-keep a p ps none h c = elim c [ ]
  Chosen-keep a p ps (some b) h (c, near, all) =
      (c, near, ((λ e. let further : rtt a ≤ rtt p = h e in omega arith), all))

  select_from-some :
      (a : PeerNode) (ps : List PeerNode)
      → is_candidate degraded_did a ≡ true
      → Chosen (some a) ps (select_from degraded_did (some a) ps)
  unfolding Chosen select_from
  select_from-some a [] c = (c, omega arith, tt)
  select_from-some a (p ∷ ps) c =
      elim (Bool-cases
        (not (str_eq p.did degraded_did) && p.health_state == 0 && ltb (rtt p) (rtt a))) [
          | inl take ↦
              rw take
                (Chosen-replace a p ps _ (ground arith) (select_from-some p ps (ground arith)))
          | inr keep ↦ rw keep (Chosen-keep a p ps _ (λ e. ground arith) (select_from-some a ps c))
        ]

  select_from-none :
      (ps : List PeerNode) → IsBest degraded_did ps (select_from degraded_did none ps)
  unfolding select_from
  select_from-none [] = tt
  select_from-none (p ∷ ps) = elim (Bool-cases (is_candidate degraded_did p)) [
    | inl take ↦
        let first : (is_candidate degraded_did p && true) ≡ true = ground arith in
        rw first (Chosen-first p ps _ (select_from-some p ps take))
    | inr skip ↦
        let none_yet : (is_candidate degraded_did p && true) ≡ false = ground arith in
        rw none_yet (IsBest-skip p ps _ skip (select_from-none ps))
  ]

-- The peer chosen in place of a degraded one is a healthy peer of the list other than it, with the
-- lowest latency among those (where an unknown latency counts as one millisecond); none is chosen
-- only if the list has no such peer.
pub select_alternative_peer-IsBest :
    (degraded_did : String) (peers : List PeerNode)
    → IsBest degraded_did peers (select_alternative_peer peers degraded_did)
unfolding select_alternative_peer
select_alternative_peer-IsBest degraded_did peers = select_from-none degraded_did peers
