-- ===== src/Locality/Count.antt =====
-- locality.js: the bounds of the factors, and what they leave unchanged.
use swarmproof.Base.{All, none, some, ◌*◌, ◌≡◌, List, Option, [], arith, length, ℕ, ◌∷◌, ◌≤◌}
use swarmproof.Locality.{
  weighted_peer_count, Place, Sighting, address_factor, local_factor, locality_factor, neutral,
  rtt_factor, rtt_tiers, tier_factor,
}
use swarmproof.PeerTable.{Peer}
use swarmproof.Base.Text.{Text}

tier_factor_bounds :
    (rtt : ℕ) → (15 ≤ tier_factor rtt_tiers rtt) × (tier_factor rtt_tiers rtt ≤ 400)
unfolding tier_factor rtt_tiers
tier_factor_bounds rtt = ground arith

-- A shorter round trip is never worth less.
pub tier_factor_mono : (r s : ℕ) → r ≤ s → tier_factor rtt_tiers s ≤ tier_factor rtt_tiers r
unfolding tier_factor rtt_tiers
tier_factor_mono r s h = ground arith

local_factor_bounds :
    (host : Text) (ls : List Text) → (100 ≤ local_factor host ls) × (local_factor host ls ≤ 300)
unfolding local_factor
local_factor_bounds host [] = omega arith
local_factor_bounds host (l ∷ ls) = ground (arith, local_factor_bounds host ls)

address_factor_bounds :
    (place : Place) (host : Text)
    → (100 ≤ address_factor place host) × (address_factor place host ≤ 300)
unfolding address_factor
address_factor_bounds place host = ground (arith, local_factor_bounds host place.local_v4)

rtt_factor_bounds :
    (place : Place) (host : Text) (r : Option ℕ)
    → (15 ≤ rtt_factor place host r) × (rtt_factor place host r ≤ 400)
unfolding rtt_factor
rtt_factor_bounds place host (some rtt) = tier_factor_bounds rtt
rtt_factor_bounds place host none = omega (arith, address_factor_bounds place host)

locality_factor_bounds :
    (place : Place) (s : Sighting)
    → (15 ≤ locality_factor place s) × (locality_factor place s ≤ 400)
unfolding locality_factor
locality_factor_bounds place s = ground (arith, rtt_factor_bounds place s.host s.rtt_ms)

-- Every peer counts for at least 0.15 and at most 4 peers.
pub weighted_peer_count_bounds :
    (place : Place) (ss : List Sighting)
    → (15 * length ss ≤ weighted_peer_count place ss)
      × (weighted_peer_count place ss ≤ 400 * length ss)
unfolding weighted_peer_count
weighted_peer_count_bounds place [] = omega arith
weighted_peer_count_bounds place (s ∷ ss) =
    omega (arith, locality_factor_bounds place s, weighted_peer_count_bounds place ss)

-- Of one and the same peer, a sighting with a shorter measured round trip never has the lower factor.
pub locality_factor_mono :
    (place : Place) (p : Peer) (r s : ℕ)
    → r ≤ s
    → locality_factor place (record { peer = p; rtt_ms = some s })
      ≤ locality_factor place (record { peer = p; rtt_ms = some r })
unfolding locality_factor rtt_factor
locality_factor_mono place p r s h = ground (arith, tier_factor_mono r s)

-- Where every peer is neutral, the weighted count is the plain one, in hundredths.
pub weighted_peer_count-neutral :
    (place : Place) (ss : List Sighting)
    → All (λ s. locality_factor place s ≡ neutral) ss
    → weighted_peer_count place ss ≡ 100 * length ss
unfolding weighted_peer_count
weighted_peer_count-neutral place [] h = omega arith
weighted_peer_count-neutral place (s ∷ ss) h =
    omega (arith, h.0, weighted_peer_count-neutral place ss h.1)
