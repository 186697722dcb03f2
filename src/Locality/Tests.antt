-- ===== src/Locality/Tests.antt =====
-- Runs of locality.js, and the theorems at concrete inputs.
use swarmproof.Base.{List, [], none, refl, some, ◌+◌, ◌∷◌, ◌≡◌}
use swarmproof.Base.Dots.{is_digit, join_dots, split_dots}
use swarmproof.Base.Text.{Text, same, text}
use swarmproof.Locality.{
  Place, Sighting, address_factor, is_group, is_loopback, is_v4, local_factor, locality_factor,
  prefix, rtt_factor, rtt_tiers, starts_with, tier_factor, weighted_peer_count,
}
use swarmproof.PeerTable.{Peer}

abbrev home : Place
home = record { declared = []; local_v4 = text "192.168.1.5" ∷ [] }

abbrev peer_at : Text → Peer
peer_at host = record { host = host; port = 6881 }

abbrev sighted : List Sighting
sighted =
    record { peer = peer_at (text "192.168.1.77"); rtt_ms = none }
    ∷ record { peer = peer_at (text "8.8.8.8"); rtt_ms = some 140 }
    ∷ record { peer = peer_at (text "127.0.0.1"); rtt_ms = some 90 }
    ∷ []

locality_program : Unit {0}
unfolding weighted_peer_count locality_factor is_loopback rtt_factor address_factor local_factor
    prefix is_v4 is_group tier_factor rtt_tiers starts_with split_dots join_dots is_digit same
locality_program = tt

-- A host in the same /24, a far one by its round trip, and the machine itself.
weighted_run : weighted_peer_count home sighted ≡ 300 + 15 + 400
unfolding locality_program
weighted_run = refl
