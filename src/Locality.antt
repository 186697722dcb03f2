-- ===== src/Locality.antt =====
-- locality.js: how much a peer is worth, given where it is.
--
-- Factors are in hundredths, so that the arithmetic is exact where the source's is in doubles. The
-- declared prefixes and the machine's own addresses are parameters; a round-trip time is a number of
-- milliseconds.
pub mod Count
mod Tests
use swarmproof.Base.{
  Bool, List, Option, [], all, any, false, if◌then◌else◌, leb, length, none, some, take, true, ℕ,
  ◌&&◌, ◌*◌, ◌++◌, ◌+◌, ◌==◌, ◌||◌, ◌∷◌,
}
use swarmproof.Base.Dots.{is_digit, join_dots, split_dots}
use swarmproof.Base.Text.{Text, same, text}
use swarmproof.PeerTable.{Peer}

pub record Sighting : Type 0 where
  pub peer : Peer
  pub open peer use *
  pub rtt_ms : Option ℕ

pub record Place : Type 0 where
  pub declared : List Text
  pub local_v4 : List Text

abbrev pub same_24_factor : ℕ
same_24_factor = 300

abbrev pub same_16_factor : ℕ
same_16_factor = 180

abbrev pub loopback_factor : ℕ
loopback_factor = 400

abbrev pub neutral : ℕ
neutral = 100

-- The tiers: the longest round-trip time, and the factor. The last tier is without a limit.
unfoldable pub rtt_tiers : List (ℕ × ℕ)
rtt_tiers = (1, 400) ∷ (5, 250) ∷ (25, 100) ∷ (100, 30) ∷ []

abbrev pub last_factor : ℕ
last_factor = 15

-- `RTT_TIERS.find(t => rttMs <= t.maxMs).factor`
unfoldable pub tier_factor : List (ℕ × ℕ) → ℕ → ℕ
tier_factor [] rtt = last_factor
tier_factor ((max_ms, factor) ∷ tiers) rtt =
    if leb rtt max_ms then factor else tier_factor tiers rtt

pub is_group : Text → Bool
is_group t = leb 1 (length t) && leb (length t) 3 && all is_digit t

-- `/^\d{1,3}(\.\d{1,3}){3}$/`
pub is_v4 : Text → Bool
unfolding is_group
is_v4 host = length (split_dots host) == 4 && all is_group (split_dots host)

-- The first groups of a host, with a dot behind them.
pub prefix : Text → ℕ → Text
prefix host octets = join_dots (take octets (split_dots host)) ++ b'.' ∷ []

pub starts_with : Text → Text → Bool
starts_with host [] = true
starts_with [] (c ∷ p) = false
starts_with (h ∷ host) (c ∷ p) = h == c && starts_with host p

-- The loop over the local addresses.
pub local_factor : Text → List Text → ℕ
unfolding prefix
local_factor host [] = neutral
local_factor host (local ∷ rest) =
    if same (prefix host 3) (prefix local 3)
    then same_24_factor
    else (if same (prefix host 2) (prefix local 2) then same_16_factor else local_factor host rest)

pub address_factor : Place → Text → ℕ
unfolding is_v4 starts_with local_factor
address_factor place host =
    if is_v4 host
    then (if any (starts_with host) place.declared
        then same_24_factor
        else local_factor host place.local_v4)
    else neutral

unfoldable pub is_loopback : Text → Bool
is_loopback host =
    same host (text "127.0.0.1") || same host (text "::1") || same host (text "localhost")

unfoldable pub rtt_factor : Place → Text → Option ℕ → ℕ
unfolding tier_factor rtt_tiers address_factor
rtt_factor place host (some rtt) = tier_factor rtt_tiers rtt
rtt_factor place host none = address_factor place host

unfoldable pub locality_factor : Place → Sighting → ℕ
unfolding is_loopback rtt_factor
locality_factor place s =
    if length s.host == 0
    then neutral
    else (if is_loopback s.host then loopback_factor else rtt_factor place s.host s.rtt_ms)

-- In hundredths of a peer.
unfoldable pub weighted_peer_count : Place → List Sighting → ℕ
weighted_peer_count place [] = 0
weighted_peer_count place (s ∷ ss) = locality_factor place s + weighted_peer_count place ss

-- The mean locality as a fraction: `weighted_peer_count` hundredths over the number of peers, and 1 if
-- there are none.
unfoldable pub mean_locality : Place → List Sighting → ℕ × ℕ
mean_locality place [] = (1, 1)
mean_locality place (s ∷ ss) = (weighted_peer_count place (s ∷ ss), 100 * length (s ∷ ss))
