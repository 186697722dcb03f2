-- ===== src/Crawler/Compact.antt =====
-- dhtCrawler.js, `_decodeNodes` and `_decodePeers`: addresses in their compact forms.
--
-- A byte string is its list of bytes; `none` stands for a value that is no byte string (`_bytes`), or
-- for `values` that are no array.
pub mod RoundTrip
mod Tests
use swarmproof.Base.{
  List, Option, [], drop, if◌then◌else◌, length, ltb, none, some, suc, take, zero, ℕ, ◌&&◌, ◌*◌,
  ◌++◌, ◌+◌, ◌/◌, ◌∷◌,
}
use swarmproof.Base.Decimal.{decimal}
use swarmproof.Base.Text.{Text}
use swarmproof.PeerTable.{Peer}
use swarmproof.Worker.Pool.{values}

unfoldable pub dotted_host : ℕ → ℕ → ℕ → ℕ → Text
dotted_host a b c d =
    decimal a ++ (b'.' ∷ (decimal b ++ (b'.' ∷ (decimal c ++ (b'.' ∷ decimal d)))))

unfoldable pub compact_address : ℕ → ℕ → ℕ → ℕ → ℕ → ℕ → Peer
unfolding dotted_host
compact_address a b c d high low = record { host = dotted_host a b c d; port = 256 * high + low }

-- The four bytes of the address and the two of the port, of a record of a node behind its id.
unfoldable pub node_of_bytes : List ℕ → Option Peer
unfolding compact_address
node_of_bytes (a ∷ b ∷ c ∷ d ∷ high ∷ low ∷ rest) =
    if ltb 0 (256 * high + low) && ltb (256 * high + low) 65536
    then some (compact_address a b c d high low)
    else none
node_of_bytes bytes = none

unfoldable pub keep : Option Peer → List Peer → List Peer
keep none ps = ps
keep (some p) ps = p ∷ ps

-- The loop, with the rounds that `i + 26 <= buf.length` allows.
unfoldable pub decode_from : ℕ → List ℕ → List Peer
unfolding node_of_bytes keep
decode_from zero buf = []
decode_from (suc rounds) buf =
    keep (node_of_bytes (drop 20 (take 26 buf))) (decode_from rounds (drop 26 buf))

-- `_decodeNodes`
unfoldable pub decode_nodes : Option (List ℕ) → List Peer
unfolding decode_from
decode_nodes none = []
decode_nodes (some buf) = decode_from (length buf / 26) buf

unfoldable pub peer_of_bytes : Option (List ℕ) → Option Peer
unfolding compact_address
peer_of_bytes (some (a ∷ b ∷ c ∷ d ∷ high ∷ low ∷ [])) =
    if ltb 0 (256 * high + low) then some (compact_address a b c d high low) else none
peer_of_bytes other = none

unfoldable pub decode_values : List (Option (List ℕ)) → List Peer
unfolding peer_of_bytes keep
decode_values [] = []
decode_values (v ∷ vs) = keep (peer_of_bytes v) (decode_values vs)

-- `_decodePeers`
unfoldable pub decode_peers : Option (List (Option (List ℕ))) → List Peer
unfolding decode_values
decode_peers none = []
decode_peers (some values) = decode_values values
