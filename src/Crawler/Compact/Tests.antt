-- ===== src/Crawler/Compact/Tests.antt =====
-- dhtCrawler.js, `_decodeNodes` and `_decodePeers`: runs.
use swarmproof.Base.{List, [], none, refl, some, ℕ, ◌∷◌, ◌≡◌}
use swarmproof.Crawler.Compact.{
  compact_address, decode_from, decode_nodes, decode_peers, decode_values, keep, node_of_bytes,
  peer_of_bytes,
}
use swarmproof.Crawler.Compact.RoundTrip.{NodeBytes, laid_out, peer_at}

abbrev an_id : List ℕ
an_id =
    1 ∷ 2 ∷ 3 ∷ 4 ∷ 5 ∷ 6 ∷ 7 ∷ 8 ∷ 9 ∷ 10 ∷ 11 ∷ 12 ∷ 13 ∷ 14 ∷ 15 ∷ 16 ∷ 17 ∷ 18 ∷ 19 ∷ 20 ∷ []

abbrev two_records : List NodeBytes
two_records =
    record { id = an_id; a = 8; b = 8; c = 4; d = 4; high = 26; low = 225 }
    ∷ record { id = an_id; a = 9; b = 9; c = 9; d = 9; high = 0; low = 0 }
    ∷ []

first_port :
    decode_nodes (some (laid_out two_records (7 ∷ [])))
    ≡ peer_at (record { id = an_id; a = 8; b = 8; c = 4; d = 4; high = 26; low = 225 }) ∷ []
unfolding decode_nodes decode_from keep node_of_bytes laid_out compact_address
first_port = refl

peers_of_a_reply :
    decode_peers (some (some (8 ∷ 8 ∷ 4 ∷ 4 ∷ 26 ∷ 225 ∷ []) ∷ none ∷ some (1 ∷ 2 ∷ []) ∷ []))
    ≡ compact_address 8 8 4 4 26 225 ∷ []
unfolding decode_peers decode_values peer_of_bytes keep
peers_of_a_reply = refl
