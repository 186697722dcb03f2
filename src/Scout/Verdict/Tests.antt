-- ===== src/Scout/Verdict/Tests.antt =====
-- Runs of `assess` of swarmScout.js, and the theorems at concrete inputs.
use swarmproof.Base.{
  ◌≢◌, arith, false, length, none, some, ℕ, All, List, [], drop, if◌then◌else◌, map, refl, take,
  true, ◌↔◌, ◌∷◌, ◌≡◌, ◌≤◌,
}
use swarmproof.Base.Sort.{insert, sort}
use swarmproof.Base.Text.{Text, same, text}
use swarmproof.Metainfo.{Meta}
use swarmproof.PeerTable.{Peer, PeerTable, is_dead, is_good, new_table, order, rank, split}
use swarmproof.Scout.Verdict.{
  Assessed, Attempt, Ranked, assess, assess_all, assess_one, attempted, comes_before, damp,
  has_meta, is_expired, is_none, proved, refutation_min_peers, tier, tier_of, unproved, verdict_of,
  verified,
}
use swarmproof.Scout.Verdict.Order.{assess-verified}
use swarmproof.Scout.Verdict.Asked.{AllLanded, peers_answer, asked, attempt_of, refuted-asked}
use swarmproof.Metainfo.Fetch.{Result}
use swarmproof.Metainfo.Any.{
  choose, fetch_from_any, fly, go_on, land, land_pulled, landed, launch, pull, put_back,
}
use swarmproof.PeerTable.Rank.{alive}
use swarmproof.Base.Table.{lookup}

verdict_program : Unit {0}
unfolding assess assess_all assess_one attempted has_meta is_expired is_none verdict_of damp tier
    tier_of comes_before sort insert same
verdict_program = tt

abbrev peer_number : ℕ → Peer
peer_number n = record { host = text "8.8.8.8"; port = n }

abbrev five_peers : List Peer
five_peers = peer_number 1 ∷ peer_number 2 ∷ peer_number 3 ∷ peer_number 4 ∷ peer_number 5 ∷ []

abbrev crowded : Ranked
crowded = record {
  info_hash = text "00";
  score = 958;
  peers = five_peers;
  seeders = 45;
  leechers = 465;
}

abbrev lone : Ranked
lone = record {
  info_hash = text "aa";
  score = 14;
  peers = peer_number 1 ∷ [];
  seeders = 1;
  leechers = 0;
}

abbrev told : Ranked
told = record { info_hash = text "bb"; score = 300; peers = []; seeders = 30; leechers = 0 }

abbrev sintel : Meta
sintel = record { name = text "Sintel"; size = 129; files = 1; paths = [] }

abbrev attempts : Text → Attempt
attempts hash = if same hash (text "aa") then proved sintel else unproved

abbrev hashes_of : List Assessed → List Text
hashes_of rs = map (λ a. a.info_hash) rs

-- The proven one first, then the one that could not be checked, then the refuted one.
assess_run :
    hashes_of (assess true attempts (crowded ∷ told ∷ lone ∷ []))
    ≡ text "aa" ∷ text "bb" ∷ text "00" ∷ []
unfolding verdict_program
assess_run = refl

assess_score_run : (assess_one true unproved crowded).score ≡ 96
unfolding verdict_program
assess_score_run = refl

abbrev refused : Result
refused = record {
  ok = false;
  connected = false;
  connect_ms = none;
  total_ms = 1200;
  metadata = none;
}

abbrev no_answer : Peer → Result
no_answer p = refused

abbrev one_by_one : List (ℕ × ℕ)
one_by_one = (10, 0) ∷ (20, 0) ∷ (30, 0) ∷ (40, 0) ∷ (50, 0) ∷ []

abbrev fresh_table : PeerTable
fresh_table = new_table 100 2 1000

all_landed : AllLanded no_answer 0 fresh_table crowded 40 2 one_by_one
unfolding fly land land_pulled landed launch pull put_back go_on rank order split is_dead is_good
    new_table sort lookup
all_landed = refl

no_peer_serves :
    (x : Result)
    → peers_answer no_answer 0 fresh_table crowded 40 2 one_by_one ≡ some x
    → x.metadata ≢ none
unfolding fetch_from_any choose fly land land_pulled landed launch pull put_back go_on rank order
    split is_dead is_good new_table sort lookup
no_peer_serves x e = let off : ⊥ = cc in elim off [ ]

refuted-asked_example :
    (((assess_one true
          (attempt_of (peers_answer no_answer 0 fresh_table crowded 40 2 one_by_one))
          crowded).refuted
        ≡ true)
      ↔ ((refutation_min_peers ≤ length crowded.peers)
          × All (λ p. (no_answer p).ok ≡ false) (asked 0 fresh_table crowded 40)))
    × (All (λ p. alive 0 fresh_table p ≡ false) crowded.peers
        → refutation_min_peers ≤ length crowded.peers
        → (asked 0 fresh_table crowded 40 ≡ [])
          × ((assess_one true
                (attempt_of (peers_answer no_answer 0 fresh_table crowded 40 2 one_by_one))
                crowded).refuted
              ≡ true))
refuted-asked_example =
    refuted-asked no_answer 0 fresh_table crowded 40 2 one_by_one (omega arith) all_landed
      no_peer_serves

assess-verified_example :
    All
      (λ a.
        All
          (λ b. b.verdict ≡ verified → a.verdict ≡ verified)
          (drop 1 (assess true attempts (crowded ∷ told ∷ lone ∷ []))))
      (take 1 (assess true attempts (crowded ∷ told ∷ lone ∷ [])))
assess-verified_example = assess-verified true attempts (crowded ∷ told ∷ lone ∷ []) 1
