-- ===== src/Scout/Verdict/Proof.antt =====
-- swarmScout.js, `assess`: what a verdict stands for, and what a refutation costs.
use swarmproof.Metainfo.{Meta}
use swarmproof.Base.{
  Bool, List, Option, [], arith, false, leb, length, none, not, some, true, ℕ, ◌&&◌, ◌*◌, ◌+◌, ◌↔◌,
  ◌∷◌, ◌≡◌, ◌≢◌, ◌≤◌,
}
use swarmproof.PeerTable.{Peer}
use swarmproof.Scout.Verdict.{
  Attempt, Ranked, assess_one, attempted, damp, expired, has_meta, is_expired, is_none, proved,
  refutation_min_peers, unproved, verdict_of, verified,
}

verdict_of_verified :
    (m : Option Meta) (peers : List Peer) (n : ℕ) → (verdict_of m peers n ≡ verified) ↔ (m ≢ none)
unfolding verdict_of
verdict_of_verified (some m) peers n = ground arith
verdict_of_verified none (p ∷ ps) n = ground arith
verdict_of_verified none [] n = ground arith

-- The only verdict that calls a torrent verified is the one that comes with its metadata.
pub verified_iff_metadata :
    (verify : Bool) (attempt : Attempt) (r : Ranked)
    → ((assess_one verify attempt r).verdict ≡ verified)
      ↔ ((assess_one verify attempt r).metadata ≢ none)
unfolding assess_one
verified_iff_metadata verify attempt r =
    verdict_of_verified (has_meta (attempted verify r.peers attempt)) r.peers
      (r.seeders + r.leechers)

refuted_by :
    (verify : Bool) (attempt : Attempt) (peers : List Peer)
    → ((verify
          && is_none (has_meta (attempted verify peers attempt))
          && not (is_expired (attempted verify peers attempt))
          && leb refutation_min_peers (length peers))
        ≡ true)
      ↔ ((verify ≡ true) × (attempt ≡ unproved) × (refutation_min_peers ≤ length peers))
unfolding attempted has_meta is_expired is_none
refuted_by false attempt peers = ground arith
refuted_by true attempt [] = ground arith
refuted_by true (proved m) (p ∷ ps) = ground arith
refuted_by true unproved (p ∷ ps) = ground arith
refuted_by true expired (p ∷ ps) = ground arith

-- An entry is refuted just if verification was asked for, it has enough peers, and asking them ended
-- within the deadline without metadata. A deadline that passes is not a refutation.
pub refuted_iff :
    (verify : Bool) (attempt : Attempt) (r : Ranked)
    → ((assess_one verify attempt r).refuted ≡ true)
      ↔ ((verify ≡ true) × (attempt ≡ unproved) × (refutation_min_peers ≤ length r.peers))
unfolding assess_one
refuted_iff verify attempt r = refuted_by verify attempt r.peers

-- Whatever the attempt gives, the score never rises: a refuted entry keeps about a tenth, every other
-- entry keeps its score, and the score before is kept beside it.
pub assess_one-score :
    (verify : Bool) (attempt : Attempt) (r : Ranked)
    → ((assess_one verify attempt r).score ≤ r.score)
      × ((assess_one verify attempt r).refuted ≡ false
          → (assess_one verify attempt r).score ≡ r.score)
      × ((assess_one verify attempt r).refuted ≡ true
          → 10 * (assess_one verify attempt r).score ≤ r.score + 5)
      × ((assess_one verify attempt r).raw_score ≡ r.score)
unfolding assess_one damp
assess_one-score verify attempt r = grind arith
