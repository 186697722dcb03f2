-- ===== src/Scout/Verdict.antt =====
-- swarmScout.js, `assess`: what asking the peers establishes, and the order that follows from it.
--
-- What `fetchFromAny` gives within the deadline is an argument, by infohash.
pub mod Order
pub mod Proof
pub mod Asked
mod Tests
use swarmproof.Metainfo.{Meta}
use swarmproof.Base.{
  Bool, List, Option, [], false, if◌then◌else◌, leb, length, ltb, map, none, not, some, true, ℕ,
  ◌&&◌, ◌+◌, ◌/◌, ◌==◌, ◌∷◌,
}
use swarmproof.Base.Sort.{sort}
use swarmproof.Base.Text.{Text}
use swarmproof.PeerTable.{Peer}

abbrev pub refutation_min_peers : ℕ
refutation_min_peers = 5

-- A ranked entry, as `assess` reads it.
pub record Ranked : Type 0 where
  pub info_hash : Text
  pub score : ℕ
  pub peers : List Peer
  pub seeders : ℕ
  pub leechers : ℕ

-- The race between the attempt and the deadline: the metadata, no peer that served it, or neither in
-- time.
pub data Attempt : Type 0 where
  proved : Meta → Attempt
  unproved : Attempt
  expired : Attempt

pub data Verdict : Type 0 where
  verified reachable claimed none_found : Verdict

pub record Assessed : Type 0 where
  pub info_hash : Text
  pub verdict : Verdict
  pub score : ℕ
  pub refuted : Bool
  pub raw_score : ℕ
  pub timed_out : Bool
  pub metadata : Option Meta

-- An attempt is made only if there are peers, and verification is asked for.
pub attempted : Bool → List Peer → Attempt → Attempt
attempted false peers a = unproved
attempted true [] a = unproved
attempted true (p ∷ ps) a = a

pub has_meta : Attempt → Option Meta
has_meta (proved m) = some m
has_meta unproved = none
has_meta expired = none

pub is_expired : Attempt → Bool
is_expired (proved m) = false
is_expired unproved = false
is_expired expired = true

pub is_none : Option Meta → Bool
is_none none = true
is_none (some m) = false

pub verdict_of : Option Meta → List Peer → ℕ → Verdict
verdict_of (some m) peers claims = verified
verdict_of none (p ∷ ps) claims = reachable
verdict_of none [] claims = if ltb 0 claims then claimed else none_found

-- `Math.round(score * REFUTED_SCORE_FACTOR)`, a tenth.
pub damp : ℕ → ℕ
damp score = (score + 5) / 10

unfoldable pub assess_one : Bool → Attempt → Ranked → Assessed
unfolding attempted has_meta is_expired is_none verdict_of damp
assess_one verify attempt r =
    let a = attempted verify r.peers attempt in
    let refuted =
      verify
      && is_none (has_meta a)
      && not (is_expired a)
      && leb refutation_min_peers (length r.peers) in
    record {
      info_hash = r.info_hash;
      verdict = verdict_of (has_meta a) r.peers (r.seeders + r.leechers);
      score = if refuted then damp r.score else r.score;
      refuted = refuted;
      raw_score = r.score;
      timed_out = is_expired a;
      metadata = has_meta a;
    }

unfoldable pub tier : Verdict → Bool → ℕ
tier verified refuted = 0
tier reachable refuted = if refuted then 3 else 1
tier claimed refuted = 2
tier none_found refuted = 4

unfoldable pub tier_of : Assessed → ℕ
unfolding tier
tier_of r = tier r.verdict r.refuted

-- `tierOf(a) - tierOf(b) || b.score - a.score`
pub comes_before : Assessed → Assessed → Bool
unfolding tier_of
comes_before a b =
    if tier_of a == tier_of b then leb b.score a.score else ltb (tier_of a) (tier_of b)

pub assess_all : Bool → (Text → Attempt) → List Ranked → List Assessed
unfolding assess_one
assess_all verify attempt rs = map (λ r. assess_one verify (attempt r.info_hash) r) rs

pub assess : Bool → (Text → Attempt) → List Ranked → List Assessed
unfolding assess_all comes_before
assess verify attempt rs = sort comes_before (assess_all verify attempt rs)
