-- ===== src/Worker/Health.antt =====
-- worker/src/index.js: swarm health. A `HealthCoalescer` is single-threaded, so that a request is one
-- step on its state; `cached` and the object's storage hold the same value and are one field here.
pub mod Merge
pub mod Rate
mod Tests
use swarmproof.Base.{
  Bool, List, Option, [], false, if◌then◌else◌, leb, ltb, none, some, suc, zero, ℕ, ◌&&◌, ◌+◌, ◌-◌,
  ◌==◌, ◌||◌, ◌∷◌,
}
use swarmproof.Base.Text.{Text}
use swarmproof.PeerTable.{entry}

pub record HealthEntry : Type 0 where
  pub seeders : ℕ
  pub leechers : ℕ
  pub dht_peer_count : ℕ
  pub reports : ℕ
  pub ts : ℕ

pub record Observation : Type 0 where
  pub info_hash : Text
  pub seeders : ℕ
  pub leechers : ℕ
  pub dht_peer_count : ℕ

abbrev pub health_coalesce_ms : ℕ
health_coalesce_ms = 120_000

abbrev pub fresh_ms : ℕ
fresh_ms = 120_000

abbrev pub recent_ms : ℕ
recent_ms = 600_000

pub data Confidence : Type 0 where
  fresh recent stale : Confidence

-- What a client is told of an entry.
pub record Described : Type 0 where
  pub seeders : ℕ
  pub leechers : ℕ
  pub dht_peer_count : ℕ
  pub ts : ℕ
  pub age : ℕ
  pub confidence : Confidence

unfoldable pub describe : HealthEntry → ℕ → Described
describe entry now =
    let age = now - entry.ts in
    record {
      seeders = entry.seeders;
      leechers = entry.leechers;
      dht_peer_count = entry.dht_peer_count;
      ts = entry.ts;
      age = age;
      confidence =
          if leb age fresh_ms then fresh else (if leb age recent_ms then recent else stale);
    }

-- `a || b` on counts.
unfoldable pub or_else : ℕ → ℕ → ℕ
or_else zero b = b
or_else (suc a) b = suc a

unfoldable pub merge_over : Observation → HealthEntry → ℕ → HealthEntry
unfolding or_else
merge_over obs prev now = record {
  seeders = or_else obs.seeders prev.seeders;
  leechers = or_else obs.leechers prev.leechers;
  dht_peer_count = or_else obs.dht_peer_count prev.dht_peer_count;
  reports = prev.reports + 1;
  ts = now;
}

pub no_entry : HealthEntry
no_entry = record { seeders = 0; leechers = 0; dht_peer_count = 0; reports = 0; ts = 0 }

-- `zeroed && prev && (prev.seeders > 0 || prev.dhtPeerCount > 0)`
unfoldable pub discards : Observation → HealthEntry → Bool
discards obs prev =
    (obs.seeders == 0 && obs.leechers == 0 && obs.dht_peer_count == 0)
    && (ltb 0 prev.seeders || ltb 0 prev.dht_peer_count)

unfoldable pub merge_health : Option HealthEntry → Observation → ℕ → Option HealthEntry
unfolding merge_over no_entry discards
merge_health none obs now = some (merge_over obs no_entry now)
merge_health (some prev) obs now =
    if discards obs prev then none else some (merge_over obs prev now)

pub data Outcome : Type 0 where
  ignored_zero coalesced kv_throttled written : Outcome

-- `prev && now - prev.ts < HEALTH_COALESCE_MS`
unfoldable pub too_soon : Option HealthEntry → ℕ → Bool
too_soon none now = false
too_soon (some prev) now = ltb now (prev.ts + health_coalesce_ms)

-- `HealthCoalescer.fetch`. The flag says whether the key-value store takes the write.
unfoldable pub report : Option HealthEntry → ℕ → Observation → Bool → Option HealthEntry × Outcome
unfolding too_soon
report cached now obs kv_accepts = elim (merge_health cached obs now) [
  | none ↦ (cached, ignored_zero)
  | some next ↦
      if too_soon cached now
      then (cached, coalesced)
      else (some next, if kv_accepts then written else kv_throttled)
]

-- A request to one coalescer: the clock, the observation, and what the store does with a write.
pub record Request : Type 0 where
  pub now : ℕ
  pub obs : Observation
  pub kv_accepts : Bool

pub serve : Option HealthEntry → List Request → Option HealthEntry
serve cached [] = cached
serve cached (r ∷ rs) = serve (report cached r.now r.obs r.kv_accepts).0 rs

-- The writes that the key-value store is asked for.
pub is_put : Outcome → ℕ
is_put ignored_zero = 0
is_put coalesced = 0
is_put kv_throttled = 1
is_put written = 1

pub puts : Option HealthEntry → List Request → ℕ
unfolding is_put
puts cached [] = 0
puts cached (r ∷ rs) =
    let (cached', outcome) = report cached r.now r.obs r.kv_accepts in
    is_put outcome + puts cached' rs
