-- ===== src/PeerTable.antt =====
-- peerTable.js: what is known of peer addresses across hashes. `Date.now()` is an argument of each
-- call, read once; the addresses are a `Map` keyed by `host:port`.
pub mod Bound
pub mod Liveness
pub mod Rank
mod Tests
use swarmproof.Base.{
  ℕ, ◌+◌, ◌*◌, ◌/◌, Bool, true, false, not, ◌&&◌, Option, none, some, List, [], ◌∷◌, ◌++◌, map, ltb,
  leb, if◌then◌else◌, length, take, drop, max,
}
use swarmproof.Base.Text.{Text}
use swarmproof.Base.Table.{lookup, set}
use swarmproof.Base.Sort.{sort}
use swarmproof.Base.Decimal.{decimal}

pub record Peer : Type 0 where
  pub host : Text
  pub port : ℕ

pub record Entry : Type 0 where
  pub ok : ℕ
  pub fail : ℕ
  pub last_ok : ℕ
  pub last_fail : ℕ
  pub rtt : Option ℕ
  pub seen : ℕ

pub record Stats : Type 0 where
  pub hits : ℕ
  pub skipped : ℕ
  pub promoted : ℕ
  pub evicted : ℕ

pub record PeerTable : Type 0 where
  pub max_addrs : ℕ
  pub dead_after : ℕ
  pub dead_ttl_ms : ℕ
  pub addrs : List (Text × Entry)
  pub stats : Stats

abbrev pub dead_after_failures : ℕ
dead_after_failures = 2

abbrev pub default_dead_ttl_ms : ℕ
default_dead_ttl_ms = 30 * 60 * 1000

abbrev pub default_max_addrs : ℕ
default_max_addrs = 200_000

unfoldable pub new_table : ℕ → ℕ → ℕ → PeerTable
new_table max_addrs dead_after dead_ttl_ms = record {
  max_addrs = max_addrs;
  dead_after = dead_after;
  dead_ttl_ms = dead_ttl_ms;
  addrs = [];
  stats = record { hits = 0; skipped = 0; promoted = 0; evicted = 0 };
}

-- `host:port`.
unfoldable pub key : Peer → Text
key p = p.host ++ b':' ∷ decimal p.port

-- The oldest tenth, at least one entry, leaves the table.
pub evict : PeerTable → PeerTable
evict t =
    let target = max 1 (t.max_addrs / 10) in
    record t {
      addrs = drop target t.addrs;
      stats = record (t.stats) { evicted = t.stats.evicted + length (take target t.addrs) };
    }

pub fresh_entry : ℕ → Entry
fresh_entry now = record { ok = 0; fail = 0; last_ok = 0; last_fail = 0; rtt = none; seen = now }

-- `_entry`: the table with an entry under the key, and that entry.
pub entry : ℕ → PeerTable → Text → PeerTable × Entry
unfolding evict fresh_entry
entry now t k = elim (lookup k t.addrs) [
  | some e ↦ (t, e)
  | none ↦
      let t' = if leb t.max_addrs (length t.addrs) then evict t else t in
      (record t' { addrs = set k (fresh_entry now) t'.addrs }, fresh_entry now)
]

-- The source changes the entry in place; here it is written back under its key.
pub put : PeerTable → Text → Entry → PeerTable
put t k e = record t { addrs = set k e t.addrs }

-- `rtt !== null && (e.rtt === null || rtt < e.rtt)`
pub best_rtt : Option ℕ → Option ℕ → Option ℕ
best_rtt none old = old
best_rtt (some r) none = some r
best_rtt (some r) (some o) = if ltb r o then some r else some o

pub succeeded : ℕ → PeerTable → Peer → Option ℕ → PeerTable
unfolding entry put
succeeded now t p rtt =
    let (t', e) = entry now t (key p) in
    put t' (key p) (record e { ok = e.ok + 1; last_ok = now; rtt = best_rtt rtt e.rtt })

pub failed : ℕ → PeerTable → Peer → Bool → PeerTable
unfolding entry put
failed now t p connected =
    let (t', e) = entry now t (key p) in
    if connected
    then put t' (key p) (record e { last_ok = now })
    else put t' (key p) (record e { fail = e.fail + 1; last_fail = now })

-- The three returns of `isDead` after the look-up. `now - e.lastFail < ttl` may have a negative left side.
unfoldable pub entry_dead : ℕ → PeerTable → Entry → Bool
entry_dead now t e =
    if ltb 0 e.ok
    then false
    else (if ltb e.fail t.dead_after then false else ltb now (e.last_fail + t.dead_ttl_ms))

unfoldable pub is_dead : ℕ → PeerTable → Text → Bool
unfolding entry_dead
is_dead now t k = elim (lookup k t.addrs) [ none ↦ false | some e ↦ entry_dead now t e ]

-- `e?.ok > 0`
unfoldable pub is_good : PeerTable → Text → Bool
is_good t k = elim (lookup k t.addrs) [ none ↦ false | some e ↦ ltb 0 e.ok ]

-- `e.rtt`, where `none` stands for `Infinity`.
pub rtt_of : PeerTable → Text → Option ℕ
rtt_of t k = elim (lookup k t.addrs) [ none ↦ none | some e ↦ e.rtt ]

-- `a.rtt - b.rtt <= 0`; `Infinity - Infinity` is not a number, which the sort takes as a tie.
pub rtt_le : Option ℕ → Option ℕ → Bool
rtt_le a none = true
rtt_le none (some b) = false
rtt_le (some a) (some b) = leb a b

pub faster : Peer × Option ℕ → Peer × Option ℕ → Bool
unfolding rtt_le
faster a b = rtt_le a.1 b.1

-- The loop of `rank`: the good peers with their connect times, the unknown ones, and the counters.
pub record Split : Type 0 where
  pub good : List (Peer × Option ℕ)
  pub unknown : List Peer
  pub skipped : ℕ
  pub hits : ℕ

unfoldable pub split : ℕ → PeerTable → List Peer → Split
unfolding is_good rtt_of
split now t [] = record { good = []; unknown = []; skipped = 0; hits = 0 }
split now t (p ∷ ps) =
    let r = split now t ps in
    if is_dead now t (key p)
    then record r { skipped = r.skipped + 1 }
    else (if is_good t (key p)
        then record r { good = (p, rtt_of t (key p)) ∷ r.good; hits = r.hits + 1 }
        else record r { unknown = p ∷ r.unknown })

peer_of : Peer × Option ℕ → Peer
peer_of g = g.0

-- The whole order of preference, before the limit.
unfoldable pub order : ℕ → PeerTable → List Peer → List Peer
unfolding faster peer_of
order now t peers = let r = split now t peers in map peer_of (sort faster r.good) ++ r.unknown

any_good : List (Peer × Option ℕ) → ℕ
any_good [] = 0
any_good (g ∷ gs) = 1

unfoldable pub rank : ℕ → PeerTable → List Peer → ℕ → PeerTable × List Peer
unfolding order any_good
rank now t peers limit =
    let r = split now t peers in
    (
      record t {
        stats = record (t.stats) {
          skipped = t.stats.skipped + r.skipped;
          hits = t.stats.hits + r.hits;
          promoted = t.stats.promoted + any_good r.good;
        };
      },
      take limit (order now t peers),
    )

pub observe : ℕ → PeerTable → List Peer → PeerTable
observe now t [] = t
observe now t (p ∷ ps) = observe now (entry now t (key p)).0 ps

pub record Counts : Type 0 where
  pub alive : ℕ
  pub dead : ℕ

pub count_entries : ℕ → PeerTable → List (Text × Entry) → Counts
count_entries now t [] = record { alive = 0; dead = 0 }
count_entries now t ((k, e) ∷ m) =
    let r = count_entries now t m in
    if ltb 0 e.ok
    then record r { alive = r.alive + 1 }
    else (if is_dead now t k then record r { dead = r.dead + 1 } else r)

pub record Summary : Type 0 where
  pub tracked : ℕ
  pub alive : ℕ
  pub dead : ℕ
  pub stats : Stats

pub summary : ℕ → PeerTable → Summary
unfolding count_entries
summary now t =
    let c = count_entries now t t.addrs in
    record { tracked = length t.addrs; alive = c.alive; dead = c.dead; stats = t.stats }

-- A call on the table, with the clock's reading.
pub data Call : Type 0 where
  succeeds : ℕ → Peer → Option ℕ → Call
  fails : ℕ → Peer → Bool → Call
  ranks : ℕ → List Peer → ℕ → Call
  observes : ℕ → List Peer → Call

unfoldable pub step : PeerTable → Call → PeerTable
step t (succeeds now p rtt) = succeeded now t p rtt
step t (fails now p connected) = failed now t p connected
step t (ranks now ps limit) = (rank now t ps limit).0
step t (observes now ps) = observe now t ps

unfoldable pub run : PeerTable → List Call → PeerTable
run t [] = t
run t (c ∷ cs) = run (step t c) cs
