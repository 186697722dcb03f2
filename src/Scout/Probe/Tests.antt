-- ===== src/Scout/Probe/Tests.antt =====
-- Runs of what a probe keeps, and the theorems at concrete inputs.
use swarmproof.PeerCache.{is_usable, NodeRow, PeerCache, default_ttl_ms}
use swarmproof.Base.{List, Option, [], false, map, none, refl, some, ℕ, ◌∷◌, ◌≡◌}
use swarmproof.Base.Sort.{insert, sort}
use swarmproof.Base.Text.{text}
use swarmproof.PeerTable.{Peer}
use swarmproof.Scout.Probe.{
  Contact, cached_of, contact_node, fresher, from_shared, has_answered, persist_given,
  persist_nodes, probe_candidate, responsive, seen_at, seen_since,
}

abbrev contact_at : ℕ → Option ℕ → Contact
contact_at port seen = record { node = record { host = text "1.1.1.1"; port = port }; seen = seen }

-- One that has never answered, one long ago, and two lately.
abbrev routing : List Contact
routing =
    contact_at 1 none
    ∷ contact_at 2 (some 5)
    ∷ contact_at 3 (some 1000000)
    ∷ contact_at 4 (some 1500000)
    ∷ []

abbrev no_cache : PeerCache
no_cache = record { ttl_ms = default_ttl_ms; closed = false; swarms = []; nodes = [] }

abbrev as_they_are : List NodeRow → List NodeRow
as_they_are rows = rows

probe_program : Unit {0}
unfolding is_usable persist_nodes persist_given responsive has_answered seen_since fresher seen_at
    contact_node sort insert probe_candidate cached_of from_shared
probe_program = tt

persist_run :
    map (λ (p : Peer). p.port) (persist_nodes as_they_are false 1600000 routing no_cache).1
    ≡ 4 ∷ 3 ∷ []
unfolding probe_program
persist_run = refl
