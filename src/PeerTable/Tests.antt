-- ===== src/PeerTable/Tests.antt =====
-- Runs of peerTable.js at concrete inputs, and the theorems there.
use mathlib.Core.List.{Perm}
use swarmproof.Base.{List, [], arith, drop, false, filter, length, refl, some, ◌∷◌, ◌≡◌, ◌≤◌}
use swarmproof.Base.Decimal.{decimal}
use swarmproof.Base.Sort.{AllPairs, Sorted, insert, sort}
use swarmproof.Base.Table.{lookup, set}
use swarmproof.Base.Text.{same, text}
use swarmproof.PeerTable.{
  Call, Peer, PeerTable, best_rtt, count_entries, entry, entry_dead, evict, failed, fails, faster,
  fresh_entry, is_dead, is_good, key, new_table, observe, order, peer_of, put, rank, rtt_le, rtt_of,
  run, split, step, succeeded, succeeds, summary,
}
use swarmproof.PeerTable.Bound.{Bounded, new_table-Inv, run-Bounded}
use swarmproof.PeerTable.Rank.{alive, no_worse, rank_all, rank_best}

program : Unit {0}
unfolding new_table key entry put evict fresh_entry succeeded failed is_dead entry_dead is_good
    rtt_of best_rtt rank split order step run observe decimal lookup set same
program = tt

abbrev near : Peer
near = record { host = text "10.0.0.7"; port = 6881 }

abbrev far : Peer
far = record { host = text "192.0.2.1"; port = 51413 }

abbrev gone : Peer
gone = record { host = text "198.51.100.9"; port = 6881 }

abbrev lost : Peer
lost = record { host = text "203.0.113.5"; port = 80 }

abbrev calls : List Call
calls =
    succeeds 1000 far (some 90)
    ∷ fails 1100 gone false
    ∷ fails 2300 gone false
    ∷ succeeds 2400 near (some 4)
    ∷ []

abbrev small : PeerTable
small = new_table 4 2 1800000

abbrev learned : PeerTable
learned = run small calls

abbrev offered : List Peer
offered = lost ∷ gone ∷ far ∷ near ∷ []

-- The fastest peer that answered comes first, the dead one is skipped, the unknown one comes last.
ranked_run : (rank 3000 learned offered 8).1 ≡ near ∷ far ∷ lost ∷ []
unfolding program sort peer_of faster rtt_le insert
ranked_run = refl

-- Half an hour later the dead one is offered again.
ranked_later : (rank 1802300 learned offered 8).1 ≡ near ∷ far ∷ lost ∷ gone ∷ []
unfolding program sort peer_of faster rtt_le insert
ranked_later = refl

summary_run : (summary 3000 learned).dead ≡ 1
unfolding program summary count_entries
summary_run = refl

rank_best_example :
    Sorted (no_worse learned) (rank 3000 learned offered 2).1
    × AllPairs
        (no_worse learned)
        (rank 3000 learned offered 2).1
        (drop 2 (order 3000 learned offered))
    × (length (rank 3000 learned offered 2).1 ≤ 2)
rank_best_example = rank_best 3000 learned offered 2

rank_all_example : Perm (rank 3000 learned offered 8).1 (filter (alive 3000 learned) offered)
rank_all_example = rank_all 3000 learned offered 8 (omega arith)

small-Bounded : Bounded small
unfolding new_table
small-Bounded = record { positive = omega arith; inv = new_table-Inv 4 2 1800000 }

run-Bounded_example : Bounded (run small calls)
run-Bounded_example = run-Bounded small calls small-Bounded
