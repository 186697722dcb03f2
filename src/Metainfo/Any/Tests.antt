-- ===== src/Metainfo/Any/Tests.antt =====
-- Runs of `fetchFromAny`, and the theorems at concrete inputs.
use swarmproof.Metainfo.Any.Schedule.{was_found, fly-first_ok}
use swarmproof.Base.{
  List, [], arith, false, if◌then◌else◌, length, none, refl, some, true, ℕ, ◌<◌, ◌==◌, ◌∷◌, ◌≡◌,
  ◌≤◌,
}
use swarmproof.Base.Text.{text}
use swarmproof.Metainfo.{Meta}
use swarmproof.Metainfo.Any.{
  choose, fetch_from_any, fly, go_on, in_turn, land, land_pulled, landed, launch, learn, pull,
  put_back,
}
use swarmproof.Metainfo.Any.InTurn.{calls, first_ok, in_turn_lem}
use swarmproof.Metainfo.Any.Progress.{launch-progress, work}
use swarmproof.Metainfo.Fetch.{Result}
use swarmproof.PeerTable.{Peer, PeerTable, new_table, run, step}

abbrev peer_number : ℕ → Peer
peer_number n = record { host = text "8.8.8.8"; port = n }

abbrev sintel : Meta
sintel = record { name = text "Sintel"; size = 129; files = 1; paths = [] }

abbrev served : Result
served = record {
  ok = true;
  connected = true;
  connect_ms = some 141;
  total_ms = 400;
  metadata = some sintel;
}

abbrev refused : Result
refused = record {
  ok = false;
  connected = false;
  connect_ms = none;
  total_ms = 1200;
  metadata = none;
}

-- Only the third peer has the torrent.
abbrev answers : Peer → Result
answers p = if p.port == 3 then served else refused

abbrev three : List Peer
three = peer_number 1 ∷ peer_number 2 ∷ peer_number 3 ∷ []

abbrev empty_table : PeerTable
empty_table = new_table 100 2 1000

any_program : Unit {0}
unfolding fetch_from_any choose in_turn fly land land_pulled landed launch pull put_back go_on learn
    first_ok calls run step
any_program = tt

in_turn_run : (in_turn answers 0 none three).0 ≡ some served
unfolding any_program
in_turn_run = refl

-- Two at a time: the second ends first, so that the third is asked, and answers before the first.
race_run :
    (fetch_from_any answers 0 none three 8 2 ((1200, 1) ∷ (1600, 0) ∷ (2000, 0) ∷ [])).0
    ≡ some served
unfolding any_program
race_run = refl

in_turn_lem_example :
    ((in_turn answers 0 (some empty_table) three).0 ≡ first_ok answers three)
    × ((in_turn answers 0 (some empty_table) three).1
        ≡ some (run empty_table (calls answers 0 three)))
    × ((in_turn answers 0 (some empty_table) three).2 ≤ 3)
in_turn_lem_example = in_turn_lem answers 0 empty_table three

abbrev landing : List (ℕ × ℕ)
landing = (1200, 1) ∷ (1600, 0) ∷ (2000, 0) ∷ []

fly-first_ok_example :
    was_found (fly answers (launch none three 2) landing).winner
    ≡ was_found (first_ok answers three)
unfolding any_program
fly-first_ok_example = fly-first_ok answers none three 2 landing (omega arith) refl

launch-progress_example :
    (length (fly answers (launch none three 2) []).flying ≤ 2)
    × (work (launch none three 2) ≡ 3)
    × (1 < length (fly answers (launch none three 2) []).flying
        → work (land answers (fly answers (launch none three 2) []) (1200, 1))
          < work (fly answers (launch none three 2) []))
launch-progress_example = launch-progress answers none three 2 [] 1200 1
