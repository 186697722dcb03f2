-- ===== src/Stream/Player.antt =====
-- streamServer.js: the player. `play`, the race of the candidates (`_advanceToNextCandidate`,
-- `_doAdvance`, `_waitForMetadata`), `abort` and the watchdog's timer.
--
-- A race waits twice: until the old torrent is destroyed, and until a candidate is playable. What it
-- does between is one step, and everything else can happen while it waits. `_switching` is set just
-- while a phase other than `at_rest` lasts. The field `candidateIndex`, which nothing reads, is left
-- out.
pub mod Shortlist
pub mod Busy
pub mod Failover
pub mod Superseded
pub mod Settled
mod Tests
use swarmproof.Stream.Range.{RangeReply, handle_request}
use swarmproof.Base.{
  Bool, List, Option, [], any, false, filter, if◌then◌else◌, ltb, map, none, not, some, suc, take,
  true, zero, ℕ, ◌++◌, ◌∷◌,
}
use swarmproof.Base.Text.{Text, same}
use swarmproof.Crawler.Stages.{nth}
use swarmproof.PeerCache.{is_usable}
use swarmproof.PeerTable.{Peer}
use swarmproof.Stream.Media.{File, pick_media_file}
use swarmproof.Stream.Watchdog.{Check, Reading, Watch, check_swarm}

abbrev pub max_injected_peers : ℕ
max_injected_peers = 12

abbrev pub max_racers : ℕ
max_racers = 4

pub record Candidate : Type 0 where
  pub info_hash : Text
  pub score : ℕ
  pub peers : List Peer

pub record Racer : Type 0 where
  pub candidate : Candidate
  pub waits : Bool

pub data Phase : Type 0 where
  at_rest : Phase
  tearing_down : List Candidate → Phase
  racing : List Racer → Phase

-- The torrent that is played, and the file of it that is served.
pub record Active : Type 0 where
  pub candidate : Candidate
  pub file : File

pub record Player : Type 0 where
  pub ranked : List Candidate
  pub excluded : List Text
  pub phase : Phase
  pub is_aborted : Bool
  pub active : Option Active
  pub watch : Option Watch
  pub strikes : ℕ

unfoldable pub new_player : Player
new_player = record {
  ranked = [];
  excluded = [];
  phase = at_rest;
  is_aborted = false;
  active = none;
  watch = none;
  strikes = 0;
}

pub data PlayError : Type 0 where
  nothing_supplied superseded exhausted none_playable : PlayError

-- What a call of `play` or a failover comes to: it still waits, it has resolved, or it has thrown.
pub data PlayOutcome : Type 0 where
  waiting resolved : PlayOutcome
  thrown : PlayError → PlayOutcome

unfoldable pub has_hash : Text → List Text → Bool
has_hash h hashes = any (λ k. same k h) hashes

unfoldable pub collapse_from : List Text → List Candidate → List Candidate
unfolding has_hash
collapse_from seen [] = []
collapse_from seen (c ∷ cs) =
    let skip = collapse_from seen cs in
    let keep = c ∷ collapse_from (c.info_hash ∷ seen) cs in
    if has_hash c.info_hash seen then skip else keep

-- The candidates that a score speaks for, or all where none has one.
unfoldable pub scored_or_all : List Candidate → List Candidate → List Candidate
scored_or_all [] cs = cs
scored_or_all (c ∷ scored) cs = c ∷ scored

unfoldable pub play_list : List Candidate → List Candidate
unfolding collapse_from scored_or_all
play_list cs = collapse_from [] (scored_or_all (filter (λ c. ltb 0 c.score) cs) cs)

unfoldable pub remaining : List Candidate → List Text → List Candidate
unfolding has_hash
remaining ranked excluded = filter (λ c. not (has_hash c.info_hash excluded)) ranked

unfoldable pub new_racer : Candidate → Racer
new_racer c = record { candidate = c; waits = true }

unfoldable pub begin_racing : List Candidate → Phase
unfolding new_racer
begin_racing cs = racing (map new_racer cs)

-- `_teardownTorrent`, for which the race waits where a torrent is active.
unfoldable pub enter_race : List Candidate → Option Active → Player → Player × PlayOutcome
unfolding begin_racing
enter_race cs none s = (record s { phase = begin_racing cs }, waiting)
enter_race cs (some a) s = (record s { phase = tearing_down cs; active = none }, waiting)

-- `_doAdvance` with the candidates that remain.
unfoldable pub begin_race : List Candidate → Player → Player × PlayOutcome
unfolding enter_race
begin_race [] s = (s, thrown exhausted)
begin_race (c ∷ cs) s = enter_race (take max_racers (c ∷ cs)) s.active s

unfoldable pub do_advance : Player → Player × PlayOutcome
unfolding begin_race remaining
do_advance s =
    let s' = record s { watch = none } in
    if s.is_aborted then (s', thrown superseded) else begin_race (remaining s.ranked s.excluded) s'

unfoldable pub is_switching : Phase → Bool
is_switching at_rest = false
is_switching (tearing_down cs) = true
is_switching (racing rs) = true

-- `_advanceToNextCandidate`: while a race is on, the call returns and nothing happens.
unfoldable pub advance : Player → Player × PlayOutcome
unfolding do_advance is_switching
advance s = if is_switching s.phase then (s, resolved) else do_advance s

-- `play`; a call without candidates throws when it has set the list.
unfoldable pub play : List Candidate → Player → Player × PlayOutcome
unfolding play_list advance
play [] s = (record s { ranked = [] }, thrown nothing_supplied)
play (c ∷ cs) s =
    advance (record s { ranked = play_list (c ∷ cs); is_aborted = false; excluded = [] })

unfoldable pub torn_down : Phase → Phase
unfolding begin_racing
torn_down at_rest = at_rest
torn_down (tearing_down cs) = begin_racing cs
torn_down (racing rs) = racing rs

unfoldable pub give_up : ℕ → List Racer → List Racer
give_up i [] = []
give_up zero (r ∷ rs) = record r { waits = false } ∷ rs
give_up (suc i) (r ∷ rs) = r ∷ give_up i rs

unfoldable pub racer_hash : Racer → Text
racer_hash r = r.candidate.info_hash

-- A racer has failed: when all have, `Promise.any` rejects, and all are excluded.
unfoldable pub racer_lost : List Racer → Player → Player × PlayOutcome
unfolding racer_hash
racer_lost rs s = if any (λ r. r.waits) rs then (record s { phase = racing rs }, waiting) else (
  record s { phase = at_rest; excluded = map racer_hash rs ++ s.excluded },
  thrown (if s.is_aborted then superseded else none_playable),
)

-- The first racer that is playable: it becomes the torrent, unless the race was aborted.
unfoldable pub racer_won : Candidate → File → ℕ → ℕ → Player → Player × PlayOutcome
racer_won c file downloaded now s =
    if s.is_aborted then (record s { phase = at_rest }, thrown superseded) else (
      record s {
        phase = at_rest;
        active = some (record { candidate = c; file = file });
        excluded = c.info_hash ∷ s.excluded;
        watch = some (record { last_downloaded = downloaded; started_at = now });
      },
      resolved,
    )

-- How `_waitForMetadata` ends for a racer: with the files of the torrent, or without.
pub data RacerEnd : Type 0 where
  is_ready : List File → RacerEnd
  errs closes times_out : RacerEnd

unfoldable pub playable_file : RacerEnd → Option File
playable_file (is_ready files) = pick_media_file files
playable_file errs = none
playable_file closes = none
playable_file times_out = none

unfoldable pub racer_done :
    ℕ → List Racer → Candidate → Option File → ℕ → ℕ → Player → Player × PlayOutcome
unfolding racer_lost racer_won give_up
racer_done i rs c none downloaded now s = racer_lost (give_up i rs) s
racer_done i rs c (some file) downloaded now s = racer_won c file downloaded now s

-- A racer that has failed before does not end again.
unfoldable pub racer_at :
    ℕ → List Racer → Option Racer → RacerEnd → ℕ → ℕ → Player → Player × PlayOutcome
unfolding racer_done playable_file
racer_at i rs none e downloaded now s = (s, waiting)
racer_at i rs (some r) e downloaded now s =
    if r.waits then racer_done i rs r.candidate (playable_file e) downloaded now s else (s, waiting)

unfoldable pub racer_ended : ℕ → RacerEnd → ℕ → ℕ → Phase → Player → Player × PlayOutcome
unfolding racer_at
racer_ended i e downloaded now at_rest s = (s, waiting)
racer_ended i e downloaded now (tearing_down cs) s = (s, waiting)
racer_ended i e downloaded now (racing rs) s = racer_at i rs (nth i rs) e downloaded now s

unfoldable pub abort : Player → Player
abort s = record s { is_aborted = true; watch = none; active = none }

unfoldable pub apply_check : Check → Player → Player × PlayOutcome
unfolding advance
apply_check k s =
    let s' = record s { watch = some k.watch; strikes = k.strikes } in
    if k.fails_over then advance s' else (s', waiting)

unfoldable pub tick_with : Option Watch → Option Active → Reading → Player → Player × PlayOutcome
unfolding apply_check
tick_with none active r s = (s, waiting)
tick_with (some w) none r s = (s, waiting)
tick_with (some w) (some a) r s = apply_check (check_swarm s.strikes w r) s

-- The timer's callback, if the timer is set.
unfoldable pub tick : Reading → Player → Player × PlayOutcome
unfolding tick_with is_switching
tick r s = if is_switching s.phase then (s, waiting) else tick_with s.watch s.active r s

pub data PlayerEvent : Type 0 where
  plays : List Candidate → PlayerEvent
  old_destroyed : PlayerEvent
  -- a racer by its place, with what the torrent has downloaded and the time
  racer_ends : ℕ → RacerEnd → ℕ → ℕ → PlayerEvent
  aborts : PlayerEvent
  ticks : Reading → PlayerEvent

unfoldable pub on_player : Player → PlayerEvent → Player × PlayOutcome
unfolding play torn_down racer_ended abort tick
on_player s (plays cs) = play cs s
on_player s old_destroyed = (record s { phase = torn_down s.phase }, waiting)
on_player s (racer_ends i e downloaded now) = racer_ended i e downloaded now s.phase s
on_player s aborts = (abort s, resolved)
on_player s (ticks r) = tick r s

unfoldable pub run_player : Player → List PlayerEvent → Player
unfolding on_player
run_player s [] = s
run_player s (e ∷ es) = run_player (on_player s e).0 es

-- `_injectPeers`: the peers that are added before the metadata.
unfoldable pub injected : List Peer → List Peer
injected peers = filter is_usable (take max_injected_peers peers)

unfoldable pub served_file : Option Active → Option File
served_file none = none
served_file (some a) = some a.file

-- What a request is answered with while the player is in a state.
unfoldable pub answer_request : Text → Player → RangeReply
unfolding served_file
answer_request range s = handle_request (served_file s.active) range
