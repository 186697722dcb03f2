-- ===== src/Stream/Player/Tests.antt =====
-- streamServer.js: runs of the player, and the theorems at concrete events.
use swarmproof.Base.{
  any, length, suc, take, zero, ◌≤◌, List, [], false, none, refl, some, true, ℕ, ◌∷◌, ◌≡◌,
}
use swarmproof.Base.Text.{same, Text, text}
use swarmproof.Crawler.Stages.{nth}
use swarmproof.Stream.Media.{File, pick_media_file}
use swarmproof.Stream.Player.{
  Candidate, Player, PlayerEvent, Racer, abort, aborts, advance, at_rest, begin_race, begin_racing,
  closes, collapse_from, do_advance, enter_race, errs, give_up, has_hash, is_ready, is_switching,
  new_player, new_racer, old_destroyed, on_player, play, play_list, playable_file, plays, racer_at,
  racer_done, racer_ended, racer_ends, racer_lost, racer_won, racing, remaining, resolved,
  run_player, scored_or_all, superseded, thrown, times_out, torn_down,
}
use swarmproof.Stream.Player.Busy.{IsSound, run_player-IsSound}
use swarmproof.Stream.Player.Failover.Counting.{count_races}
use swarmproof.Stream.Player.Failover.{count_races-play_list}
use swarmproof.Stream.Player.Settled.{is_end_of, run_player_settles}
use swarmproof.Stream.Player.Superseded.{play-abort}

abbrev offer : Text → ℕ → Candidate
offer h n = record { info_hash = h; score = n; peers = [] }

abbrev a_release : Candidate
a_release = offer (text "aa") 5

abbrev b_release : Candidate
b_release = offer (text "bb") 0

abbrev same_release : Candidate
same_release = offer (text "aa") 3

abbrev movie : File
movie = record { name = text "m.mp4"; size = 10; offset = 0 }

abbrev ready_at : ℕ → PlayerEvent
ready_at i = racer_ends i (is_ready (movie ∷ [])) 0 0

listed_once : play_list (a_release ∷ b_release ∷ same_release ∷ []) ≡ a_release ∷ []
unfolding play_list collapse_from scored_or_all has_hash same
listed_once = refl

unscored_tried : play_list (b_release ∷ []) ≡ b_release ∷ []
unfolding play_list collapse_from scored_or_all has_hash same
unscored_tried = refl

-- The first racer fails, the second is ready.
second_wins :
    (run_player new_player (
      plays (a_release ∷ offer (text "bb") 1 ∷ [])
      ∷ racer_ends 0 times_out 0 0
      ∷ ready_at 1
      ∷ [])).active
    ≡ some (record { candidate = offer (text "bb") 1; file = movie })
unfolding run_player on_player play advance do_advance begin_race enter_race begin_racing new_racer
    racer_ended racer_at racer_done racer_lost racer_won give_up playable_file pick_media_file nth
    new_player play_list collapse_from scored_or_all has_hash same remaining is_switching torn_down
    swarmproof.Worker.Input.to_lower
second_wins = refl

all_fail :
    (run_player new_player (plays (a_release ∷ []) ∷ racer_ends 0 closes 0 0 ∷ [])).excluded
    ≡ (text "aa") ∷ []
unfolding run_player on_player play advance do_advance begin_race enter_race begin_racing new_racer
    racer_ended racer_at racer_done racer_lost racer_won give_up playable_file pick_media_file nth
    new_player play_list collapse_from scored_or_all has_hash same remaining is_switching torn_down
all_fail = refl

abbrev a_race : List PlayerEvent
a_race = plays (a_release ∷ []) ∷ ready_at 0 ∷ []

run_player-IsSound_example : IsSound (run_player new_player a_race)
run_player-IsSound_example = run_player-IsSound a_race

abbrev later : List PlayerEvent
later = racer_ends 0 errs 0 0 ∷ old_destroyed ∷ []

count_races-play_list_example :
    count_races new_player (plays (a_release ∷ []) ∷ later) ≤ length (play_list (a_release ∷ []))
unfolding new_player
count_races-play_list_example =
    count_races-play_list new_player a_release [] later refl (tt, (tt, tt))

abbrev one_racer : List Racer
one_racer = record { candidate = a_release; waits = true } ∷ []

abbrev in_race : Player
in_race = record {
  ranked = a_release ∷ [];
  excluded = [];
  phase = racing one_racer;
  is_aborted = false;
  active = none;
  watch = none;
  strikes = 0;
}

movie_picked : pick_media_file (movie ∷ []) ≡ some movie
unfolding pick_media_file same swarmproof.Worker.Input.to_lower
movie_picked = refl

play-abort_example :
    ((on_player (abort in_race) (ready_at 0)).1 ≡ thrown superseded)
    × ((on_player (abort in_race) (ready_at 0)).0.active ≡ none)
    × ((play (b_release ∷ []) (abort in_race)).1 ≡ resolved)
    × ((run_player in_race (aborts ∷ plays (b_release ∷ []) ∷ ready_at 0 ∷ [])).active
        ≡ some (record { candidate = a_release; file = movie }))
unfolding nth
play-abort_example =
    play-abort in_race one_racer 0 (record { candidate = a_release; waits = true }) b_release []
      (movie ∷ []) movie 0 0 refl refl refl movie_picked

race_begun : (run_player new_player (plays (a_release ∷ []) ∷ [])).phase ≡ racing one_racer
unfolding run_player on_player play advance do_advance begin_race enter_race begin_racing new_racer
    new_player play_list collapse_from scored_or_all has_hash same remaining is_switching
race_begun = refl

one_ends :
    (i : ℕ) (r : Racer)
    → nth i one_racer ≡ some r
    → r.waits ≡ true
    → any (is_end_of i) (aborts ∷ racer_ends 0 times_out 0 0 ∷ []) ≡ true
unfolding nth is_end_of
one_ends zero r n w = refl
one_ends (suc i) r n w = let off : ⊥ = cc in elim off [ ]

run_player_settles_example :
    (n : ℕ) × (n ≤ 2)
    × ((run_player
          (run_player new_player (plays (a_release ∷ []) ∷ []))
          (take n (aborts ∷ racer_ends 0 times_out 0 0 ∷ []))).phase
        ≡ at_rest)
run_player_settles_example =
    run_player_settles (plays (a_release ∷ []) ∷ []) one_racer
      (aborts ∷ racer_ends 0 times_out 0 0 ∷ []) race_begun one_ends
