-- ===== src/Stream/Player/Superseded.antt =====
-- streamServer.js: what `abort` leaves of a race that is on, alone and with a call of `play` behind it.
use swarmproof.Base.{[], ap, ◌∙◌, List, false, none, refl, some, true, ℕ, ◌∷◌, ◌≡◌}
use swarmproof.Crawler.Stages.{nth}
use swarmproof.Stream.Media.{File, pick_media_file}
use swarmproof.Stream.Player.{
  Candidate, Player, Racer, abort, advance, aborts, is_ready, on_player, play, play_list,
  playable_file, plays, racer_at, racer_done, racer_ended, racer_ends, racer_won, racing, resolved,
  run_player, superseded, thrown, is_switching, PlayOutcome,
}

racer_ended_first :
    (s : Player) (rs : List Racer) (i : ℕ) (r : Racer) (files : List File) (f : File)
    (downloaded now : ℕ)
    → s.phase ≡ racing rs
    → nth i rs ≡ some r
    → r.waits ≡ true
    → pick_media_file files ≡ some f
    → on_player s (racer_ends i (is_ready files) downloaded now)
      ≡ racer_won r.candidate f downloaded now s
unfolding on_player racer_ended racer_at racer_done playable_file
racer_ended_first s rs i r files f downloaded now p n w k = rw (p, n, w, k) refl

play_ignored :
    (s : Player) (rs : List Racer) (c : Candidate) (cs : List Candidate)
    → s.phase ≡ racing rs
    → play (c ∷ cs) s
      ≡ (record s { ranked = play_list (c ∷ cs); is_aborted = false; excluded = [] }, resolved)
unfolding play advance is_switching
play_ignored s rs c cs p = rw (p) refl

-- While a race is on, with a racer that is still awaited and then becomes playable: after `abort` alone
-- the race throws `superseded` and no torrent is active. After `abort` and a call of `play` with other
-- candidates, that call has resolved at once, and the racer of the old race becomes the torrent that is
-- played.
pub play-abort :
    (s : Player) (rs : List Racer) (i : ℕ) (r : Racer) (c : Candidate) (cs : List Candidate)
    (files : List File) (f : File) (downloaded now : ℕ)
    → s.phase ≡ racing rs
    → nth i rs ≡ some r
    → r.waits ≡ true
    → pick_media_file files ≡ some f
    → let ends = racer_ends i (is_ready files) downloaded now in
      ((on_player (abort s) ends).1 ≡ thrown superseded)
      × ((on_player (abort s) ends).0.active ≡ none)
      × ((play (c ∷ cs) (abort s)).1 ≡ resolved)
      × ((run_player s (aborts ∷ plays (c ∷ cs) ∷ ends ∷ [])).active
          ≡ some (record { candidate = r.candidate; file = f }))
unfolding abort racer_won run_player
play-abort s rs i r c cs files f downloaded now p n w k =
    let alone = racer_ended_first (abort s) rs i r files f downloaded now p n w k in
    let played = play_ignored (abort s) rs c cs p in
    let s' = record (abort s) { ranked = play_list (c ∷ cs); is_aborted = false; excluded = [] } in
    let behind = racer_ended_first s' rs i r files f downloaded now p n w k in
    (
      ap (λ (x : Player × PlayOutcome). x.1) alone,
      ap (λ (x : Player × PlayOutcome). x.0.active) alone,
      ap (λ (x : Player × PlayOutcome). x.1) played,
      ap
            (λ (x : Player × PlayOutcome).
              (on_player x.0 (racer_ends i (is_ready files) downloaded now)).0.active)
            played
          ∙ ap (λ (x : Player × PlayOutcome). x.0.active) behind,
    )
