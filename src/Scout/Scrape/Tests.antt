-- ===== src/Scout/Scrape/Tests.antt =====
-- Runs of `_scrapeTrackers`, and the theorem at a concrete input.
use swarmproof.Base.{List, [], false, none, refl, some, true, ◌∷◌, ◌≡◌, ◌≤◌}
use swarmproof.Base.Text.{Text, text}
use swarmproof.Metainfo.{number_or_zero}
use swarmproof.Scout.Scrape.{
  ScrapeEvent, Scraping, answers, count_down, grace_ends, is_open, mark_done, not_done, note_answer,
  nothing_yet, on_scrape, run_scrape, start_scrape, take_max,
}
use swarmproof.Scout.Scrape.Settled.{count_open, run_scrape-settled}

abbrev trackers : List Text
trackers = text "udp://a" ∷ text "udp://b" ∷ text "udp://c" ∷ []

abbrev asked : Scraping
asked = record {
  done = false ∷ false ∷ false ∷ [];
  best = record { complete = 0; incomplete = 0; responded = 0 };
  pending = 3;
  grace = false;
  settled = false;
}

scrape_program : Unit {0}
unfolding start_scrape not_done nothing_yet on_scrape run_scrape is_open mark_done count_down
    note_answer take_max number_or_zero
scrape_program = tt

-- The second answer comes within the grace time and is higher; the third tracker never answers.
abbrev events : List ScrapeEvent
events =
    answers 0 (some (record { complete = some 40; incomplete = none }))
    ∷ answers 1 (some (record { complete = some 121; incomplete = some 35 }))
    ∷ grace_ends
    ∷ []

scrape_run :
    (run_scrape asked events).best ≡ record { complete = 121; incomplete = 35; responded = 2 }
unfolding scrape_program
scrape_run = refl

run_scrape-settled_example :
    (count_open (run_scrape asked events).done ≡ 0 → (run_scrape asked events).settled ≡ true)
    × ((run_scrape asked events).settled ≡ true
        → (run_scrape asked events).best.responded ≡ 0
        → count_open (run_scrape asked events).done ≡ 0)
    × ((run_scrape asked events).best.responded ≤ 3)
unfolding scrape_program
run_scrape-settled_example =
    run_scrape-settled (text "udp://a") (text "udp://b" ∷ text "udp://c" ∷ []) asked events refl
