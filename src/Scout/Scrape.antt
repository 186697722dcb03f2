-- ===== src/Scout/Scrape.antt =====
-- swarmScout.js, `_scrapeTrackers`: one scrape of several trackers, as a machine that takes the
-- answers and the timers in any order.
pub mod Settled
mod Tests
use swarmproof.Base.{
  Bool, List, Option, [], false, if◌then◌else◌, length, max, none, not, some, suc, true, zero, ℕ,
  ◌+◌, ◌-◌, ◌==◌, ◌||◌, ◌∷◌,
}
use swarmproof.Base.Text.{Text}
use swarmproof.Metainfo.{number_or_zero}

-- What the trackers said: `scrape`.
pub record Scrape : Type 0 where
  pub complete : ℕ
  pub incomplete : ℕ
  pub responded : ℕ

-- What a tracker's callback is given: an error, or counts that may be missing.
pub record Counted : Type 0 where
  pub complete : Option ℕ
  pub incomplete : Option ℕ

pub data ScrapeEvent : Type 0 where
  -- the callback of a tracker, by its place
  answers : ℕ → Option Counted → ScrapeEvent
  -- the timer of a tracker, or a `scrape` that throws
  gives_up : ℕ → ScrapeEvent
  grace_ends : ScrapeEvent

-- `done` of each tracker, `best`, `pending`, whether the grace timer has been set, and what the
-- promise has resolved to (`settled` is that it has; `best` goes on changing after that, since the
-- promise resolves to the object itself).
pub record Scraping : Type 0 where
  pub done : List Bool
  pub best : Scrape
  pub pending : ℕ
  pub grace : Bool
  pub settled : Bool

pub not_done : List Text → List Bool
not_done [] = []
not_done (t ∷ ts) = false ∷ not_done ts

pub nothing_yet : Scrape
nothing_yet = record { complete = 0; incomplete = 0; responded = 0 }

-- `none` where there are no trackers.
pub start_scrape : List Text → Option Scraping
unfolding not_done nothing_yet
start_scrape [] = none
start_scrape (t ∷ ts) = some (record {
  done = not_done (t ∷ ts);
  best = nothing_yet;
  pending = length (t ∷ ts);
  grace = false;
  settled = false;
})

pub is_open : ℕ → List Bool → Bool
is_open i [] = false
is_open zero (d ∷ ds) = not d
is_open (suc i) (d ∷ ds) = is_open i ds

pub mark_done : ℕ → List Bool → List Bool
mark_done i [] = []
mark_done zero (d ∷ ds) = true ∷ ds
mark_done (suc i) (d ∷ ds) = d ∷ mark_done i ds

-- `countDown`
pub count_down : Scraping → Scraping
count_down s = record s { pending = s.pending - 1; settled = s.settled || (s.pending == 1) }

-- The maxima, and one more answer.
pub take_max : Scrape → Counted → Scrape
take_max b c = record {
  complete = max b.complete (number_or_zero c.complete);
  incomplete = max b.incomplete (number_or_zero c.incomplete);
  responded = b.responded + 1;
}

-- The data of an answer, before the count goes down. The grace timer is set once, and not on a
-- settled scrape.
pub note_answer : Option Counted → Scraping → Scraping
unfolding take_max
note_answer none s = s
note_answer (some c) s = record s { best = take_max s.best c; grace = s.grace || not s.settled }

pub on_scrape : Scraping → ScrapeEvent → Scraping
unfolding is_open mark_done note_answer count_down
on_scrape s (answers i c) =
    if is_open i s.done
    then count_down (note_answer c (record s { done = mark_done i s.done }))
    else s
on_scrape s (gives_up i) =
    if is_open i s.done then count_down (record s { done = mark_done i s.done }) else s
on_scrape s grace_ends = if s.grace then record s { settled = true } else s

pub run_scrape : Scraping → List ScrapeEvent → Scraping
unfolding on_scrape
run_scrape s [] = s
run_scrape s (e ∷ es) = run_scrape (on_scrape s e) es
