-- ===== src/Crawler/Run/Workers/Turns.antt =====
-- dhtCrawler.js: the workers of each kind, and what a worker does that takes its next task.
use swarmproof.Crawler.Run.{Concurrency, CrawlEvent, starts}
use swarmproof.Crawler.Run.Running.{runs_after}
use swarmproof.PeerTable.{Peer}
use swarmproof.Base.{
  Bool, List, [], ap, arith, false, if◌then◌else◌, length, refl, some, suc, true, zero, ℕ, ◌*◌, ◌+◌,
  ◌<◌, ◌∷◌, ◌≡◌, ◌≤◌,
}
use swarmproof.Crawler.Naming.{ask_metadata, ask_peers}
use swarmproof.Crawler.Stages.{
  Asked, Crawler, Idle, Job, Lead, ask_neighbours, ask_sample, enqueue_nodes, nth, remove_at,
}

pub length-remove_at {ℓ} :
    {A : Type ℓ} (i : ℕ) (xs : List A) (x : A)
    → nth i xs ≡ some x
    → suc (length (remove_at i xs)) ≡ length xs
unfolding nth remove_at
length-remove_at i [] x h = cc
length-remove_at zero (y ∷ ys) x h = refl
length-remove_at (suc i) (y ∷ ys) x h = ap suc (length-remove_at i ys x h)

-- How often the crawler has been set going behind an event: a start while it runs does not do so.
unfoldable pub add_start : CrawlEvent → Bool → ℕ → ℕ
add_start (starts now routing) false n = suc n
add_start e b n = n

-- How often the events set a crawler going that runs or does not run, with the times before.
unfoldable pub count_begun : List CrawlEvent → Bool → ℕ → ℕ
count_begun [] b n = n
count_begun (e ∷ es) b n = count_begun es (runs_after e b) (add_start e b n)

module _ (k : Concurrency) where
  -- Of each kind, the idle and the busy workers are at most `n` times those that `start` sets going.
  pub record Crew (n : ℕ) (idle : Idle) (sampling : List Asked) (finding : List Peer)
      (asking : List Lead) (holding naming : List Job) : Type 0 where
    pub samplers_fit : idle.samplers + length sampling ≤ n * k.sample
    pub finders_fit : idle.finders + length finding ≤ n * k.discovery
    pub lookups_fit : idle.lookups + length asking + length holding ≤ n * k.peer
    pub fetchers_fit : idle.fetchers + length naming ≤ n * k.metadata

  abbrev pub CrewOf : ℕ → Crawler → Type 0
  CrewOf n c = Crew n c.idle c.sampling c.finding c.asking c.holding c.naming

  pub guarded-CrewOf :
      (n : ℕ) (b : Bool) (c d : Crawler)
      → (b ≡ true → CrewOf n c)
      → CrewOf n d
      → CrewOf n (if b then c else d)
  guarded-CrewOf n true c d v w = v refl
  guarded-CrewOf n false c d v w = w

  pub ask_sample-CrewOf :
      (n now : ℕ) (routing queue : List Peer) (c : Crawler)
      → 0 < c.idle.samplers
      → CrewOf n c
      → CrewOf n (ask_sample now routing queue c)
  unfolding ask_sample enqueue_nodes
  ask_sample-CrewOf n now routing [] c p w = w
  ask_sample-CrewOf n now routing (x ∷ xs) c p w = record {
    samplers_fit = omega (arith, w.samplers_fit, p);
    finders_fit = w.finders_fit;
    lookups_fit = w.lookups_fit;
    fetchers_fit = w.fetchers_fit;
  }

  pub ask_neighbours-CrewOf :
      (n : ℕ) (routing queue : List Peer) (c : Crawler)
      → 0 < c.idle.finders
      → CrewOf n c
      → CrewOf n (ask_neighbours routing queue c)
  unfolding ask_neighbours
  ask_neighbours-CrewOf n routing [] c p w = w
  ask_neighbours-CrewOf n routing (x ∷ xs) c p w = record {
    samplers_fit = w.samplers_fit;
    finders_fit = omega (arith, w.finders_fit, p);
    lookups_fit = w.lookups_fit;
    fetchers_fit = w.fetchers_fit;
  }

  pub ask_peers-CrewOf :
      (n : ℕ) (ls : List Lead) (c : Crawler)
      → 0 < c.idle.lookups
      → CrewOf n c
      → CrewOf n (ask_peers ls c)
  unfolding ask_peers
  ask_peers-CrewOf n [] c p w = w
  ask_peers-CrewOf n (x ∷ xs) c p w = record {
    samplers_fit = w.samplers_fit;
    finders_fit = w.finders_fit;
    lookups_fit = omega (arith, w.lookups_fit, p);
    fetchers_fit = w.fetchers_fit;
  }

  pub ask_metadata-CrewOf :
      (n : ℕ) (js : List Job) (c : Crawler)
      → 0 < c.idle.fetchers
      → CrewOf n c
      → CrewOf n (ask_metadata js c)
  unfolding ask_metadata
  ask_metadata-CrewOf n [] c p w = w
  ask_metadata-CrewOf n (x ∷ xs) c p w = record {
    samplers_fit = w.samplers_fit;
    finders_fit = w.finders_fit;
    lookups_fit = w.lookups_fit;
    fetchers_fit = omega (arith, w.fetchers_fit, p);
  }
