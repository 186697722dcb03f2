-- ===== src/Scout/Score/Covers.antt =====
-- swarmScout.js, `_coversAll`, against the `describe` of worker/src/index.js.
use swarmproof.Base.{List, Option, none, true, ◌∷◌, ◌≢◌, arith, ltb, some, ℕ, ◌+◌, ◌≡◌, ◌≤◌}
use swarmproof.Base.Text.{Text}
use swarmproof.Scout.Score.{covers_all, covers, shared_health_max_age_ms}
use swarmproof.Worker.Health.{Described, HealthEntry, describe}
use swarmproof.Worker.Input.{lower}
use swarmproof.PeerTable.{entry}
use swarmproof.Worker.Pool.{served}

-- An entry that the control plane describes, and that a client whose clock is not behind accepts as
-- fresh enough, was not called stale: with clocks that agree the client's own check is the stricter.
pub covers-describe :
    (entry : HealthEntry) (served later : ℕ)
    → entry.ts ≤ served
    → served ≤ later
    → covers later (some (describe entry served)) ≡ ltb later (entry.ts + shared_health_max_age_ms)
unfolding covers describe
covers-describe entry served later h k = ground arith

-- What is covered is there.
pub covers_some : (now : ℕ) (o : Option Described) → covers now o ≡ true → o ≢ none
unfolding covers
covers_some now none h = grind arith
covers_some now (some e) h = λ k. grind arith

pub covers_all-cons :
    (now : ℕ) (shared : Text → Option Described) (h : Text) (hs : List Text)
    → covers_all now shared (h ∷ hs) ≡ true
    → (covers now (shared (lower h)) ≡ true) × (covers_all now shared hs ≡ true)
unfolding covers_all
covers_all-cons now shared h hs c = grind arith
