-- ===== src/Scout/Probe/Covered.antt =====
-- swarmScout.js, `_rankFromShared`: where shared health answers for all, every entry is there.
use swarmproof.Scout.Probe.{entry_from, FromShared, add_entry, all_shared, from_shared}
use swarmproof.Base.{List, Option, [], arith, none, refl, some, true, ℕ, ◌∷◌, ◌≡◌, ◌≢◌}
use swarmproof.Base.Text.{Text}
use swarmproof.Scout.Score.{covers, covers_all}
use swarmproof.Scout.Score.Covers.{covers_some, covers_all-cons}
use swarmproof.Worker.Health.{Described}
use swarmproof.Worker.Input.{lower}

entry_from-some : (h : Text) (o : Option Described) → o ≢ none → entry_from h o ≢ none
unfolding entry_from
entry_from-some h none n = λ k. elim (n refl) [ ]
entry_from-some h (some e) n = λ k. grind arith

from_shared-covers :
    (now : ℕ) (shared : Text → Option Described) (h : Text)
    → covers now (shared (lower h)) ≡ true
    → from_shared shared h ≢ none
unfolding from_shared
from_shared-covers now shared h c =
    entry_from-some h (shared (lower h)) (covers_some now (shared (lower h)) c)

add_entry-some :
    (e : Option FromShared) (r : Option (List FromShared))
    → e ≢ none
    → r ≢ none
    → add_entry e r ≢ none
unfolding add_entry
add_entry-some none r h k = λ x. h refl
add_entry-some (some e) none h k = λ x. k refl
add_entry-some (some e) (some es) h k = λ x. grind arith

-- If shared health covers all candidates, a ranking from it does not fail.
pub all_shared-covers_all :
    (now : ℕ) (shared : Text → Option Described) (hashes : List Text)
    → covers_all now shared hashes ≡ true
    → all_shared shared hashes ≢ none
unfolding all_shared
all_shared-covers_all now shared [] c = λ k. grind arith
all_shared-covers_all now shared (h ∷ hs) c =
    let (first, rest) = covers_all-cons now shared h hs c in
    add_entry-some (from_shared shared h) (all_shared shared hs)
      (from_shared-covers now shared h first) (all_shared-covers_all now shared hs rest)
