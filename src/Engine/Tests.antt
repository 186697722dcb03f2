-- ===== src/Engine/Tests.antt =====
-- server.js: what reaches the engine, at concrete inputs.
use swarmproof.Base.{
  All, length, List, Option, [], false, none, refl, some, true, ◌∷◌, ◌≡◌, ◌≢◌, ◌≤◌,
}
use swarmproof.Engine.{count_taken, host_or_default, is_yes, may_listen, to_candidates}
use swarmproof.Base.Text.{Text, text, same}
use swarmproof.Catalog.{CandidateEntry}
use swarmproof.Engine.Asked.{IsAccepted, to_candidates-too_large}
use swarmproof.FrontDoor.{
  AskBody, FrontRequest, Url, post, get, object, no_input, text_input, other_input, too_large,
  max_candidates, input_lines,
}
use swarmproof.Worker.Input.{nan}

loopback_only :
    (may_listen [] [] ≡ true)
    × (may_listen (text "0.0.0.0") [] ≡ false)
    × (may_listen (text "0.0.0.0") (text "Yes") ≡ true)
unfolding may_listen is_yes host_or_default same swarmproof.Worker.Input.to_lower
loopback_only = (refl, refl, refl)

abbrev as_it_is : Text → Text
as_it_is t = t

abbrev no_url : Text → Option (Option Text × List Text)
no_url t = none

abbrev one_candidate : AskBody
one_candidate = record {
  wants_presets = false;
  candidates = some ((text "a") ∷ []);
  input = no_input;
  deadline_ms = nan;
  max_peers = nan;
}

small_enough : too_large (object one_candidate) ≡ none
unfolding too_large swarmproof.FrontDoor.oversize_of swarmproof.FrontDoor.count_asked
    swarmproof.FrontDoor.exceeds
small_enough = refl

to_candidates-too_large_example :
    (one_candidate.candidates ≢ some []
      → ((t : Text) → one_candidate.input ≢ other_input t)
      → count_taken (to_candidates as_it_is as_it_is no_url one_candidate) ≤ max_candidates)
    × ((t : Text)
        → All (IsAccepted as_it_is as_it_is no_url) (input_lines t)
        → let b' = record one_candidate {
          wants_presets = false;
          candidates = some [];
          input = text_input t;
        } in
          (too_large (object b') ≡ none)
          × (count_taken (to_candidates as_it_is as_it_is no_url b') ≡ length (input_lines t)))
to_candidates-too_large_example =
    to_candidates-too_large as_it_is as_it_is no_url one_candidate small_enough

abbrev a_probe : FrontRequest
a_probe = record {
  method = post;
  url = record { origin = text "https://api"; path = text "/v1/probe"; search = [] };
  body = text "{}";
  parsed = some (object one_candidate);
  is_let_in = true;
}
