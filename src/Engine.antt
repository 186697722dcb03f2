-- ===== src/Engine.antt =====
-- server.js: the engine as a service. Where it listens, which call a request is, and the candidates that
-- a body asks for.
pub mod Asked
pub mod Reached
mod Tests
use swarmproof.Base.{
  [], any, if◌then◌else◌, length, map, ◌||◌, Bool, List, Option, false, none, some, true, ℕ, ◌∷◌,
  ◌≡◌,
}
use swarmproof.Catalog.{
  parse_error, entry_of, CandidateEntry, InputError, Parsed, known_trackers, make_candidate,
  parse_input, presets,
}
use swarmproof.FrontDoor.{
  AskBody, Input, Method, input_lines, is_options, is_post, no_input, other_input, text_input,
}
use swarmproof.Worker.Input.{lower}
use swarmproof.Base.Text.{Text, text, same}

-- `/^(1|true|yes)$/i`
unfoldable pub is_yes : Text → Bool
is_yes t = any (same (lower t)) (text "1" ∷ text "true" ∷ text "yes" ∷ [])

unfoldable pub host_or_default : Text → Text
host_or_default [] = text "127.0.0.1"
host_or_default (c ∷ host) = c ∷ host

-- The guard before the service listens: the host of the environment, and its permission.
unfoldable pub may_listen : Text → Text → Bool
unfolding is_yes host_or_default
may_listen host permission =
    same (host_or_default host) (text "127.0.0.1")
    || same (host_or_default host) (text "localhost")
    || is_yes permission

pub data Route : Type 0 where
  preflight_route health_route assess_route probe_route play_route status_route stream_route : Route
  presets_route no_route : Route

unfoldable pub get_route : Text → Route
get_route path =
    if same path (text "/v1/status")
    then status_route
    else (if same path (text "/v1/stream")
        then stream_route
        else (if same path (text "/v1/presets") then presets_route else no_route))

unfoldable pub post_route : Text → Route
unfolding get_route
post_route path =
    if same path (text "/v1/assess")
    then assess_route
    else (if same path (text "/v1/probe")
        then probe_route
        else (if same path (text "/v1/play") then play_route else get_route path))

-- The tests of the handler, in their order.
unfoldable pub route_of : Method → Text → Route
unfolding post_route get_route is_options is_post
route_of method path =
    if is_options method
    then preflight_route
    else (if same path (text "/healthz")
        then health_route
        else (if is_post method then post_route path else get_route path))

-- What `toCandidates` gives: the candidates as they were sent, or made of lines, or an error.
pub data Taken : Type 0 where
  as_sent : List Text → Taken
  made : List CandidateEntry → Taken
  bad_line : InputError → Taken
  nothing_sent : Taken

unfoldable pub count_taken : Taken → ℕ
count_taken (as_sent cs) = length cs
count_taken (made es) = length es
count_taken (bad_line e) = 0
count_taken nothing_sent = 0

-- `String(body.input || '')`
unfoldable pub input_text : Input → Text
input_text no_input = []
input_text (text_input t) = t
input_text (other_input t) = t

unfoldable pub add_parsed : Parsed → Taken → Taken
add_parsed (parse_error e) rest = bad_line e
add_parsed (entry_of c) (made es) = made (c ∷ es)
add_parsed (entry_of c) (as_sent cs) = as_sent cs
add_parsed (entry_of c) (bad_line e) = bad_line e
add_parsed (entry_of c) nothing_sent = nothing_sent

unfoldable pub made_presets : (Text → Text) → List CandidateEntry
unfolding make_candidate
made_presets encode = map (λ p. make_candidate encode p.0 p.1 known_trackers) presets

module _ (encode : Text → Text) (decode32 : Text → Text)
    (read_url : Text → Option (Option Text × List Text)) where
  -- `lines.map(parseInput)`
  unfoldable pub parse_lines : List Text → Taken
  unfolding add_parsed
  parse_lines [] = made []
  parse_lines (l ∷ ls) = add_parsed (parse_input encode decode32 read_url l) (parse_lines ls)

  unfoldable pub take_lines : List Text → Taken
  unfolding parse_lines
  take_lines [] = nothing_sent
  take_lines (l ∷ ls) = parse_lines (l ∷ ls)

  unfoldable pub take_body : Option (List Text) → Input → Taken
  unfolding take_lines input_text input_lines
  take_body none input = take_lines (input_lines (input_text input))
  take_body (some []) input = take_lines (input_lines (input_text input))
  take_body (some (c ∷ cs)) input = as_sent (c ∷ cs)

  -- `toCandidates`
  unfoldable pub to_candidates : AskBody → Taken
  unfolding take_body made_presets
  to_candidates b =
      if b.wants_presets then made (made_presets encode) else take_body b.candidates b.input
