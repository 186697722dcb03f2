-- ===== src/Engine/Reached.antt =====
-- server.js behind the front door (worker-api/src/index.js): what reaches the engine.
use swarmproof.Base.{length, ◌⊎◌, Option, Bool, false, none, some, true, ◌≡◌, ◌≤◌}
use swarmproof.Metainfo.{is_empty}
use swarmproof.Base.Text.{Text}
use swarmproof.FrontDoor.{
  JsonBody, FrontReply, FrontRequest, is_post, too_large, cached, relayed, unreachable, preflight,
  alive, not_configured, not_available, limited, too_big, not_json, oversized,
}
use swarmproof.Catalog.{trim}
use swarmproof.Engine.{
  Route, route_of, stream_route, play_route, preflight_route, health_route, status_route,
  presets_route, no_route, assess_route, probe_route,
}

-- A reply for which the cache or the engine is asked.
unfoldable pub is_answer : FrontReply → Bool
is_answer preflight = false
is_answer alive = false
is_answer not_configured = false
is_answer not_available = false
is_answer limited = false
is_answer too_big = false
is_answer not_json = false
is_answer unreachable = true
is_answer (oversized o) = false
is_answer (cached s) = true
is_answer (relayed s) = true

-- The calls that play or stream.
pub moves_bytes : Route → Bool
moves_bytes preflight_route = false
moves_bytes health_route = false
moves_bytes assess_route = false
moves_bytes probe_route = false
moves_bytes play_route = true
moves_bytes status_route = false
moves_bytes stream_route = true
moves_bytes presets_route = false
moves_bytes no_route = false

-- What is known of a body that may reach the engine.
abbrev pub BodyOk : FrontRequest → Type 0
BodyOk r =
    (length r.body ≤ 64_000)
    × ((is_empty (trim r.body) ≡ true)
        ⊎ ((p : JsonBody) × (r.parsed ≡ some p) × (too_large p ≡ none)))

pub record MayReach (is_configured : Bool) (r : FrontRequest) : Type 0 where
  pub configured : is_configured ≡ true
  pub let_in : r.is_let_in ≡ true
  pub moves_none : moves_bytes (route_of r.method r.url.path) ≡ false
  pub body_ok : is_post r.method ≡ true → BodyOk r
