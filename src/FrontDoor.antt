-- ===== src/FrontDoor.antt =====
-- worker-api/src/index.js: the public front door before the engine.
--
-- A request's body that is JSON is given as both the front door and the engine read it. The digest is an
-- argument, and so are what the limiter says and what the engine answers. A URL has no fragment. What
-- `cache.put` stores is there for the next request.
pub mod Repeats
mod Tests
use swarmproof.Base.{
  [], any, filter, if◌then◌else◌, leb, length, ltb, map, not, ◌&&◌, ◌++◌, ◌==◌, ◌||◌, Bool, List,
  Option, false, none, some, true, ℕ, ◌∷◌, ◌≡◌,
}
use swarmproof.Metainfo.{is_empty}
use swarmproof.PeerTable.{key}
use swarmproof.Worker.Post.{parsed}
use swarmproof.Base.Text.{Text, text, same}
use swarmproof.Base.Table.{lookup, set}
use swarmproof.Catalog.{trim}
use swarmproof.Worker.Input.{Number, nan, infinite, negative, whole}

abbrev pub max_candidates : ℕ
max_candidates = 20

abbrev pub max_deadline_ms : ℕ
max_deadline_ms = 30_000

abbrev pub blocked_paths : List Text
blocked_paths = text "/v1/stream" ∷ text "/v1/play" ∷ []

-- `body.input`: nothing that is true, a text, or something else with its text.
pub data Input : Type 0 where
  no_input : Input
  text_input : Text → Input
  other_input : Text → Input

-- An object, with `Number` of its two limits; a candidate of `candidates` is left as it is written.
pub record AskBody : Type 0 where
  pub wants_presets : Bool
  pub candidates : Option (List Text)
  pub input : Input
  pub deadline_ms : Number
  pub max_peers : Number

pub data JsonBody : Type 0 where
  no_object : JsonBody
  object : AskBody → JsonBody

-- `split('\n')`
unfoldable pub split_lines : Text → List Text
split_lines [] = [] ∷ []
split_lines (c ∷ t) = elim (split_lines t) [
  | [] ↦ (c ∷ []) ∷ []
  | (l ∷ ls) ↦ if c == 10 then [] ∷ l ∷ ls else (c ∷ l) ∷ ls
]

-- `.split('\n').map(l => l.trim()).filter(Boolean)`
unfoldable pub input_lines : Text → List Text
unfolding split_lines
input_lines t = filter (λ l. not (is_empty l)) (map trim (split_lines t))

unfoldable pub count_input : Input → ℕ
unfolding input_lines
count_input no_input = 0
count_input (text_input t) = length (input_lines t)
count_input (other_input t) = 0

unfoldable pub count_asked : Option (List Text) → Input → ℕ
unfolding count_input
count_asked (some cs) input = length cs
count_asked none input = count_input input

-- `v > n`
unfoldable pub exceeds : Number → ℕ → Bool
exceeds nan n = false
exceeds infinite n = true
exceeds negative n = false
exceeds (whole v fraction) n = ltb n v || (v == n && fraction)

pub data Oversize : Type 0 where
  too_many : ℕ → Oversize
  too_slow too_wide : Oversize

unfoldable pub oversize_of : AskBody → Option Oversize
unfolding count_asked exceeds
oversize_of b =
    if ltb max_candidates (count_asked b.candidates b.input)
    then some (too_many (count_asked b.candidates b.input))
    else (if exceeds b.deadline_ms max_deadline_ms
        then some too_slow
        else (if exceeds b.max_peers 60 then some too_wide else none))

-- `tooLarge`
unfoldable pub too_large : JsonBody → Option Oversize
unfolding oversize_of
too_large no_object = none
too_large (object b) = oversize_of b

pub record Url : Type 0 where
  pub origin : Text
  pub path : Text
  pub search : Text

pub data Method : Type 0 where
  get head post options other : Method

-- What comes in: `parsed` is what `JSON.parse` gives for a body that is not blank.
pub record FrontRequest : Type 0 where
  pub method : Method
  pub url : Url
  pub body : Text
  pub parsed : Option JsonBody
  -- whether the limiter, if there is one, lets the caller pass
  pub is_let_in : Bool

pub record EdgeAnswer : Type 0 where
  pub status : ℕ
  pub body : Text

pub data FrontReply : Type 0 where
  preflight alive not_configured not_available limited too_big not_json unreachable : FrontReply
  oversized : Oversize → FrontReply
  cached relayed : EdgeAnswer → FrontReply

unfoldable pub reply_status : FrontReply → ℕ
reply_status preflight = 204
reply_status alive = 200
reply_status not_configured = 503
reply_status not_available = 501
reply_status limited = 429
reply_status too_big = 413
reply_status not_json = 400
reply_status unreachable = 502
reply_status (oversized o) = 400
reply_status (cached s) = s.status
reply_status (relayed s) = s.status

unfoldable pub is_post : Method → Bool
is_post get = false
is_post head = false
is_post post = true
is_post options = false
is_post other = false

unfoldable pub is_options : Method → Bool
is_options get = false
is_options head = false
is_options post = false
is_options options = true
is_options other = false

unfoldable pub is_blocked : Text → Bool
is_blocked path = any (same path) blocked_paths

abbrev pub EdgeCache : Type 0
EdgeCache = List (Text × EdgeAnswer)

-- A refusal of the body; a blank body is the object without fields.
unfoldable pub refuse_oversize : Option Oversize → Option FrontReply
refuse_oversize none = none
refuse_oversize (some o) = some (oversized o)

unfoldable pub refuse_parsed : Option JsonBody → Option FrontReply
unfolding refuse_oversize too_large
refuse_parsed none = some not_json
refuse_parsed (some p) = refuse_oversize (too_large p)

unfoldable pub refuse_body : FrontRequest → Option FrontReply
unfolding refuse_parsed
refuse_body r =
    if ltb 64_000 (length r.body)
    then some too_big
    else (if is_empty (trim r.body) then none else refuse_parsed r.parsed)

-- The answers that are given without the cache and the engine.
unfoldable pub refuse : Bool → FrontRequest → Option FrontReply
unfolding is_options is_blocked is_post refuse_body
refuse is_configured r =
    if is_options r.method
    then some preflight
    else (if same r.url.path (text "/healthz")
        then some alive
        else (if not is_configured
            then some not_configured
            else (if is_blocked r.url.path
                then some not_available
                else (if not r.is_let_in
                    then some limited
                    else (if is_post r.method then refuse_body r else none)))))

-- What the engine gives, if it can be reached.
unfoldable pub is_ok : EdgeAnswer → Bool
is_ok s = leb 200 s.status && leb s.status 299

unfoldable pub relay : Text → Option EdgeAnswer → EdgeCache → EdgeCache × FrontReply
unfolding is_ok
relay key none cache = (cache, unreachable)
relay key (some s) cache = (if is_ok s then set key s cache else cache, relayed s)

unfoldable pub ask_engine :
    Text → Option EdgeAnswer → Option EdgeAnswer → EdgeCache → EdgeCache × FrontReply
unfolding relay
ask_engine key (some s) upstream cache = (cache, cached s)
ask_engine key none upstream cache = relay key upstream cache

module _ (digest : Text → Text) where
  -- `cacheKeyFor`, and the URL itself for what is no POST.
  unfoldable pub cache_key : FrontRequest → Text
  unfolding is_post
  cache_key r =
      if is_post r.method
      then r.url.origin ++ (r.url.path ++ (text "?h=" ++ digest r.body))
      else r.url.origin ++ (r.url.path ++ r.url.search)

  unfoldable pub answer :
      Option FrontReply → FrontRequest → Option EdgeAnswer → EdgeCache → EdgeCache × FrontReply
  unfolding ask_engine cache_key
  answer (some reply) r upstream cache = (cache, reply)
  answer none r upstream cache =
      ask_engine (cache_key r) (lookup (cache_key r) cache) upstream cache

  -- `fetch`, with what the engine would give.
  unfoldable pub fetch_front :
      Bool → FrontRequest → Option EdgeAnswer → EdgeCache → EdgeCache × FrontReply
  unfolding answer refuse
  fetch_front is_configured r upstream cache = answer (refuse is_configured r) r upstream cache
