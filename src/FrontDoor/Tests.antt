-- ===== src/FrontDoor/Tests.antt =====
-- worker-api/src/index.js: requests at concrete inputs.
use swarmproof.Base.Table.{lookup}
use swarmproof.FrontDoor.{
  Method, FrontRequest, EdgeAnswer, Url, cache_key, fetch_front, is_ok, is_post, refuse, cached,
  relayed, unreachable, get, head, text_input, is_blocked, is_options, count_input, input_lines,
  split_lines,
}
use swarmproof.Base.{[], false, none, refl, some, true, ◌∷◌, ◌≡◌}
use swarmproof.Base.Text.{Text, text, same}
use swarmproof.FrontDoor.Repeats.{fetch_front-fetch_front}
use swarmproof.Catalog.{trim}
use swarmproof.Metainfo.{is_empty}

abbrev status_url : Url
status_url = record { origin = text "https://api"; path = text "/v1/status"; search = [] }

abbrev asks : Method → FrontRequest
asks m = record { method = m; url = status_url; body = []; parsed = none; is_let_in = true }

abbrev empty_answer : EdgeAnswer
empty_answer = record { status = 200; body = [] }

abbrev plain_digest : Text → Text
plain_digest t = t

two_lines : count_input (text_input (b'a' ∷ 10 ∷ 32 ∷ 10 ∷ b'b' ∷ 13 ∷ 10 ∷ [])) ≡ 2
unfolding count_input input_lines split_lines trim swarmproof.Catalog.trim_start
    swarmproof.Catalog.trim_end is_empty swarmproof.ContentFilter.is_blank_unit
two_lines = refl

let_through_twice : (refuse true (asks head) ≡ none) × (refuse true (asks get) ≡ none)
unfolding refuse is_options is_blocked is_post same
let_through_twice = (refl, refl)

nothing_kept : lookup {V = EdgeAnswer} (cache_key plain_digest (asks head)) [] ≡ none
unfolding cache_key lookup
nothing_kept = refl

fetch_front-fetch_front_example :
    ((fetch_front plain_digest true (asks head) (some empty_answer) []).1 ≡ relayed empty_answer)
    × (is_ok empty_answer ≡ true
        → is_post head ≡ false
        → is_post get ≡ false
        → status_url ≡ status_url
        → (fetch_front plain_digest true
            (asks get)
            none
            (fetch_front plain_digest true (asks head) (some empty_answer) []).0).1
          ≡ cached empty_answer)
    × (is_ok empty_answer ≡ false
        → (fetch_front plain_digest true (asks head) (some empty_answer) []).0 ≡ [])
    × (fetch_front plain_digest true (asks head) none [] ≡ ([], unreachable))
fetch_front-fetch_front_example =
    fetch_front-fetch_front plain_digest true (asks head) (asks get) empty_answer none []
      let_through_twice.0 let_through_twice.1 nothing_kept
