-- ===== src/FrontDoor/Repeats.antt =====
-- worker-api/src/index.js: what the edge cache gives to a request that comes again.
use swarmproof.Base.{ap, ◌++◌, ◌∙◌, Option, Bool, arith, false, none, refl, some, true, ◌≡◌}
use swarmproof.Base.Text.{same_iff, Text}
use swarmproof.FrontDoor.{
  EdgeCache, FrontReply, FrontRequest, EdgeAnswer, Url, answer, ask_engine, cache_key, fetch_front,
  is_ok, is_post, refuse, relay, cached, relayed, unreachable,
}
use swarmproof.Base.Table.{lookup, lookup-set, set}

module _ (digest : Text → Text) where
  let_through :
      (is_configured : Bool) (r : FrontRequest) (upstream : Option EdgeAnswer) (cache : EdgeCache)
      → refuse is_configured r ≡ none
      → fetch_front digest is_configured r upstream cache
        ≡ ask_engine (cache_key digest r) (lookup (cache_key digest r) cache) upstream cache
  unfolding fetch_front answer
  let_through is_configured r upstream cache h = rw (h) refl

  asks_engine :
      (is_configured : Bool) (r : FrontRequest) (upstream : Option EdgeAnswer) (cache : EdgeCache)
      → refuse is_configured r ≡ none
      → lookup (cache_key digest r) cache ≡ none
      → fetch_front digest is_configured r upstream cache
        ≡ relay (cache_key digest r) upstream cache
  unfolding ask_engine
  asks_engine is_configured r upstream cache h m =
      let_through is_configured r upstream cache h ∙ (rw (m) refl)

  found_again :
      (is_configured : Bool) (q : FrontRequest) (s : EdgeAnswer) (upstream : Option EdgeAnswer)
      (cache : EdgeCache)
      → refuse is_configured q ≡ none
      → lookup (cache_key digest q) cache ≡ some s
      → fetch_front digest is_configured q upstream cache ≡ (cache, cached s)
  unfolding ask_engine
  found_again is_configured q s upstream cache h m =
      let_through is_configured q upstream cache h ∙ (rw (m) refl)

  same_key :
      (r q : FrontRequest)
      → is_post r.method ≡ false
      → is_post q.method ≡ false
      → r.url ≡ q.url
      → cache_key digest r ≡ cache_key digest q
  unfolding cache_key
  same_key r q h k e = rw (h, k) (ap (λ (u : Url). u.origin ++ (u.path ++ u.search)) e)

  -- A request that is refused neither by its form nor by the limiter, and not found in the cache, is
  -- answered by the engine. If that answer is a success, any later request for the same URL that is let
  -- through is answered from the cache, whatever the methods of the two are, if neither is a POST and the
  -- entry is still there. If it is not, or there is no answer, the cache stays as it is.
  pub fetch_front-fetch_front :
      (is_configured : Bool) (r q : FrontRequest) (s : EdgeAnswer) (upstream : Option EdgeAnswer)
      (cache : EdgeCache)
      → refuse is_configured r ≡ none
      → refuse is_configured q ≡ none
      → lookup (cache_key digest r) cache ≡ none
      → ((fetch_front digest is_configured r (some s) cache).1 ≡ relayed s)
        × (is_ok s ≡ true
            → is_post r.method ≡ false
            → is_post q.method ≡ false
            → r.url ≡ q.url
            → (fetch_front digest is_configured q upstream
                (fetch_front digest is_configured r (some s) cache).0).1
              ≡ cached s)
        × (is_ok s ≡ false → (fetch_front digest is_configured r (some s) cache).0 ≡ cache)
        × (fetch_front digest is_configured r none cache ≡ (cache, unreachable))
  unfolding relay
  fetch_front-fetch_front is_configured r q s upstream cache h k m =
      let asked = asks_engine is_configured r (some s) cache h m in
      (
        ap (λ (x : EdgeCache × FrontReply). x.1) asked,
        λ good a b e.
            let stored : (fetch_front digest is_configured r (some s) cache).0
                ≡ set (cache_key digest r) s cache =
              ap (λ (x : EdgeCache × FrontReply). x.0) asked ∙ (rw (good) refl) in
            let there : lookup (cache_key digest q) (set (cache_key digest r) s cache) ≡ some s =
              ground (
                arith,
                lookup-set (cache_key digest r) (cache_key digest q) s cache,
                same_iff (cache_key digest r) (cache_key digest q),
                same_key r q a b e,
              ) in
            ap (λ (x : EdgeCache × FrontReply). x.1)
              (found_again is_configured q s upstream
                (fetch_front digest is_configured r (some s) cache).0 k
                (ap (lookup (cache_key digest q)) stored ∙ there)),
        λ bad. ap (λ (x : EdgeCache × FrontReply). x.0) asked ∙ (rw (bad) refl),
        asks_engine is_configured r none cache h m,
      )
