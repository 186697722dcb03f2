-- ===== src/CloudCache/Breaker.antt =====
-- cloudCache.js: what the circuit breaker holds back, and what it lets through.
use swarmproof.Base.{
  All, All-mono, Bool, List, [], arith, false, length, none, refl, some, suc, true, ℕ, ◌+◌, ◌<◌,
  ◌∙◌, ◌∷◌, ◌≡◌, ◌≢◌,
}
use swarmproof.CloudCache.{
  CloudCache, Reply, answered, charge, close_breaker, fetch_cloud, is_short, lost, refused, sent,
  trip,
}

module _ {ℓ} {A : Type ℓ} where
  -- Reads that the caller waits for, each with its start, its end and what the network would give.
  unfoldable pub reads : CloudCache → List (ℕ × ℕ × Reply A) → CloudCache
  unfolding fetch_cloud
  reads c [] = c
  reads c ((t0, now, reply) ∷ rs) = reads (fetch_cloud true t0 now reply c).1 rs

  short-fetch_cloud :
      (t0 now : ℕ) (reply : Reply A) (c : CloudCache)
      → c.enabled ≡ true
      → t0 < c.open_until
      → ((fetch_cloud true t0 now reply c).1.open_until ≡ c.open_until)
        × ((fetch_cloud true t0 now reply c).1.enabled ≡ true)
        × ((fetch_cloud true t0 now reply c).1.stats.errors ≡ c.stats.errors)
        × ((fetch_cloud true t0 now reply c).1.stats.wait_ms ≡ c.stats.wait_ms)
        × ((fetch_cloud true t0 now reply c).1.stats.short_circuited ≡ suc c.stats.short_circuited)
  unfolding fetch_cloud is_short charge
  short-fetch_cloud t0 now reply c e h = ground arith

  -- While the breaker is open, reads cost nothing: however many there are and whatever the network
  -- would have given, each is answered at once, and adds neither an error nor waiting time.
  pub reads-open :
      (c : CloudCache) (rs : List (ℕ × ℕ × Reply A))
      → c.enabled ≡ true
      → All (λ r. r.0 < c.open_until) rs
      → ((reads c rs).stats.errors ≡ c.stats.errors)
        × ((reads c rs).stats.wait_ms ≡ c.stats.wait_ms)
        × ((reads c rs).stats.short_circuited ≡ c.stats.short_circuited + length rs)
  unfolding reads
  reads-open c [] e h = (refl, refl, omega arith)
  reads-open c ((t0, now, reply) ∷ rs) e (h, hs) =
      let (same_until, on, errors, wait, short) = short-fetch_cloud t0 now reply c e h in
      let (errors', wait', short') =
        reads-open (fetch_cloud true t0 now reply c).1 rs on
          (All-mono rs (λ r k. omega (arith, k, same_until)) hs) in
      (errors' ∙ errors, wait' ∙ wait, omega (arith, short, short'))

  -- What a request that gives nothing leaves: the breaker is open for its time. One that gives a
  -- body leaves it closed.
  pub sent-open_until :
      (blocking : Bool) (t0 now : ℕ) (reply : Reply A) (c : CloudCache)
      → ((sent blocking t0 now reply c).0 ≡ none
          → (sent blocking t0 now reply c).1.open_until ≡ now + c.breaker_ms)
        × ((sent blocking t0 now reply c).0 ≢ none
            → (sent blocking t0 now reply c).1.open_until ≡ 0)
  unfolding sent trip charge close_breaker
  sent-open_until blocking t0 now refused c = ground arith
  sent-open_until blocking t0 now (answered (some a)) c = ground arith
  sent-open_until blocking t0 now (answered none) c = ground arith
  sent-open_until blocking t0 now lost c = ground arith

  -- A write is never held back: even while the breaker is open, what the network gives is what the
  -- call gives.
  pub fetch_cloud-write :
      (t0 now : ℕ) (a : A) (c : CloudCache)
      → c.enabled ≡ true
      → (fetch_cloud false t0 now (answered (some a)) c).0 ≡ some a
  unfolding fetch_cloud is_short sent
  fetch_cloud-write t0 now a c e = rw e refl
