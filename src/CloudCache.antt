-- ===== src/CloudCache.antt =====
-- cloudCache.js: the client of the control plane, and its circuit breaker.
--
-- What the network gives for a request, and when, are arguments; so is the clock at the start.
pub mod Breaker
mod Tests
use swarmproof.Base.{
  Bool, List, Option, [], false, if◌then◌else◌, ltb, none, some, true, ℕ, ◌&&◌, ◌+◌, ◌-◌, ◌∷◌,
}
use swarmproof.Base.Text.{Text}
use swarmproof.Metainfo.Any.InTurn.{calls}

abbrev pub default_breaker_ms : ℕ
default_breaker_ms = 10_000

pub record CloudStats : Type 0 where
  pub errors : ℕ
  pub short_circuited : ℕ
  pub wait_ms : ℕ
  pub calls : ℕ

pub record CloudCache : Type 0 where
  pub enabled : Bool
  pub breaker_ms : ℕ
  pub open_until : ℕ
  pub stats : CloudStats

pub is_given : Text → Bool
is_given [] = false
is_given (c ∷ t) = true

pub breaker_of : Option ℕ → ℕ
breaker_of none = default_breaker_ms
breaker_of (some ms) = ms

-- The endpoint as it is left when the slashes at its end are gone.
pub connect_cloud : Text → Option ℕ → CloudCache
unfolding is_given breaker_of
connect_cloud endpoint breaker_ms = record {
  enabled = is_given endpoint;
  breaker_ms = breaker_of breaker_ms;
  open_until = 0;
  stats = record { errors = 0; short_circuited = 0; wait_ms = 0; calls = 0 };
}

-- A status that is not ok; an ok one with its body, if the body is JSON; or no answer in time.
pub data Reply {ℓ} (A : Type ℓ) : Type ℓ where
  refused : Reply A
  answered : Option A → Reply A
  lost : Reply A

-- `charge`
pub charge : Bool → ℕ → ℕ → CloudCache → CloudCache
charge blocking t0 now c =
    if blocking
    then record c {
      stats = record (c.stats) {
        wait_ms = c.stats.wait_ms + (now - t0);
        calls = c.stats.calls + 1;
      };
    }
    else c

-- `_trip`
pub trip : ℕ → CloudCache → CloudCache
trip now c = record c {
  open_until = now + c.breaker_ms;
  stats = record (c.stats) { errors = c.stats.errors + 1 };
}

pub close_breaker : CloudCache → CloudCache
close_breaker c = record c { open_until = 0 }

-- `_fetch` behind its guards: the request is sent, and has ended at a time.
pub sent {ℓ} : {A : Type ℓ} → Bool → ℕ → ℕ → Reply A → CloudCache → Option A × CloudCache
unfolding charge trip close_breaker
sent blocking t0 now refused c = (none, charge blocking t0 now (trip now c))
sent blocking t0 now (answered (some a)) c = (some a, charge blocking t0 now (close_breaker c))
sent blocking t0 now (answered none) c = (none, charge blocking t0 now (trip now (close_breaker c)))
sent blocking t0 now lost c = (none, charge blocking t0 now (trip now c))

pub is_short : Bool → ℕ → CloudCache → Bool
is_short blocking t0 c = blocking && ltb t0 c.open_until

-- `_fetch`, from `t0` to `now`.
pub fetch_cloud {ℓ} : {A : Type ℓ} → Bool → ℕ → ℕ → Reply A → CloudCache → Option A × CloudCache
unfolding sent is_short charge
fetch_cloud blocking t0 now reply c =
    if c.enabled
    then (if is_short blocking t0 c
        then (
          none,
          charge blocking t0 t0 (record c {
            stats = record (c.stats) { short_circuited = c.stats.short_circuited + 1 };
          }),
        )
        else sent blocking t0 now reply c)
    else (none, c)

-- `reportHealth` and `reportNodes`: nothing to say is not sent.
pub report_cloud {ℓ κ} :
    {A : Type ℓ} {B : Type κ} → ℕ → ℕ → Reply A → List B → CloudCache → Option A × CloudCache
unfolding fetch_cloud
report_cloud t0 now reply [] c = (none, c)
report_cloud t0 now reply (x ∷ xs) c = fetch_cloud false t0 now reply c

-- `getNodes`: the nodes of the body, if it has an array of them.
pub get_nodes {ℓ} :
    {A : Type ℓ}
    → Bool
    → ℕ
    → ℕ
    → Reply (Option (List A))
    → CloudCache
    → Option (List A) × CloudCache
unfolding fetch_cloud
get_nodes blocking t0 now reply c =
    let (body, c') = fetch_cloud blocking t0 now reply c in
    (elim body [ none ↦ none | some nodes ↦ nodes ], c')
