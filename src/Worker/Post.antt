-- ===== src/Worker/Post.antt =====
-- worker/src/index.js: the bodies of requests (`readJson`) and the handler `postHealth`.
--
-- `JSON.parse` is a parameter, which gives the reports of a body, if the body has an array of them.
-- The environment of one handler run says at what time it runs, which coalescers can be reached, and
-- for which keys the key-value store takes a write; a coalescer that is not reached is unchanged.
pub mod Account
pub mod Limits
mod Tests
use swarmproof.Base.{
  Bool, List, Option, [], if◌then◌else◌, length, ltb, none, some, take, ℕ, ◌*◌, ◌+◌, ◌∷◌,
}
use swarmproof.Base.Table.{lookup, set}
use swarmproof.Base.Text.{Text}
use swarmproof.Worker.Health.{
  HealthEntry, Observation, Outcome, coalesced, ignored_zero, kv_throttled, report, written,
}
use swarmproof.Worker.Input.{Number, clamp_int, is_info_hash, lower}

abbrev pub max_body_bytes : ℕ
max_body_bytes = 64 * 1024

abbrev pub max_hashes_per_query : ℕ
max_hashes_per_query = 20

-- One element of `reports`: `String(r?.infoHash || '')`, and the counts through `Number`.
pub record RawReport : Type 0 where
  pub info_hash : Text
  pub seeders : Number
  pub leechers : Number
  pub dht_peer_count : Number

pub data Refusal : Type 0 where
  body_too_large invalid_json no_reports too_many : Refusal

pub data Body {ℓ} (V : Type ℓ) : Type ℓ where
  value : V → Body V
  failure : Refusal → Body V

pub parsed {ℓ} : {V : Type ℓ} → Option V → Body V
parsed none = failure invalid_json
parsed (some v) = value v

pub read_json {ℓ} : {V : Type ℓ} → (Text → Option V) → ℕ → Text → Body V
unfolding parsed
read_json parse content_length t =
    if ltb max_body_bytes content_length
    then failure body_too_large
    else (if ltb max_body_bytes (length t) then failure body_too_large else parsed (parse t))

unfoldable pub counts : Text → Option ℕ → Option ℕ → Option ℕ → Option Observation
counts ih (some s) (some l) (some d) =
    some (record { info_hash = ih; seeders = s; leechers = l; dht_peer_count = d })
counts ih s l d = none

-- An element of `valid`, or what goes on `rejected`.
pub data Checked : Type 0 where
  accept : Observation → Checked
  reject : Text → Checked

unfoldable pub check_report : RawReport → Checked
unfolding counts
check_report r =
    let ih = lower r.info_hash in
    if is_info_hash ih
    then elim (counts ih (clamp_int r.seeders) (clamp_int r.leechers)
        (clamp_int r.dht_peer_count)) [ none ↦ reject ih | some obs ↦ accept obs ]
    else reject (take 64 ih)

pub add_checked : Checked → List Observation × List Text → List Observation × List Text
add_checked (accept obs) (valid, rejected) = (obs ∷ valid, rejected)
add_checked (reject ih) (valid, rejected) = (valid, ih ∷ rejected)

pub check_all : List RawReport → List Observation × List Text
unfolding add_checked
check_all [] = ([], [])
check_all (r ∷ rs) = add_checked (check_report r) (check_all rs)

pub record Env : Type 0 where
  pub now : ℕ
  pub reachable : Text → Bool
  pub kv_accepts : Text → Bool

-- The entries of the coalescers, by infohash.
abbrev pub Coalescers : Type 0
Coalescers = List (Text × HealthEntry)

pub data Reply : Type 0 where
  outcome : Outcome → Reply
  error : Reply

pub store : Text → Option HealthEntry → Coalescers → Coalescers
store k none w = w
store k (some e) w = set k e w

pub deliver : Env → Coalescers → Observation → Coalescers × Reply
unfolding store
deliver env w obs =
    if env.reachable obs.info_hash
    then (let (cached, o) =
          report (lookup obs.info_hash w) env.now obs (env.kv_accepts obs.info_hash) in
        (store obs.info_hash cached w, outcome o))
    else (w, error)

pub deliver_all : Env → Coalescers → List Observation → Coalescers × List Reply
deliver_all env w [] = (w, [])
deliver_all env w (obs ∷ rest) =
    let (w', r) = deliver env w obs in let (w'', rs) = deliver_all env w' rest in (w'', r ∷ rs)

pub record Tally : Type 0 where
  pub written : ℕ
  pub coalesced : ℕ
  pub ignored_zero : ℕ
  pub kv_throttled : ℕ
  pub errors : ℕ

-- The five counts over `outcomes`.
pub tally : List Reply → Tally
tally [] = record { written = 0; coalesced = 0; ignored_zero = 0; kv_throttled = 0; errors = 0 }
tally (outcome Outcome.written ∷ rs) = let t = tally rs in record t { written = t.written + 1 }
tally (outcome Outcome.coalesced ∷ rs) =
    let t = tally rs in record t { coalesced = t.coalesced + 1 }
tally (outcome Outcome.ignored_zero ∷ rs) =
    let t = tally rs in record t { ignored_zero = t.ignored_zero + 1 }
tally (outcome Outcome.kv_throttled ∷ rs) =
    let t = tally rs in record t { kv_throttled = t.kv_throttled + 1 }
tally (error ∷ rs) = let t = tally rs in record t { errors = t.errors + 1 }

pub data Response : Type 0 where
  answered : Tally → List Text → Response
  refused : Refusal → Response

pub post_reports : Env → Coalescers → List RawReport → Coalescers × Response
unfolding tally
post_reports env w reports =
    if ltb max_hashes_per_query (length reports)
    then (w, refused too_many)
    else (let (valid, rejected) = check_all reports in
        let (w', replies) = deliver_all env w valid in (w', answered (tally replies) rejected))

pub post_health :
    (Text → Option (Option (List RawReport))) → Env → Coalescers → ℕ → Text → Coalescers × Response
post_health parse env w content_length t = elim (read_json parse content_length t) [
  | failure e ↦ (w, refused e)
  | value none ↦ (w, refused no_reports)
  | value (some reports) ↦ post_reports env w reports
]
