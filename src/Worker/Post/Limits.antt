-- ===== src/Worker/Post/Limits.antt =====
-- worker/src/index.js, `postHealth`: what unauthenticated reports can store.
use swarmproof.Base.{
  All-mono, length, ltb, refl, All, Bool-cases, List, Option, [], arith, inl, inr, none, some, true,
  ℕ, ◌∷◌, ◌≡◌, ◌≤◌,
}
use swarmproof.Worker.Post.{
  Body, failure, max_hashes_per_query, post_health, post_reports, read_json, value, Checked,
  add_checked, check_all, reject, Coalescers, Env, RawReport, accept, check_report, counts, deliver,
  deliver_all, store,
}
use swarmproof.Worker.Input.{
  clamp_int_bounds, lower, Number, clamp_int, is_info_hash, max_reported_count,
}
use swarmproof.Base.Table.{lookup, set}
use swarmproof.Base.Text.{Text, same}
use swarmproof.Worker.Health.{HealthEntry, Observation}
use swarmproof.Worker.Health.Merge.{Each, EachObserved, Stored, report-Stored}

-- Every stored entry satisfies the predicate.
abbrev pub AllStored : (HealthEntry → Type 0) → Coalescers → Type 0
AllStored P w = All (λ e. P e.1) w

abbrev pub IsBounded : HealthEntry → Type 0
IsBounded = Each (λ n. n ≤ max_reported_count)

abbrev IsBoundedObs : Observation → Type 0
IsBoundedObs = EachObserved (λ n. n ≤ max_reported_count)

All-set :
    (P : HealthEntry → Type 0) (k : Text) (e : HealthEntry) (w : Coalescers)
    → P e
    → AllStored P w
    → AllStored P (set k e w)
unfolding set
All-set P k e [] h a = (h, tt)
All-set P k e ((j, f) ∷ w) h a = elim (Bool-cases (same j k)) [
  | inl q ↦ rw q (h, a.1)
  | inr q ↦ rw q (a.0, All-set P k e w h a.1)
]

Stored-lookup :
    (P : ℕ → Type 0) (k : Text) (w : Coalescers) → AllStored (Each P) w → Stored P (lookup k w)
unfolding lookup
Stored-lookup P k [] a = tt
Stored-lookup P k ((j, f) ∷ w) a = elim (Bool-cases (same j k)) [
  | inl q ↦ rw q a.0
  | inr q ↦ rw q (Stored-lookup P k w a.1)
]

store-AllStored :
    (P : ℕ → Type 0) (k : Text) (o : Option HealthEntry) (w : Coalescers)
    → Stored P o
    → AllStored (Each P) w
    → AllStored (Each P) (store k o w)
unfolding store
store-AllStored P k none w s a = a
store-AllStored P k (some e) w s a = All-set (Each P) k e w s a

deliver-IsBounded :
    (env : Env) (w : Coalescers) (obs : Observation)
    → IsBoundedObs obs
    → AllStored IsBounded w
    → AllStored IsBounded (deliver env w obs).0
unfolding deliver
deliver-IsBounded env w obs o a = elim (Bool-cases (env.reachable obs.info_hash)) [
  | inr q ↦ rw q a
  | inl q ↦ rw q (
      store-AllStored (λ n. n ≤ max_reported_count) obs.info_hash _ w
        (report-Stored (λ n. n ≤ max_reported_count) (lookup obs.info_hash w)
          (record { now = env.now; obs = obs; kv_accepts = env.kv_accepts obs.info_hash })
          (omega arith) o (Stored-lookup (λ n. n ≤ max_reported_count) obs.info_hash w a))
        a)
]

deliver_all-IsBounded :
    (env : Env) (w : Coalescers) (obs : List Observation)
    → All IsBoundedObs obs
    → AllStored IsBounded w
    → AllStored IsBounded (deliver_all env w obs).0
unfolding deliver_all
deliver_all-IsBounded env w [] o a = a
deliver_all-IsBounded env w (x ∷ obs) o a =
    deliver_all-IsBounded env (deliver env w x).0 obs o.1 (deliver-IsBounded env w x o.0 a)

-- An accepted report has a well-formed infohash, and counts within the bound.
abbrev pub IsAccepted : Observation → Type 0
IsAccepted obs = (is_info_hash obs.info_hash ≡ true) × IsBoundedObs obs

abbrev Below : Option ℕ → Type 0
Below none = Unit
Below (some n) = n ≤ max_reported_count

clamp_int-Below : (v : Number) → Below (clamp_int v)
clamp_int-Below v = go (clamp_int v) refl
  where
    go : (o : Option ℕ) → clamp_int v ≡ o → Below o
    go none e = tt
    go (some n) e = (clamp_int_bounds v e).0

counts-IsBounded :
    (ih : Text) (s l d : Option ℕ) (obs : Observation)
    → Below s
    → Below l
    → Below d
    → counts ih s l d ≡ some obs
    → (obs.info_hash ≡ ih) × IsBoundedObs obs
unfolding counts
counts-IsBounded ih none l d obs hs hl hd h = cc
counts-IsBounded ih (some s) none d obs hs hl hd h = cc
counts-IsBounded ih (some s) (some l) none obs hs hl hd h = cc
counts-IsBounded ih (some s) (some l) (some d) obs hs hl hd h = ground arith

check_counts :
    (ih : Text) (o : Option Observation) (obs : Observation)
    → is_info_hash ih ≡ true
    → ((x : Observation) → o ≡ some x → (x.info_hash ≡ ih) × IsBoundedObs x)
    → elim o [ none ↦ reject ih | some x ↦ accept x ] ≡ accept obs
    → IsAccepted obs
check_counts ih none obs well bounds h = cc
check_counts ih (some x) obs well bounds h =
    let (here, bounded) = bounds x refl in
    let same_obs : x ≡ obs = cc h in rw (← same_obs) (rw here well, bounded)

check_report-IsAccepted :
    (r : RawReport) (obs : Observation) → check_report r ≡ accept obs → IsAccepted obs
unfolding check_report
check_report-IsAccepted r obs h = elim (Bool-cases (is_info_hash (lower r.info_hash))) [
  | inr q ↦ cc (rw (q, check_report) at h)
  | inl q ↦
      check_counts (lower r.info_hash) _ obs q
        (λ x e.
          counts-IsBounded (lower r.info_hash) _ _ _ x (clamp_int-Below r.seeders)
            (clamp_int-Below r.leechers) (clamp_int-Below r.dht_peer_count) e)
        (rw (q, check_report) at h)
]

check_all-IsAccepted : (rs : List RawReport) → All IsAccepted (check_all rs).0
unfolding check_all
check_all-IsAccepted [] = tt
check_all-IsAccepted (r ∷ rs) = go (check_report r) refl (check_all-IsAccepted rs)
  where
    go :
        (c : Checked)
        → check_report r ≡ c
        → All IsAccepted (check_all rs).0
        → All IsAccepted (add_checked c (check_all rs)).0
    go (accept obs) e h = (check_report-IsAccepted r obs e, h)
    go (reject ih) e h = h

post_reports-IsBounded :
    (env : Env) (w : Coalescers) (reports : List RawReport)
    → AllStored IsBounded w
    → AllStored IsBounded (post_reports env w reports).0
unfolding post_reports
post_reports-IsBounded env w reports a =
    elim (Bool-cases (ltb max_hashes_per_query (length reports))) [
      | inl q ↦ rw q a
      | inr q ↦ rw q (
          deliver_all-IsBounded env w (check_all reports).0
            (All-mono _ (λ x h. h.1) (check_all-IsAccepted reports)) a)
    ]

-- Whatever the bodies say, whatever they parse to, and whichever coalescers and keys are at fault, no
-- stored count ever exceeds the bound on a reported one.
pub post_health-IsBounded :
    (parse : Text → Option (Option (List RawReport))) (env : Env) (w : Coalescers)
    (content_length : ℕ) (t : Text)
    → AllStored IsBounded w
    → AllStored IsBounded (post_health parse env w content_length t).0
unfolding post_health
post_health-IsBounded parse env w n t a = go (read_json parse n t) refl
  where
    go :
        (b : Body (Option (List RawReport)))
        → read_json parse n t ≡ b
        → AllStored IsBounded (post_health parse env w n t).0
    go (failure e) q = rw (q, post_health) a
    go (value none) q = rw (q, post_health) a
    go (value (some reports)) q = rw (q, post_health) (post_reports-IsBounded env w reports a)
