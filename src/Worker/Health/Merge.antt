-- ===== src/Worker/Health/Merge.antt =====
-- worker/src/index.js, `mergeHealth`: what the reports of clients may change.
use swarmproof.Base.{
  All, List, Option, [], ap, arith, inl, inr, none, refl, some, suc, zero, ℕ, ◌+◌, ◌<◌, ◌∷◌, ◌≡◌,
}
use swarmproof.Worker.Health.{
  HealthEntry, Observation, Request, is_put, merge_over, no_entry, or_else, puts, report, serve,
}
use swarmproof.Worker.Health.Rate.{put_one, report_first, report_put}

-- Every count of an entry satisfies the predicate.
abbrev pub Each {ℓ} : (ℕ → Type ℓ) → HealthEntry → Type ℓ
Each P e = P e.seeders × P e.leechers × P e.dht_peer_count

abbrev pub EachObserved {ℓ} : (ℕ → Type ℓ) → Observation → Type ℓ
EachObserved P o = P o.seeders × P o.leechers × P o.dht_peer_count

abbrev pub Stored {ℓ} : (ℕ → Type ℓ) → Option HealthEntry → Type ℓ
Stored P none = Unit
Stored P (some e) = Each P e

or_else-either {ℓ} : (P : ℕ → Type ℓ) (a b : ℕ) → P a → P b → P (or_else a b)
unfolding or_else
or_else-either P zero b h k = k
or_else-either P (suc a) b h k = h

merge_over-Each {ℓ} :
    (P : ℕ → Type ℓ) (obs : Observation) (prev : HealthEntry) (now : ℕ)
    → EachObserved P obs
    → Each P prev
    → Each P (merge_over obs prev now)
unfolding merge_over
merge_over-Each P obs prev now o e = (
  or_else-either P obs.seeders prev.seeders o.0 e.0,
  or_else-either P obs.leechers prev.leechers o.1 e.1,
  or_else-either P obs.dht_peer_count prev.dht_peer_count o.2 e.2,
)

pub report-Stored {ℓ} :
    (P : ℕ → Type ℓ) (cached : Option HealthEntry) (r : Request)
    → P 0
    → EachObserved P r.obs
    → Stored P cached
    → Stored P (report cached r.now r.obs r.kv_accepts).0
unfolding no_entry
report-Stored P none r z o s =
    rw (report_first r.now r.obs r.kv_accepts) (merge_over-Each P r.obs no_entry r.now o (z, z, z))
report-Stored P (some e) r z o s = elim (report_put e r.now r.obs r.kv_accepts) [
  | inl q ↦ rw q s
  | inr (inl q) ↦ rw q s
  | inr (inr (late, q)) ↦ rw q (merge_over-Each P r.obs e r.now o s)
]

-- Whatever holds of zero, of every count that clients report, and of what is stored at first, holds
-- of every count that is stored after any sequence of requests: no number is made up.
pub serve-Stored {ℓ} :
    (P : ℕ → Type ℓ) (cached : Option HealthEntry) (rs : List Request)
    → P 0
    → All (λ r. EachObserved P r.obs) rs
    → Stored P cached
    → Stored P (serve cached rs)
unfolding serve
serve-Stored P cached [] z o s = s
serve-Stored P cached (r ∷ rs) z o s =
    serve-Stored P (report cached r.now r.obs r.kv_accepts).0 rs z o.1
      (report-Stored P cached r z o.0 s)

-- The later entry has a positive count wherever the earlier one has.
abbrev pub Keeps : HealthEntry → HealthEntry → Type 0
Keeps e f =
    (0 < e.seeders → 0 < f.seeders)
    × (0 < e.leechers → 0 < f.leechers)
    × (0 < e.dht_peer_count → 0 < f.dht_peer_count)

or_else-pos : (a b : ℕ) → 0 < b → 0 < or_else a b
unfolding or_else
or_else-pos zero b h = h
or_else-pos (suc a) b h = omega arith

report-Keeps :
    (e : HealthEntry) (r : Request)
    → (f : HealthEntry) × ((report (some e) r.now r.obs r.kv_accepts).0 ≡ some f)
      × Keeps e f
      × (f.reports ≡ e.reports + is_put (report (some e) r.now r.obs r.kv_accepts).1)
unfolding merge_over is_put
report-Keeps e r = elim (report_put e r.now r.obs r.kv_accepts) [
  | inl q ↦ (e, ap (λ p. p.0) q, (λ h. h, λ h. h, λ h. h), rw q (omega arith))
  | inr (inl q) ↦ (e, ap (λ p. p.0) q, (λ h. h, λ h. h, λ h. h), rw q (omega arith))
  | inr (inr (late, q)) ↦ (
    merge_over r.obs e r.now,
    ap (λ p. p.0) q,
    (
      or_else-pos r.obs.seeders e.seeders,
      or_else-pos r.obs.leechers e.leechers,
      or_else-pos r.obs.dht_peer_count e.dht_peer_count,
    ),
    rw (q, put_one r.kv_accepts),
  )
]

-- Once an entry is stored, no sequence of requests takes it away or turns a positive count back to
-- zero, and its report number grows by exactly the writes that were due.
pub serve-Keeps :
    (e : HealthEntry) (rs : List Request)
    → (f : HealthEntry) × (serve (some e) rs ≡ some f)
      × Keeps e f
      × (f.reports ≡ e.reports + puts (some e) rs)
unfolding serve puts
serve-Keeps e [] = (e, refl, (λ h. h, λ h. h, λ h. h), omega arith)
serve-Keeps e (r ∷ rs) =
    let (f, hit, keeps, count) = report-Keeps e r in
    let (g, last, keeps', count') = serve-Keeps f rs in
    (
      g,
      rw hit last,
      (λ h. keeps'.0 (keeps.0 h), λ h. keeps'.1 (keeps.1 h), λ h. keeps'.2 (keeps.2 h)),
      rw hit (omega (arith, count, count')),
    )
