-- ===== src/Worker/Health/Rate.antt =====
-- worker/src/index.js, `HealthCoalescer`: how often one key is written.
use swarmproof.Base.{
  All-mono, Option, none, ◌/◌, All, Bool, Bool-cases, List, [], arith, false, if◌then◌else◌, inl,
  inr, ltb, refl, some, true, ℕ, ◌*◌, ◌+◌, ◌-◌, ◌∷◌, ◌≡◌, ◌≤◌, ◌⊎◌,
}
use swarmproof.Worker.Health.{
  no_entry, HealthEntry, Observation, Request, coalesced, discards, health_coalesce_ms,
  ignored_zero, is_put, kv_throttled, merge_health, merge_over, puts, report, written,
}

-- A put is due only if the stored entry is old enough, and then the new entry carries the time.
pub report_put :
    (prev : HealthEntry) (now : ℕ) (obs : Observation) (kv : Bool)
    → (report (some prev) now obs kv ≡ (some prev, ignored_zero))
      ⊎ (report (some prev) now obs kv ≡ (some prev, coalesced))
      ⊎ ((prev.ts + health_coalesce_ms ≤ now)
          × (report (some prev) now obs kv
              ≡ (some (merge_over obs prev now), if kv then written else kv_throttled)))
unfolding report merge_health
report_put prev now obs kv = elim (Bool-cases (discards obs prev)) [
  | inl d ↦ rw (d, report) (inl refl)
  | inr d ↦ elim (Bool-cases (ltb now (prev.ts + health_coalesce_ms))) [
    | inl s ↦ rw (d, s, report) (inr (inl refl))
    | inr s ↦ rw (d, s, report) (inr (inr (ground arith, refl)))
  ]
]

pub put_one : (kv : Bool) → is_put (if kv then written else kv_throttled) ≡ 1
unfolding is_put
put_one true = refl
put_one false = refl

abbrev Before : ℕ → List Request → Type 0
Before hi rs = All (λ r. r.now ≤ hi) rs

puts-some :
    (prev : HealthEntry) (hi : ℕ) (rs : List Request)
    → prev.ts ≤ hi
    → Before hi rs
    → puts (some prev) rs * health_coalesce_ms ≤ hi - prev.ts
unfolding puts merge_over
puts-some prev hi [] h b = omega arith
puts-some prev hi (r ∷ rs) h b = elim (report_put prev r.now r.obs r.kv_accepts) [
  | inl e ↦ rw e (omega (arith, puts-some prev hi rs h b.1))
  | inr (inl e) ↦ rw e (omega (arith, puts-some prev hi rs h b.1))
  | inr (inr (late, e)) ↦
      rw (e, put_one r.kv_accepts)
        (omega (arith, puts-some (merge_over r.obs prev r.now) hi rs b.0 b.1, late, h))
]

abbrev Within : ℕ → ℕ → List Request → Type 0
Within lo hi rs = All (λ r. (lo ≤ r.now) × (r.now ≤ hi)) rs

pub report_first :
    (now : ℕ) (obs : Observation) (kv : Bool)
    → report none now obs kv
      ≡ (some (merge_over obs no_entry now), if kv then written else kv_throttled)
unfolding report merge_health
report_first now obs kv = refl

puts-none :
    (lo hi : ℕ) (rs : List Request)
    → lo ≤ hi
    → Within lo hi rs
    → puts none rs * health_coalesce_ms ≤ (hi - lo) + health_coalesce_ms
unfolding puts merge_over
puts-none lo hi [] h b = omega arith
puts-none lo hi (r ∷ rs) h b =
    rw (report_first r.now r.obs r.kv_accepts, put_one r.kv_accepts)
      (omega (
        arith,
        puts-some (merge_over r.obs no_entry r.now) hi rs b.0.1 (All-mono rs (λ q k. k.1) b.1),
        b.0,
      ))

puts_any :
    (prev : HealthEntry) (lo hi : ℕ) (rs : List Request)
    → lo ≤ hi
    → Within lo hi rs
    → puts (some prev) rs * health_coalesce_ms ≤ (hi - lo) + health_coalesce_ms
unfolding puts is_put merge_over
puts_any prev lo hi [] h b = omega arith
puts_any prev lo hi (r ∷ rs) h b = elim (report_put prev r.now r.obs r.kv_accepts) [
  | inl e ↦ rw e (omega (arith, puts_any prev lo hi rs h b.1))
  | inr (inl e) ↦ rw e (omega (arith, puts_any prev lo hi rs h b.1))
  | inr (inr (late, e)) ↦
      rw (e, put_one r.kv_accepts)
        (omega (
          arith,
          puts-some (merge_over r.obs prev r.now) hi rs b.0.1 (All-mono rs (λ q k. k.1) b.1),
          b.0,
        ))
]

-- However many clients report one infohash, and whatever they report, the store is asked for at most
-- one write of its key in each coalescing interval of the time in which the requests come, and one
-- more; whether the clock runs backwards and whether the store takes the writes does not matter.
pub puts_rate :
    (cached : Option HealthEntry) (lo hi : ℕ) (rs : List Request)
    → lo ≤ hi
    → All (λ r. (lo ≤ r.now) × (r.now ≤ hi)) rs
    → puts cached rs ≤ (hi - lo) / health_coalesce_ms + 1
puts_rate none lo hi rs h b = omega (arith, puts-none lo hi rs h b)
puts_rate (some e) lo hi rs h b = omega (arith, puts_any e lo hi rs h b)
