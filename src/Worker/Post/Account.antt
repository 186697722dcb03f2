-- ===== src/Worker/Post/Account.antt =====
-- worker/src/index.js, `postHealth`: every report is answered for once.
use swarmproof.Base.{List, [], ap, arith, length, refl, suc, ℕ, ◌+◌, ◌∷◌, ◌≡◌, ◌≤◌}
use swarmproof.Base.Text.{Text}
use swarmproof.Worker.Health.{Observation, Outcome}
use swarmproof.Worker.Post.{
  Coalescers, Env, RawReport, Reply, Tally, answered, check_all, deliver, deliver_all, error,
  max_hashes_per_query, outcome, post_reports, tally,
}

pub total : Tally → ℕ
total t = t.written + t.coalesced + t.ignored_zero + t.kv_throttled + t.errors

total-tally : (rs : List Reply) → total (tally rs) ≡ length rs
unfolding total tally
total-tally [] = omega arith
total-tally (outcome Outcome.written ∷ rs) = omega (arith, total-tally rs)
total-tally (outcome Outcome.coalesced ∷ rs) = omega (arith, total-tally rs)
total-tally (outcome Outcome.ignored_zero ∷ rs) = omega (arith, total-tally rs)
total-tally (outcome Outcome.kv_throttled ∷ rs) = omega (arith, total-tally rs)
total-tally (error ∷ rs) = omega (arith, total-tally rs)

length-check_all :
    (rs : List RawReport) → length (check_all rs).0 + length (check_all rs).1 ≡ length rs
unfolding check_all
length-check_all [] = omega arith
length-check_all (r ∷ rs) = ground (arith, length-check_all rs)

length-deliver_all :
    (env : Env) (w : Coalescers) (obs : List Observation)
    → length (deliver_all env w obs).1 ≡ length obs
unfolding deliver_all
length-deliver_all env w [] = refl
length-deliver_all env w (o ∷ obs) = ap suc (length-deliver_all env (deliver env w o).0 obs)

-- A body of at most twenty reports is answered, and the five counts of the answer and the rejected
-- reports together are as many as the reports.
pub post_reports_account :
    (env : Env) (w : Coalescers) (reports : List RawReport)
    → length reports ≤ max_hashes_per_query
    → (t : Tally) × (rejected : List Text) × ((post_reports env w reports).1 ≡ answered t rejected)
      × (total t + length rejected ≡ length reports)
unfolding post_reports
post_reports_account env w reports h =
    let valid = (check_all reports).0 in
    let replies = (deliver_all env w valid).1 in
    (
      tally replies,
      (check_all reports).1,
      ground arith,
      omega (arith, total-tally replies, length-deliver_all env w valid, length-check_all reports),
    )
