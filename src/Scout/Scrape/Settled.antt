-- ===== src/Scout/Scrape/Settled.antt =====
-- swarmScout.js, `_scrapeTrackers`: every scrape ends, whatever the trackers do.
use mathlib.Core.Option.{some-injective}
use mathlib.Core.Path.{subst}
use swarmproof.Base.{
  sym, Bool-cases, Option, ap, inl, inr, none, some, Bool, List, [], arith, false, if◌then◌else◌,
  length, refl, suc, true, zero, ℕ, ◌+◌, ◌<◌, ◌∷◌, ◌≡◌, ◌≤◌,
}
use swarmproof.Scout.Scrape.{
  nothing_yet, start_scrape, Counted, ScrapeEvent, answers, gives_up, grace_ends, note_answer,
  on_scrape, run_scrape, take_max, Scraping, count_down, is_open, mark_done, not_done,
}
use swarmproof.Base.Text.{Text}

pub count_open : List Bool → ℕ
count_open [] = 0
count_open (d ∷ ds) = if d then count_open ds else suc (count_open ds)

count_open-mark_done :
    (i : ℕ) (ds : List Bool)
    → is_open i ds ≡ true
    → count_open ds ≡ suc (count_open (mark_done i ds))
unfolding is_open mark_done count_open
count_open-mark_done i [] h = grind arith
count_open-mark_done zero (d ∷ ds) h = ground (arith, h)
count_open-mark_done (suc i) (d ∷ ds) h = ground (arith, count_open-mark_done i ds h)

-- The count of those that are awaited is right; an unsettled scrape awaits one; so many have answered
-- as are no longer awaited, at most; and a scrape that none has answered settles only at the end.
pub record Counts (n : ℕ) (s : Scraping) : Type 0 where
  pub awaited : s.pending ≡ count_open s.done
  pub unsettled : s.settled ≡ false → 0 < s.pending
  pub answered : s.best.responded + s.pending ≤ n
  pub graced : s.grace ≡ true → 0 < s.best.responded
  pub early : s.settled ≡ true → s.best.responded ≡ 0 → s.pending ≡ 0

count_open-not_done : (ts : List Text) → count_open (not_done ts) ≡ length ts
unfolding not_done count_open
count_open-not_done [] = refl
count_open-not_done (t ∷ ts) = omega (arith, count_open-not_done ts)

-- What an answer changes before the count goes down.
count_down-Counts :
    (n i : ℕ) (s s' : Scraping)
    → is_open i s.done ≡ true
    → s'.done ≡ mark_done i s.done
    → s'.pending ≡ s.pending
    → s'.settled ≡ s.settled
    → s.best.responded ≤ s'.best.responded
    → s'.best.responded ≤ suc s.best.responded
    → (s'.grace ≡ true → 0 < s'.best.responded)
    → Counts n s
    → Counts n (count_down s')
unfolding count_down
count_down-Counts n i s s' o d p t r r' g c =
    let m = count_open-mark_done i s.done o in
    let d' = ap count_open d in
    let a = c.awaited in
    let u = c.unsettled in
    let b = c.answered in
    let e = c.early in
    record {
      awaited = omega (arith, a, d', m, p);
      unsettled = λ h. grind arith;
      answered = omega (arith, b, a, p, r', m);
      graced = g;
      early = λ h k. grind arith;
    }

note-Counts :
    (n i : ℕ) (s : Scraping) (o : Option Counted)
    → is_open i s.done ≡ true
    → Counts n s
    → Counts n (count_down (note_answer o (record s { done = mark_done i s.done })))
unfolding note_answer take_max
note-Counts n i s none o c =
    count_down-Counts n i s (record s { done = mark_done i s.done }) o refl refl refl (omega arith)
      (omega arith) c.graced c
note-Counts n i s (some k) o c =
    count_down-Counts n i s (note_answer (some k) (record s { done = mark_done i s.done })) o refl
      refl refl (omega arith) (omega arith) (λ h. omega arith) c

on_scrape-Counts : (n : ℕ) (s : Scraping) (e : ScrapeEvent) → Counts n s → Counts n (on_scrape s e)
unfolding on_scrape
on_scrape-Counts n s (answers i k) c = elim (Bool-cases (is_open i s.done)) [
  | inl o ↦ simp o (note-Counts n i s k o c)
  | inr o ↦ simp o c
]
on_scrape-Counts n s (gives_up i) c = elim (Bool-cases (is_open i s.done)) [
  | inl o ↦ simp o (
      count_down-Counts n i s (record s { done = mark_done i s.done }) o refl refl refl
        (omega arith) (omega arith) c.graced c)
  | inr o ↦ simp o c
]
on_scrape-Counts n s grace_ends c = elim (Bool-cases s.grace) [
  | inl g ↦ simp g (record {
    awaited = c.awaited;
    unsettled = λ h. grind arith;
    answered = c.answered;
    graced = λ h. c.graced g;
    early = λ h k. omega (arith, c.graced g, k);
  })
  | inr g ↦ simp g c
]

run_scrape-Counts :
    (n : ℕ) (s : Scraping) (es : List ScrapeEvent) → Counts n s → Counts n (run_scrape s es)
unfolding run_scrape
run_scrape-Counts n s [] c = c
run_scrape-Counts n s (e ∷ es) c = run_scrape-Counts n (on_scrape s e) es (on_scrape-Counts n s e c)

start-Counts :
    (t : Text) (ts : List Text) (s : Scraping)
    → start_scrape (t ∷ ts) ≡ some s
    → Counts (length (t ∷ ts)) s
unfolding start_scrape nothing_yet
start-Counts t ts s h = subst (Counts (length (t ∷ ts))) (some-injective _ _ h) (record {
  awaited = sym (count_open-not_done (t ∷ ts));
  unsettled = λ k. omega arith;
  answered = omega arith;
  graced = λ k. grind arith;
  early = λ k l. grind arith;
})

-- Whatever the trackers do and in whatever order: when each has answered or been given up, the scrape
-- has settled; when it has settled and none has answered, each has been given up; and no more answers
-- are counted than there are trackers.
pub run_scrape-settled :
    (t : Text) (ts : List Text) (s : Scraping) (es : List ScrapeEvent)
    → start_scrape (t ∷ ts) ≡ some s
    → (count_open (run_scrape s es).done ≡ 0 → (run_scrape s es).settled ≡ true)
      × ((run_scrape s es).settled ≡ true
          → (run_scrape s es).best.responded ≡ 0
          → count_open (run_scrape s es).done ≡ 0)
      × ((run_scrape s es).best.responded ≤ length (t ∷ ts))
run_scrape-settled t ts s es h =
    let c = run_scrape-Counts (length (t ∷ ts)) s es (start-Counts t ts s h) in
    (
      λ k. elim (Bool-cases (run_scrape s es).settled) [
        | inl o ↦ o
        | inr o ↦ grind (arith, c.unsettled o, c.awaited, k)
      ],
      λ k l. omega (arith, c.early k l, c.awaited),
      omega (arith, c.answered),
    )
