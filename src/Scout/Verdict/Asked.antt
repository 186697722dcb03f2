-- ===== src/Scout/Verdict/Asked.antt =====
-- swarmScout.js, `assess`, with `fetchFromAny` (metainfo.js) and the peer table: whom a refutation rests
-- on.
use swarmproof.Base.{
  All, ap, Bool-cases, List, Option, [], arith, false, inl, inr, leb, length, none, refl, some, sym,
  true, ℕ, ◌<◌, ◌∙◌, ◌↔◌, ◌∷◌, ◌≡◌, ◌≢◌, ◌≤◌,
}
use mathlib.Core.Path.{subst}
use swarmproof.Metainfo.{Meta}
use swarmproof.Metainfo.Any.{choose, fetch_from_any, fly, launch}
use swarmproof.Metainfo.Any.InTurn.{first_ok, in_turn_lem}
use swarmproof.Metainfo.Any.Schedule.{fly-first_ok, was_found}
use swarmproof.Metainfo.Fetch.{Result}
use swarmproof.PeerTable.{Peer, PeerTable, rank}
use swarmproof.PeerTable.Rank.{alive, rank_none_alive}
use swarmproof.Scout.Verdict.{Attempt, Ranked, assess_one, proved, refutation_min_peers, unproved}
use swarmproof.Scout.Verdict.Proof.{refuted_iff}

-- What the peers give, within the deadline: `meta?.ok`, with the metadata.
of_metadata : Option Meta → Attempt
of_metadata none = unproved
of_metadata (some m) = proved m

pub attempt_of : Option Result → Attempt
unfolding of_metadata
attempt_of none = unproved
attempt_of (some r) = of_metadata r.metadata

-- The peers of an entry that are connected to: those that the table ranks first.
abbrev pub asked : ℕ → PeerTable → Ranked → ℕ → List Peer
asked now t r max_peers = (rank now t r.peers max_peers).1

was_found-fetch_from_any :
    (attempt : Peer → Result) (now : ℕ) (t : PeerTable) (ps : List Peer) (max_peers k : ℕ)
    (es : List (ℕ × ℕ))
    → 0 < k
    → length
        (fly attempt
          (launch (some (rank now t ps max_peers).0) (rank now t ps max_peers).1 k)
          es).flying
      ≡ 0
    → was_found (fetch_from_any attempt now (some t) ps max_peers k es).0
      ≡ was_found (first_ok attempt (rank now t ps max_peers).1)
unfolding fetch_from_any choose
was_found-fetch_from_any attempt now t ps max_peers k es h e =
    let t' = (rank now t ps max_peers).0 in
    let ordered = (rank now t ps max_peers).1 in
    elim (Bool-cases (leb k 1)) [
      | inl b ↦ rw (b) (ap was_found (in_turn_lem attempt now t' ordered).0)
      | inr b ↦ rw (b) (fly-first_ok attempt (some t') ordered k es h e)
    ]

all_fail :
    (attempt : Peer → Result) (ps : List Peer)
    → (was_found (first_ok attempt ps) ≡ false) ↔ All (λ p. (attempt p).ok ≡ false) ps
unfolding was_found first_ok
all_fail attempt [] = (λ h. tt, λ h. refl)
all_fail attempt (p ∷ ps) = ground (arith, all_fail attempt ps)

of_metadata_proved : (m : Option Meta) → m ≢ none → of_metadata m ≢ unproved
unfolding of_metadata
of_metadata_proved none h = λ e. h refl
of_metadata_proved (some m) h = λ e. cc

attempt_of_unproved :
    (o : Option Result)
    → ((x : Result) → o ≡ some x → x.metadata ≢ none)
    → (attempt_of o ≡ unproved) ↔ (was_found o ≡ false)
unfolding attempt_of was_found
attempt_of_unproved none h = (λ e. refl, λ e. refl)
attempt_of_unproved (some x) h = (
  λ e. absurd (of_metadata_proved x.metadata (h x refl) e),
  λ e. let off : ⊥ = cc in elim off [ ],
)

module _ (attempt : Peer → Result) (now : ℕ) (t : PeerTable) (r : Ranked) (max_peers k : ℕ)
    (es : List (ℕ × ℕ)) where
  -- What `fetchFromAny` gives for the entry's peers.
  abbrev pub peers_answer : Option Result
  peers_answer = (fetch_from_any attempt now (some t) r.peers max_peers k es).0

  -- No attempt is in the air any more.
  abbrev pub AllLanded : Type 0
  AllLanded =
      length
        (fly attempt (launch (some (rank now t r.peers max_peers).0) (asked now t r max_peers) k)
          es).flying
      ≡ 0

  -- For verification within the deadline, a few at a time and in whatever order the attempts end, where
  -- the answer, if there is one, has metadata: an entry is refuted just if at least five peers are known
  -- and none of those that were asked serves it; these are the ones that the table ranks first. So an
  -- entry with five known peers that the table all holds for dead is refuted though nobody was asked.
  pub refuted-asked :
      0 < k
      → AllLanded
      → ((x : Result) → peers_answer ≡ some x → x.metadata ≢ none)
      → (((assess_one true (attempt_of peers_answer) r).refuted ≡ true) ↔ (
          (refutation_min_peers ≤ length r.peers)
          × All (λ p. (attempt p).ok ≡ false) (asked now t r max_peers)))
        × (All (λ p. alive now t p ≡ false) r.peers
            → refutation_min_peers ≤ length r.peers
            → (asked now t r max_peers ≡ [])
              × ((assess_one true (attempt_of peers_answer) r).refuted ≡ true))
  refuted-asked h landed meta =
      let found = was_found-fetch_from_any attempt now t r.peers max_peers k es h landed in
      let (to, from) = refuted_iff true (attempt_of peers_answer) r in
      let (unproved_to, unproved_from) = attempt_of_unproved peers_answer meta in
      let (fail_to, fail_from) = all_fail attempt (asked now t r max_peers) in
      let enough : refutation_min_peers ≤ length r.peers
          → All (λ p. (attempt p).ok ≡ false) (asked now t r max_peers)
          → (assess_one true (attempt_of peers_answer) r).refuted ≡ true =
        λ five fails. from (refl, unproved_from (found ∙ fail_from fails), five) in
      (
        (
          λ e. let (v, u, five) = to e in (five, fail_to (sym found ∙ unproved_to u)),
          λ (five, fails). enough five fails,
        ),
        λ dead five.
            let nobody = rank_none_alive now t r.peers max_peers dead in
            (nobody, enough five (subst (All (λ p. (attempt p).ok ≡ false)) (sym nobody) tt)),
      )
