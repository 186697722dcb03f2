-- ===== src/Stream/Player/Shortlist.antt =====
-- streamServer.js, `play`: the candidates that it takes up.
use mathlib.Core.Path.{subst}
use swarmproof.Base.{
  filter, length, ltb, sym, ◌<◌, All, Bool-cases, List, [], arith, false, inl, inr, map, refl, true,
  ◌||◌, ◌∷◌, ◌≡◌, ◌⊎◌,
}
use swarmproof.Stream.Player.{play_list, scored_or_all, Candidate, collapse_from, has_hash}
use swarmproof.Base.Text.{Text, same, same_refl, same_sym}

abbrev pub hashes_of : List Candidate → List Text
hashes_of = map (λ c. c.info_hash)

-- No hash stands twice.
abbrev pub AreDistinct : List Text → Type 0
AreDistinct [] = Unit
AreDistinct (h ∷ hs) = (has_hash h hs ≡ false) × AreDistinct hs

abbrev Unseen : List Text → Candidate → Type 0
Unseen seen c = has_hash c.info_hash seen ≡ false

pub has_hash-cons : (h k : Text) (ks : List Text) → has_hash h (k ∷ ks) ≡ same k h || has_hash h ks
unfolding has_hash
has_hash-cons h k ks = refl

pub has_hash_first : (h : Text) (hs : List Text) → has_hash h (h ∷ hs) ≡ true
has_hash_first h hs = ground (arith, has_hash-cons h h hs, same_refl h)

Unseen-cons :
    (k : Text) (seen : List Text) (cs : List Candidate)
    → All (Unseen (k ∷ seen)) cs
    → All (Unseen seen) cs × (has_hash k (hashes_of cs) ≡ false)
unfolding has_hash
Unseen-cons k seen [] h = (tt, refl)
Unseen-cons k seen (c ∷ cs) (a, h) =
    let (rest, apart) = Unseen-cons k seen cs h in
    ((ground (arith, a), rest), ground (arith, a, apart, same_sym k c.info_hash))

distinct_from_lem :
    (seen : List Text) (cs : List Candidate)
    → AreDistinct (hashes_of (collapse_from seen cs)) × All (Unseen seen) (collapse_from seen cs)
unfolding collapse_from
distinct_from_lem seen [] = (tt, tt)
distinct_from_lem seen (c ∷ cs) = elim (Bool-cases (has_hash c.info_hash seen)) [
  | inl e ↦ rw (e) (distinct_from_lem seen cs)
  | inr e ↦
      let (d, u) = distinct_from_lem (c.info_hash ∷ seen) cs in
      let (v, apart) = Unseen-cons c.info_hash seen (collapse_from (c.info_hash ∷ seen) cs) u in
      rw (e) ((apart, d), (e, v))
]

-- A candidate whose hash has been seen, or is among those that stay.
abbrev Kept : List Text → List Candidate → Candidate → Type 0
Kept seen out c = (has_hash c.info_hash seen ≡ true) ⊎ (has_hash c.info_hash (hashes_of out) ≡ true)

Kept-cons :
    (c : Candidate) (seen : List Text) (out cs : List Candidate)
    → All (Kept (c.info_hash ∷ seen) out) cs
    → All (Kept seen (c ∷ out)) cs
unfolding has_hash
Kept-cons c seen out [] h = tt
Kept-cons c seen out (d ∷ ds) (a, h) = (ground (arith, a), Kept-cons c seen out ds h)

distinct_from_skips :
    (seen : List Text) (c : Candidate) (cs : List Candidate)
    → has_hash c.info_hash seen ≡ true
    → collapse_from seen (c ∷ cs) ≡ collapse_from seen cs
unfolding collapse_from
distinct_from_skips seen c cs e = rw (e) refl

distinct_from_keeps :
    (seen : List Text) (c : Candidate) (cs : List Candidate)
    → has_hash c.info_hash seen ≡ false
    → collapse_from seen (c ∷ cs) ≡ c ∷ collapse_from (c.info_hash ∷ seen) cs
unfolding collapse_from
distinct_from_keeps seen c cs e = rw (e) refl

collapse_from-Kept :
    (seen : List Text) (cs : List Candidate) → All (Kept seen (collapse_from seen cs)) cs
collapse_from-Kept seen [] = tt
collapse_from-Kept seen (c ∷ cs) = elim (Bool-cases (has_hash c.info_hash seen)) [
  | inl e ↦
      subst (λ (out : List Candidate). All (Kept seen out) (c ∷ cs))
        (sym (distinct_from_skips seen c cs e)) (inl e, collapse_from-Kept seen cs)
  | inr e ↦
      let out = collapse_from (c.info_hash ∷ seen) cs in
      subst (λ (o : List Candidate). All (Kept seen o) (c ∷ cs))
        (sym (distinct_from_keeps seen c cs e))
        (
          inr (has_hash_first c.info_hash (hashes_of out)),
          Kept-cons c seen out cs (collapse_from-Kept (c.info_hash ∷ seen) cs),
        )
]

-- The candidates with a score, or all of them where none has one.
pub eligible : List Candidate → List Candidate
eligible cs = scored_or_all (filter (λ c. ltb 0 c.score) cs) cs

collapse_from-nonempty : (cs : List Candidate) → 0 < length cs → 0 < length (collapse_from [] cs)
unfolding collapse_from has_hash
collapse_from-nonempty [] h = h
collapse_from-nonempty (c ∷ cs) h = omega arith

scored_or_all-nonempty :
    (scored cs : List Candidate) → 0 < length cs → 0 < length (scored_or_all scored cs)
unfolding scored_or_all
scored_or_all-nonempty [] cs h = h
scored_or_all-nonempty (c ∷ scored) cs h = omega arith

Kept-nothing :
    (out cs : List Candidate)
    → All (Kept [] out) cs
    → All (λ c. has_hash c.info_hash (hashes_of out) ≡ true) cs
unfolding has_hash
Kept-nothing out [] h = tt
Kept-nothing out (c ∷ cs) (a, h) = (ground (arith, a), Kept-nothing out cs h)

-- What `play` takes up has no hash twice; it has the hash of every candidate with a score, or of every
-- candidate where none has one; and it is not empty unless nothing is supplied.
pub play_list_lem :
    (cs : List Candidate)
    → AreDistinct (hashes_of (play_list cs))
      × All (λ c. has_hash c.info_hash (hashes_of (play_list cs)) ≡ true) (eligible cs)
      × (0 < length cs → 0 < length (play_list cs))
unfolding play_list eligible
play_list_lem cs =
    let pool = scored_or_all (filter (λ c. ltb 0 c.score) cs) cs in
    (
      (distinct_from_lem [] pool).0,
      Kept-nothing (collapse_from [] pool) pool (collapse_from-Kept [] pool),
      λ h.
          collapse_from-nonempty pool
            (scored_or_all-nonempty (filter (λ c. ltb 0 c.score) cs) cs h),
    )
