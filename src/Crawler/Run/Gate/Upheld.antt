-- ===== src/Crawler/Run/Gate/Upheld.antt =====
-- dhtCrawler.js: the rows of the index that the gate keeps clean.
use swarmproof.Base.{
  Bool-cases, inl, inr, List, arith, drop, length, suc, sym, take, zero, ◌/◌, ◌∙◌, Bool, Option,
  if◌then◌else◌, none, refl, some, true, ℕ, ◌≡◌, ◌≢◌,
}
use swarmproof.Crawler.Index.{
  is_resolved, note_seen, Index, counted_again, Torrent, failed_once, named_as, new_torrent,
  withheld,
}
use swarmproof.Crawler.Index.Clean.{Rows-note_seen, Rows}
use swarmproof.Crawler.Stages.{
  Lead, Crawler, Harvest, add_lead, harvest, harvest_from, harvest_one, hex,
}
use swarmproof.PeerTable.{Peer}
use mathlib.Core.Option.{some-injective}
use mathlib.Core.Path.{subst}
use swarmproof.ContentFilter.{ContentFilter, check, Reason, banned, junk_reason, subject}
use swarmproof.Base.Text.{Text}
use swarmproof.Metainfo.{Meta}

module _ (matches : Text → Text → Bool) (metadata : Text → Option Meta) (junk : Bool)
    (pattern : Text) where
  -- The filter's verdict, which its counters do not change.
  abbrev pub verdict : Meta → Option Reason
  verdict m =
      if matches pattern (subject m.name m.paths)
      then some banned
      else (if junk then junk_reason m else none)

  -- A row under its hash: a blocked one has no name, and its metadata is refused; a name is that of
  -- metadata that the filter lets through.
  pub record Gated (k : Text) (t : Torrent) : Type 0 where
    pub nameless : t.blocked ≡ true → t.name ≡ none
    pub refused : t.blocked ≡ true → (m : Meta) → metadata k ≡ some m → verdict m ≢ none
    pub passed :
        (n : Text)
        → t.name ≡ some n
        → (m : Meta) × (metadata k ≡ some m) × (m.name ≡ n) × (verdict m ≡ none)

  pub new_torrent-Gated : (k : Text) (now : ℕ) → Gated k (new_torrent now)
  unfolding new_torrent
  new_torrent-Gated k now = record { nameless = λ h. refl; refused = λ h. cc; passed = λ n h. cc }

  pub counted_again-Gated :
      (k : Text) (now : ℕ) (t : Torrent) → Gated k t → Gated k (counted_again now t)
  unfolding counted_again
  counted_again-Gated k now t g = record {
    nameless = g.nameless;
    refused = g.refused;
    passed = g.passed;
  }

  pub failed_once-Gated : (k : Text) (t : Torrent) → Gated k t → Gated k (failed_once t)
  unfolding failed_once
  failed_once-Gated k t g = record { nameless = g.nameless; refused = g.refused; passed = g.passed }

  pub withheld-Gated :
      (k : Text) (m : Meta) (t : Torrent)
      → metadata k ≡ some m
      → verdict m ≢ none
      → Gated k (withheld t)
  unfolding withheld
  withheld-Gated k m t e v = record {
    nameless = λ h. refl;
    refused =
        λ h m' e'. subst (λ (x : Meta). verdict x ≢ none) (some-injective m m' (sym e ∙ e')) v;
    passed = λ n h. cc;
  }

  pub named_as-Gated :
      (k : Text) (m : Meta) (t : Torrent)
      → metadata k ≡ some m
      → verdict m ≡ none
      → Gated k t
      → Gated k (named_as m t)
  unfolding named_as
  named_as-Gated k m t e v g = record {
    nameless = λ h. absurd (g.refused h m e v);
    refused = g.refused;
    passed = λ n h. (m, e, some-injective m.name n h, v);
  }

  abbrev pub GatedRows : Index → Type 0
  GatedRows = Rows Gated

  -- The filter is the one that the crawl began with, but for its counters.
  pub record SameFilter (f : ContentFilter) : Type 0 where
    pub same_junk : f.junk ≡ junk
    pub same_pattern : f.pattern ≡ pattern

  abbrev pub IsGated : Crawler → Type 0
  IsGated c = GatedRows c.index × SameFilter c.filter

  pub some-ne-none : (r : Reason) → some r ≡ none → ⊥
  some-ne-none r h = cc

  pub check-verdict :
      (f : ContentFilter) (m : Meta) → SameFilter f → (check matches f m).0 ≡ verdict m
  unfolding check
  check-verdict f m s = rw (← s.same_junk, ← s.same_pattern) (ground arith)

  pub check-SameFilter :
      (f : ContentFilter) (m : Meta) → SameFilter f → SameFilter (check matches f m).1
  unfolding check
  check-SameFilter f m s = grind arith

  pub add_lead-index : (hits : ℕ) (l : Lead) (h : Harvest) → (add_lead hits l h).index ≡ h.index
  unfolding add_lead
  add_lead-index hits l h = ground arith

  pub harvest_one-index :
      (now : ℕ) (node : Peer) (hash : Text) (h : Harvest)
      → (harvest_one now node hash h).index ≡ (note_seen now hash h.index).1
  unfolding harvest_one
  harvest_one-index now node hash h =
      elim (Bool-cases (is_resolved hash (note_seen now hash h.index).1)) [
        | inl e ↦ simp e refl
        | inr e ↦ simp e (add_lead-index _ _ _)
      ]

  pub harvest_one-Gated :
      (now : ℕ) (node : Peer) (hash : Text) (h : Harvest)
      → GatedRows h.index
      → GatedRows (harvest_one now node hash h).index
  harvest_one-Gated now node hash h g = subst GatedRows (sym (harvest_one-index now node hash h)) (
      Rows-note_seen Gated now hash h.index (new_torrent-Gated hash now)
        (counted_again-Gated hash now) g)

  pub harvest_from-Gated :
      (rounds now : ℕ) (node : Peer) (bytes : List ℕ) (h : Harvest)
      → GatedRows h.index
      → GatedRows (harvest_from rounds now node bytes h).index
  unfolding harvest_from
  harvest_from-Gated zero now node bytes h g = g
  harvest_from-Gated (suc rounds) now node bytes h g =
      harvest_from-Gated rounds now node (drop 20 bytes)
        (harvest_one now node (hex (take 20 bytes)) h)
        (harvest_one-Gated now node (hex (take 20 bytes)) h g)

  pub harvest-Gated :
      (now : ℕ) (node : Peer) (samples : Option (List ℕ)) (h : Harvest)
      → GatedRows h.index
      → GatedRows (harvest now node samples h).index
  unfolding harvest
  harvest-Gated now node none h g = g
  harvest-Gated now node (some bytes) h g =
      harvest_from-Gated (length bytes / 20) now node bytes h g
