-- ===== src/Crawler/Index/Clean.antt =====
-- dhtCrawler.js: a property of every row, under the statements on the table.
use mathlib.Core.Option.{some-injective}
use mathlib.Core.Path.{subst}
use swarmproof.Base.{Bool-cases, Option, Option-cases, [], inl, inr, some, sym, true, ℕ, ◌∷◌, ◌≡◌}
use swarmproof.Base.Table.{lookup, set}
use swarmproof.Base.Text.{Text, same, same_iff, same_refl}
use swarmproof.Crawler.Index.{Index, Torrent, new_torrent, note_seen, counted_again, update}

module _ (P : Text → Torrent → Type 0) where
  abbrev pub Rows : Index → Type 0
  Rows [] = Unit
  Rows ((k, t) ∷ index) = P k t × Rows index

  moved : (j k : Text) (t : Torrent) → same j k ≡ true → P k t → P j t
  moved j k t e h = subst (λ (x : Text). P x t) (sym ((same_iff j k).0 e)) h

  pub Rows-lookup :
      (k : Text) (t : Torrent) (index : Index) → Rows index → lookup k index ≡ some t → P k t
  unfolding lookup
  Rows-lookup k t [] r e = cc
  Rows-lookup k t ((j, u) ∷ index) r e = elim (Bool-cases (same j k)) [
    | inl b ↦
        let e' : ◌≡◌ {A = Option Torrent} (some u) (some t) = rw b at e in
        subst (P k) (some-injective u t e')
          (moved k j u (rw ((same_iff j k).0 b) (same_refl k)) r.0)
    | inr b ↦ Rows-lookup k t index r.1 (rw b at e)
  ]

  pub Rows-set :
      (k : Text) (t : Torrent) (index : Index) → Rows index → P k t → Rows (set k t index)
  unfolding set
  Rows-set k t [] r h = (h, tt)
  Rows-set k t ((j, u) ∷ index) r h = elim (Bool-cases (same j k)) [
    | inl b ↦ rw b (moved j k t b h, r.1)
    | inr b ↦ rw b (r.0, Rows-set k t index r.1 h)
  ]

  -- An update under a key changes rows of that key only.
  pub Rows-update :
      (f : Torrent → Torrent) (k : Text) (index : Index)
      → ((t : Torrent) → P k t → P k (f t))
      → Rows index
      → Rows (update f k index)
  unfolding update
  Rows-update f k [] h r = tt
  Rows-update f k ((j, u) ∷ index) h r = elim (Bool-cases (same j k)) [
    | inl b ↦
        rw b
          (moved j k (f u) b (h u (moved k j u (rw ((same_iff j k).0 b) (same_refl k)) r.0)), r.1)
    | inr b ↦ rw b (r.0, Rows-update f k index h r.1)
  ]

  pub Rows-note_seen :
      (now : ℕ) (k : Text) (index : Index)
      → P k (new_torrent now)
      → ((t : Torrent) → P k t → P k (counted_again now t))
      → Rows index
      → Rows (note_seen now k index).1
  unfolding note_seen
  Rows-note_seen now k index once again r = elim (Option-cases (lookup k index)) [
    | inl e ↦ rw (e, note_seen) (Rows-set k (new_torrent now) index r once)
    | inr (t, e) ↦
        rw (e, note_seen)
          (Rows-set k (counted_again now t) index r (again t (Rows-lookup k t index r e)))
  ]
