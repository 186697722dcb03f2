-- ===== src/Base/Table.antt =====
-- A `Map` keyed by text: an association list in insertion order, in which `set` on a key that is
-- there keeps its place.
use swarmproof.Base.Text.{same_sym, Text, same, same_iff}
use mathlib.Core.Logic.{inl, inr}
use swarmproof.Base.Lists.{drop, length, All}
use swarmproof.Base.Tests.{Bool-cases, if◌then◌else◌}
use Prim.Native.Nat.{ℕ, zero, suc}
use mathlib.Core.Path.{◌≡◌, refl}
use mathlib.Core.Bool.{false}
use mathlib.Core.Option.{Option, none, some}
use mathlib.Core.List.{List, [], ◌∷◌}
use native.Mathlib.Omega.{arith}

module _ {ℓ} {V : Type ℓ} where
  unfoldable pub lookup : Text → List (Text × V) → Option V
  lookup k [] = none
  lookup k ((j, v) ∷ m) = if same j k then some v else lookup k m

  unfoldable pub set : Text → V → List (Text × V) → List (Text × V)
  set k v [] = (k, v) ∷ []
  set k v ((j, w) ∷ m) = if same j k then (j, v) ∷ m else (j, w) ∷ set k v m

  pub lookup-set :
      (k j : Text) (v : V) (m : List (Text × V))
      → lookup j (set k v m) ≡ (if same k j then some v else lookup j m)
  unfolding lookup set
  lookup-set k j v [] = refl
  lookup-set k j v ((i, w) ∷ m) =
      ground (arith, same_iff k j, same_iff i k, same_iff i j, lookup-set k j v m)

  pub length-set :
      (k : Text) (v : V) (m : List (Text × V))
      → lookup k m ≡ none
      → length (set k v m) ≡ suc (length m)
  unfolding lookup set
  length-set k v [] h = refl
  length-set k v ((i, w) ∷ m) h = ground (arith, length-set k v m)

  pub length-set_old :
      (k : Text) (v w : V) (m : List (Text × V))
      → lookup k m ≡ some w
      → length (set k v m) ≡ length m
  unfolding lookup set
  length-set_old k v w [] h = cc
  length-set_old k v w ((i, u) ∷ m) h = ground (arith, length-set_old k v w m)

  -- No key stands twice.
  abbrev pub Distinct : List (Text × V) → Type 0
  Distinct [] = Unit
  Distinct ((k, v) ∷ m) = All (λ e. same e.0 k ≡ false) m × Distinct m

  pub lookup-drop :
      (k : Text) (n : ℕ) (m : List (Text × V)) → lookup k m ≡ none → lookup k (drop n m) ≡ none
  unfolding lookup
  lookup-drop k zero m h = h
  lookup-drop k (suc n) [] h = refl
  lookup-drop k (suc n) ((j, v) ∷ m) h = lookup-drop k n m (ground arith)

  All-keys-set :
      (j k : Text) (v : V) (m : List (Text × V))
      → same k j ≡ false
      → All (λ e. same e.0 j ≡ false) m
      → All (λ e. same e.0 j ≡ false) (set k v m)
  unfolding set
  All-keys-set j k v [] h a = (h, tt)
  All-keys-set j k v ((i, w) ∷ m) h a = elim (Bool-cases (same i k)) [
    | inl e ↦ rw e a
    | inr e ↦ rw e (a.0, All-keys-set j k v m h a.1)
  ]

  pub Distinct-set : (k : Text) (v : V) (m : List (Text × V)) → Distinct m → Distinct (set k v m)
  unfolding set
  Distinct-set k v [] d = (tt, tt)
  Distinct-set k v ((i, w) ∷ m) d = elim (Bool-cases (same i k)) [
    | inl e ↦ rw e d
    | inr e ↦ rw e (All-keys-set i k v m (same_sym i k e) d.0, Distinct-set k v m d.1)
  ]

  pub Distinct-drop : (n : ℕ) (m : List (Text × V)) → Distinct m → Distinct (drop n m)
  Distinct-drop zero m d = d
  Distinct-drop (suc n) [] d = tt
  Distinct-drop (suc n) (e ∷ m) d = Distinct-drop n m d.1

  lookup_absent :
      (k : Text) (m : List (Text × V)) → All (λ e. same e.0 k ≡ false) m → lookup k m ≡ none
  unfolding lookup
  lookup_absent k [] h = refl
  lookup_absent k ((j, v) ∷ m) h = rw h.0 (lookup_absent k m h.1)

  -- What is left after a drop was there before it.
  pub lookup-drop-some :
      (k : Text) (n : ℕ) (m : List (Text × V)) (v : V)
      → Distinct m
      → lookup k (drop n m) ≡ some v
      → lookup k m ≡ some v
  unfolding lookup
  lookup-drop-some k zero m v d h = h
  lookup-drop-some k (suc n) [] v d h = h
  lookup-drop-some k (suc n) ((j, w) ∷ m) v d h =
      let below = lookup-drop-some k n m v d.1 h in
      elim (Bool-cases (same j k)) [
        | inr e ↦ rw e below
        | inl e ↦
            let absent : lookup j m ≡ none = lookup_absent j m d.0 in
            absurd (ground (arith, same_iff j k))
      ]
