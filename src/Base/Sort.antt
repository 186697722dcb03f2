-- ===== src/Base/Sort.antt =====
-- `Array.prototype.sort`, a stable sort, as insertion by a test "comes no later than".
use Prim.Native.Nat.{zero, ℕ, suc}
use mathlib.Core.List.{◌++◌, Perm, List, [], ◌∷◌}
use swarmproof.Base.Lists.{All-append, All-drop, All-take, drop, take, All, length}
use mathlib.Core.List.Perm
use swarmproof.Base.Tests.{if◌then◌else◌, Bool-cases}
use mathlib.Core.Path.{◌≡◌, refl}
use mathlib.Core.Logic.{inl, inr}
use mathlib.Core.Bool.{Bool, true, false}
use native.Mathlib.Omega.{arith}

module _ {ℓ} {A : Type ℓ} (before : A → A → Bool) where
  unfoldable pub insert : A → List A → List A
  insert x [] = x ∷ []
  insert x (y ∷ ys) = if before x y then x ∷ y ∷ ys else y ∷ insert x ys

  unfoldable pub sort : List A → List A
  unfolding insert
  sort [] = []
  sort (x ∷ xs) = insert x (sort xs)

  abbrev pub Sorted : List A → Type 0
  Sorted [] = Unit
  Sorted (x ∷ xs) = All (λ y. before x y ≡ true) xs × Sorted xs

  insert-perm : (x : A) (ys : List A) → Perm (insert x ys) (x ∷ ys)
  unfolding insert
  insert-perm x [] = Perm.refl (x ∷ [])
  insert-perm x (y ∷ ys) = elim (Bool-cases (before x y)) [
    | inl e ↦ rw e (Perm.refl (x ∷ y ∷ ys))
    | inr e ↦ rw e (Perm.trans (Perm.cons y (insert-perm x ys)) (Perm.swap x y ys))
  ]

  pub sort-perm : (xs : List A) → Perm (sort xs) xs
  unfolding sort
  sort-perm [] = Perm.nil
  sort-perm (x ∷ xs) = Perm.trans (insert-perm x (sort xs)) (Perm.cons x (sort-perm xs))

  length-insert : (x : A) (ys : List A) → length (insert x ys) ≡ suc (length ys)
  unfolding insert
  length-insert x [] = refl
  length-insert x (y ∷ ys) = ground (arith, length-insert x ys)

  pub length-sort : (xs : List A) → length (sort xs) ≡ length xs
  unfolding sort
  length-sort [] = refl
  length-sort (x ∷ xs) = ground (arith, length-insert x (sort xs), length-sort xs)

  All-insert {κ} : (P : A → Type κ) (x : A) (ys : List A) → P x → All P ys → All P (insert x ys)
  unfolding insert
  All-insert P x [] h k = (h, tt)
  All-insert P x (y ∷ ys) h k = elim (Bool-cases (before x y)) [
    | inl e ↦ rw e (h, (k.0, k.1))
    | inr e ↦ rw e (k.0, All-insert P x ys h k.1)
  ]

  pub All-sort {κ} : (P : A → Type κ) (xs : List A) → All P xs → All P (sort xs)
  unfolding sort
  All-sort P [] h = tt
  All-sort P (x ∷ xs) h = All-insert P x (sort xs) h.0 (All-sort P xs h.1)

  -- The test is the order of a comparator: total and transitive.
  module _ (total : (x y : A) → before x y ≡ false → before y x ≡ true)
      (trans : (x y z : A) → before x y ≡ true → before y z ≡ true → before x z ≡ true) where
    All-before :
        (x y : A) (ys : List A)
        → before x y ≡ true
        → All (λ z. before y z ≡ true) ys
        → All (λ z. before x z ≡ true) ys
    All-before x y [] h k = tt
    All-before x y (z ∷ ys) h k = (trans x y z h k.0, All-before x y ys h k.1)

    insert-Sorted : (x : A) (ys : List A) → Sorted ys → Sorted (insert x ys)
    unfolding insert
    insert-Sorted x [] s = (tt, tt)
    insert-Sorted x (y ∷ ys) s = elim (Bool-cases (before x y)) [
      | inl e ↦ rw e ((e, All-before x y ys e s.0), s)
      | inr e ↦
          rw e (All-insert (λ z. before y z ≡ true) x ys (total x y e) s.0, insert-Sorted x ys s.1)
    ]

    pub sort-Sorted : (xs : List A) → Sorted (sort xs)
    unfolding sort
    sort-Sorted [] = tt
    sort-Sorted (x ∷ xs) = insert-Sorted x (sort xs) (sort-Sorted xs)

-- A sorted list, cut at any place: nothing behind the cut comes before anything in front of it.
module _ {ℓ} {A : Type ℓ} (before : A → A → Bool) where
  abbrev pub AllPairs : List A → List A → Type 0
  AllPairs xs ys = All (λ x. All (λ y. before x y ≡ true) ys) xs

  pub Sorted-append :
      (xs ys : List A)
      → Sorted before xs
      → Sorted before ys
      → AllPairs xs ys
      → Sorted before (xs ++ ys)
  Sorted-append [] ys s u a = u
  Sorted-append (x ∷ xs) ys s u a =
      (All-append (λ y. before x y ≡ true) xs ys s.0 a.0, Sorted-append xs ys s.1 u a.1)

  pub Sorted-take : (n : ℕ) (xs : List A) → Sorted before xs → Sorted before (take n xs)
  Sorted-take zero xs s = tt
  Sorted-take (suc n) [] s = tt
  Sorted-take (suc n) (x ∷ xs) s =
      (All-take (λ y. before x y ≡ true) n xs s.0, Sorted-take n xs s.1)

  pub AllPairs-take-drop :
      (n : ℕ) (xs : List A) → Sorted before xs → AllPairs (take n xs) (drop n xs)
  AllPairs-take-drop zero xs s = tt
  AllPairs-take-drop (suc n) [] s = tt
  AllPairs-take-drop (suc n) (x ∷ xs) s =
      (All-drop (λ y. before x y ≡ true) n xs s.0, AllPairs-take-drop n xs s.1)
