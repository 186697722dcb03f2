-- ===== src/Worker/Pool/Batches.antt =====
-- worker/src/index.js, `aggregateNodes`: reading in batches changes nothing.
use swarmproof.Base.{
  List, Option, [], ap, arith, drop, length, length-drop, map, refl, suc, sym, take, zero, ℕ, ◌++◌,
  ◌∙◌, ◌∷◌, ◌≡◌, ◌≤◌,
}
use swarmproof.Base.Text.{Text}
use swarmproof.Worker.Pool.{Contribution, Seen, add_batches, add_bodies, add_body, batch}

add_bodies-append :
    (now : ℕ) (xs ys : List (Option Contribution)) (seen : Seen)
    → add_bodies now (xs ++ ys) seen ≡ add_bodies now ys (add_bodies now xs seen)
unfolding add_bodies
add_bodies-append now [] ys seen = refl
add_bodies-append now (x ∷ xs) ys seen = add_bodies-append now xs ys (add_body now x seen)

map-take-drop :
    (get : Text → Option Contribution) (n : ℕ) (names : List Text)
    → map get (take n names) ++ map get (drop n names) ≡ map get names
map-take-drop get zero names = refl
map-take-drop get (suc n) [] = refl
map-take-drop get (suc n) (x ∷ names) = ap (◌∷◌ (get x)) (map-take-drop get n names)

-- The batched loop merges exactly the contributions under all the names, in the order of the names.
pub add_batches-add_bodies :
    (now : ℕ) (get : Text → Option Contribution) (f : ℕ) (names : List Text) (seen : Seen)
    → length names ≤ f
    → add_batches now get f names seen ≡ add_bodies now (map get names) seen
unfolding add_batches
add_batches-add_bodies now get zero [] seen h = unfold add_bodies in refl
add_batches-add_bodies now get zero (n ∷ ns) seen h = absurd (omega arith)
add_batches-add_bodies now get (suc f) [] seen h = unfold add_bodies in refl
add_batches-add_bodies now get (suc f) (n ∷ ns) seen h =
    add_batches-add_bodies now get f (drop batch (n ∷ ns))
      (add_bodies now (map get (take batch (n ∷ ns))) seen)
      (omega (arith, length-drop {0} batch (n ∷ ns)))
    ∙ sym
        (add_bodies-append now (map get (take batch (n ∷ ns))) (map get (drop batch (n ∷ ns))) seen)
    ∙ ap (λ l. add_bodies now l seen) (map-take-drop get batch (n ∷ ns))
