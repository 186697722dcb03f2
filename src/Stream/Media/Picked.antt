-- ===== src/Stream/Media/Picked.antt =====
-- streamServer.js, `_pickMediaFile`: which file is served.
use swarmproof.Base.{
  ◌∙◌, sym, All, Bool, List, [], arith, filter, inl, inr, refl, some, true, ◌∷◌, ◌≡◌, ◌≤◌, ◌⊎◌,
}
use swarmproof.Stream.Media.{
  larger, is_video, media_pool, pick_media_file, File, largest, largest_from,
}
use mathlib.Core.Option.{some-injective}
use mathlib.Core.Path.{subst}

abbrev pub IsOneOf : File → List File → Type 0
IsOneOf f [] = ⊥
IsOneOf f (g ∷ fs) = (f ≡ g) ⊎ IsOneOf f fs

abbrev pub NoneLarger : File → List File → Type 0
NoneLarger f fs = All (λ g. g.size ≤ f.size) fs

larger_lem :
    (a b : File)
    → ((larger a b ≡ a) ⊎ (larger a b ≡ b))
      × (a.size ≤ (larger a b).size)
      × (b.size ≤ (larger a b).size)
unfolding larger
larger_lem a b = ground arith

largest_from_lem :
    (a : File) (fs : List File)
    → ((largest_from a fs ≡ a) ⊎ IsOneOf (largest_from a fs) fs)
      × (a.size ≤ (largest_from a fs).size)
      × NoneLarger (largest_from a fs) fs
unfolding largest_from
largest_from_lem a [] = (inl refl, omega arith, tt)
largest_from_lem a (b ∷ fs) =
    let (which, more_a, more_b) = larger_lem a b in
    let (place, size, others) = largest_from_lem (larger a b) fs in
    (
      elim place [
        | inl h ↦ elim which [ inl k ↦ inl (h ∙ k) | inr k ↦ inr (inl (h ∙ k)) ]
        | inr h ↦ inr (inr h)
      ],
      omega (arith, size, more_a),
      (omega (arith, size, more_b), others),
    )

largest_lem : (fs : List File) (f : File) → largest fs ≡ some f → IsOneOf f fs × NoneLarger f fs
unfolding largest
largest_lem [] f h = let absurd : ⊥ = cc in elim absurd [ ]
largest_lem (g ∷ fs) f h =
    let e : largest_from g (g ∷ fs) ≡ f = some-injective _ _ h in
    let (place, size, others) = largest_from_lem g (g ∷ fs) in
    subst (λ (x : File). IsOneOf x (g ∷ fs) × NoneLarger x (g ∷ fs)) e
      (elim place [ inl k ↦ inl k | inr k ↦ k ], others)

filter-IsOneOf :
    (p : File → Bool) (fs : List File) (f : File)
    → IsOneOf f (filter p fs)
    → IsOneOf f fs × (p f ≡ true)
filter-IsOneOf p [] f h = elim h [ ]
filter-IsOneOf p (g ∷ fs) f h = ground (arith, filter-IsOneOf p fs f)

-- What a file must be that is picked: none is larger among the videos, or among all files if none is a
-- video.
pub record IsPicked (files : List File) (f : File) : Type 0 where
  pub offered : IsOneOf f files
  pub is_best :
      (is_video f.name ≡ true) × NoneLarger f (filter (λ g. is_video g.name) files)
      ⊎ (filter (λ g. is_video g.name) files ≡ []) × NoneLarger f files

from_pool :
    (files videos : List File) (f : File)
    → filter (λ g. is_video g.name) files ≡ videos
    → largest (media_pool videos files) ≡ some f
    → IsPicked files f
unfolding media_pool
from_pool files [] f e h =
    let (place, size) = largest_lem files f h in record { offered = place; is_best = inr (e, size) }
from_pool files (v ∷ vs) f e h =
    let (place, size) = largest_lem (v ∷ vs) f h in
    let (here, video) =
      filter-IsOneOf (λ g. is_video g.name) files f (subst (IsOneOf f) (sym e) place) in
    record { offered = here; is_best = inl (video, subst (NoneLarger f) (sym e) size) }

-- `_pickMediaFile` gives one of the files: the largest video, or the largest file where no file is a
-- video.
pub pick_media_file-IsPicked :
    (files : List File) (f : File) → pick_media_file files ≡ some f → IsPicked files f
unfolding pick_media_file
pick_media_file-IsPicked files f h = from_pool files (filter (λ g. is_video g.name) files) f refl h
