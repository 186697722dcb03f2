-- ===== src/ContentFilter/WellFormed.antt =====
-- contentFilter.js: what passes the junk checks.
use swarmproof.Base.{
  length, ltb, some, All, Bool, Bool-cases, List, [], any, arith, false, if◌then◌else◌, inl, inr,
  none, not, refl, true, ◌&&◌, ◌==◌, ◌∷◌, ◌≡◌, ◌≤◌,
}
use swarmproof.ContentFilter.{
  Reason, invalid_string, min_name_length, min_short_name_size, name_empty, name_too_short,
  size_too_small, ContentFilter, check, is_blank, is_high, is_invalid, is_low, is_surrogate,
  junk_reason, min_total_size, strip_pairs,
}
use swarmproof.Base.Text.{Text}
use swarmproof.Metainfo.{Meta}

-- UTF-16: every high surrogate is followed by a low one, and no low one stands alone.
unfoldable pub well_formed : Text → Bool
unfolding is_high is_low is_surrogate
well_formed [] = true
well_formed (c ∷ []) = not (is_surrogate c)
well_formed (c ∷ d ∷ t) =
    let rest = well_formed t in
    let next = well_formed (d ∷ t) in
    if is_high c && is_low d then rest else not (is_surrogate c) && next

-- Removing the pairs and looking for what is left is the test for well-formed UTF-16.
strip_pairs-well_formed : (t : Text) → any is_surrogate (strip_pairs t) ≡ not (well_formed t)
unfolding strip_pairs well_formed
strip_pairs-well_formed [] = refl
strip_pairs-well_formed (c ∷ []) = grind arith
strip_pairs-well_formed (c ∷ d ∷ t) = elim (Bool-cases (is_high c && is_low d)) [
  | inl e ↦ simp e (strip_pairs-well_formed t)
  | inr e ↦ simp e (simp (strip_pairs-well_formed (d ∷ t)) (grind arith))
]

is_invalid_lem :
    (t : Text) → is_invalid t ≡ false → (well_formed t ≡ true) × (any (λ c. c == 0) t ≡ false)
unfolding is_invalid
is_invalid_lem t h = let e = strip_pairs-well_formed t in (grind arith, grind arith)

All-valid :
    (ts : List Text)
    → any is_invalid ts ≡ false
    → All (λ t. (well_formed t ≡ true) × (any (λ c. c == 0) t ≡ false)) ts
All-valid [] h = tt
All-valid (t ∷ ts) h = (is_invalid_lem t (grind arith), All-valid ts (grind arith))

-- A cascade of reasons that ends without one.
cascade :
    (a b c d : Bool) (w x y z : Reason)
    → (if a
        then some w
        else (if b then some x else (if c then some y else (if d then some z else none))))
      ≡ none
    → (a ≡ false) × (b ≡ false) × (d ≡ false)
cascade a b c d w x y z h = ground arith

junk_reason-none :
    (m : Meta)
    → junk_reason m ≡ none
    → (is_blank m.name ≡ false)
      × (min_total_size ≤ m.size)
      × (any is_invalid (m.name ∷ m.paths) ≡ false)
unfolding junk_reason
junk_reason-none m h =
    let (a, b, d) =
      cascade (is_blank m.name) (ltb m.size min_total_size)
        (ltb (length m.name) min_name_length && ltb m.size min_short_name_size)
        (any is_invalid (m.name ∷ m.paths)) name_empty size_too_small name_too_short invalid_string
        h in
    (a, ground (arith, b), d)

-- Metadata that the filter lets through, the junk checks being on, has a name that is not blank and a
-- size of at least a kilobyte, and its name and all its paths are well-formed UTF-16 without NUL.
pub check-passes :
    (matches : Text → Text → Bool) (f : ContentFilter) (m : Meta)
    → f.junk ≡ true
    → (check matches f m).0 ≡ none
    → (is_blank m.name ≡ false)
      × (min_total_size ≤ m.size)
      × All (λ t. (well_formed t ≡ true) × (any (λ c. c == 0) t ≡ false)) (m.name ∷ m.paths)
unfolding check
check-passes matches f m j h =
    let (named, large, valid) = junk_reason-none m (grind arith) in
    (named, large, All-valid (m.name ∷ m.paths) valid)
