-- ===== src/Catalog/Magnet.antt =====
-- catalog.js: a magnet link with a hash of forty letters and digits, and the hash alone.
use swarmproof.Catalog.{
  first_label, is_word_unit, CandidateEntry, entry_of, parse_error, not_magnet, parse_input,
  parse_trimmed, parse_magnet, parse_url, trim, trim_start, trim_end, is_alnum_unit, is_letter_unit,
  is_hex_unit, known_trackers, find_hash, hash_behind, first_run, run_of, strip_small,
  to_hex_info_hash, ends_word, once_each, make_candidate,
}
use swarmproof.Base.{
  Bool-cases, if◌then◌else◌, inl, inr, all, ap, drop, suc, take, zero, ◌==◌, ◌∙◌, All, length, List,
  Option, Bool, [], arith, false, none, refl, some, true, ℕ, ◌∷◌, ◌≡◌, ◌++◌,
}
use swarmproof.Worker.Pool.{accepted}
use swarmproof.Base.Dots.{is_digit}
use swarmproof.Base.Text.{Text, text}
use swarmproof.ContentFilter.{is_blank_unit}
use swarmproof.Worker.Input.{lower, to_lower}

abbrev pub magnet_of : Text → Text
magnet_of h = text "magnet:?xt=urn:btih:" ++ h

alnum_not_blank : (c : ℕ) → is_alnum_unit c ≡ true → is_blank_unit c ≡ false
unfolding is_alnum_unit is_letter_unit is_blank_unit is_digit to_lower
alnum_not_blank c h = ground (arith, h)

trim_end_none : (t : Text) → All (λ c. is_blank_unit c ≡ false) t → trim_end t ≡ t
unfolding trim_end
trim_end_none [] h = refl
trim_end_none (c ∷ t) (h, hs) = rw (h, trim_end_none t hs) refl

trim_none : (t : Text) → All (λ c. is_blank_unit c ≡ false) t → trim t ≡ t
unfolding trim trim_start
trim_none [] h = trim_end_none [] h
trim_none (c ∷ t) (h, hs) = rw (trim_end_none (c ∷ t) (h, hs), h) refl

no_blanks : (h : Text) → All (λ c. is_alnum_unit c ≡ true) h → All (λ c. is_blank_unit c ≡ false) h
no_blanks [] a = tt
no_blanks (c ∷ h) (a, more) = (alnum_not_blank c a, no_blanks h more)

no_blanks_ahead :
    (h : Text)
    → All (λ c. is_blank_unit c ≡ false) h
    → All (λ c. is_blank_unit c ≡ false) (magnet_of h)
unfolding is_blank_unit
no_blanks_ahead h a = (
  refl,
  (
    refl,
    (
      refl,
      (
        refl,
        (
          refl,
          (
            refl,
            (
              refl,
              (
                refl,
                (
                  refl,
                  (
                    refl,
                    (
                      refl,
                      (refl, (refl, (refl, (refl, (refl, (refl, (refl, (refl, (refl, a))))))))),
                    ),
                  ),
                ),
              ),
            ),
          ),
        ),
      ),
    ),
  ),
)

all_of : (p : ℕ → Bool) (h : Text) → All (λ c. p c ≡ true) h → all p h ≡ true
all_of p [] a = refl
all_of p (c ∷ h) (a, more) = rw (a) (all_of p h more)

skip_place :
    (inside : Bool) (c : ℕ) (t : Text)
    → (inside ≡ false → strip_small (text "xt=urn:btih:") (c ∷ t) ≡ none)
    → find_hash inside (c ∷ t) ≡ find_hash (is_word_unit c) t
unfolding find_hash hash_behind first_run
skip_place true c t h = refl
skip_place false c t h = rw (h refl) refl

found_here :
    (c : ℕ) (t h : Text)
    → strip_small (text "xt=urn:btih:") (c ∷ t) ≡ some h
    → run_of is_alnum_unit 40 h ≡ some h
    → find_hash false (c ∷ t) ≡ some h
unfolding find_hash hash_behind first_run
found_here c t h e k = rw (e, k) refl

take_exactly : (n : ℕ) (h : Text) → length h ≡ n → take n h ≡ h
take_exactly zero [] e = refl
take_exactly zero (c ∷ h) e = let off : ⊥ = omega (arith, e) in elim off [ ]
take_exactly (suc n) [] e = refl
take_exactly (suc n) (c ∷ h) e = ap (λ (t : Text). c ∷ t) (take_exactly n h (omega (arith, e)))

drop_exactly : (n : ℕ) (h : Text) → length h ≡ n → drop n h ≡ []
drop_exactly zero [] e = refl
drop_exactly zero (c ∷ h) e = let off : ⊥ = omega (arith, e) in elim off [ ]
drop_exactly (suc n) [] e = refl
drop_exactly (suc n) (c ∷ h) e = drop_exactly n h (omega (arith, e))

run_of-alnum :
    (n : ℕ) (h : Text)
    → length h ≡ n
    → All (λ c. is_alnum_unit c ≡ true) h
    → run_of is_alnum_unit n h ≡ some h
unfolding run_of ends_word
run_of-alnum n h e a =
    let size : (length h == n) ≡ true = ground (arith, e) in
    rw (take_exactly n h e, drop_exactly n h e, size, all_of is_alnum_unit h a) refl

behind_prefix : (h : Text) → strip_small (text "xt=urn:btih:") (text "xt=urn:btih:" ++ h) ≡ some h
unfolding strip_small to_lower
behind_prefix h = refl

find_hash-magnet_of :
    (h : Text)
    → length h ≡ 40
    → All (λ c. is_alnum_unit c ≡ true) h
    → find_hash false (magnet_of h) ≡ some h
unfolding strip_small to_lower is_word_unit is_alnum_unit is_letter_unit is_digit
find_hash-magnet_of h n a =
    let t = text "xt=urn:btih:" ++ h in
    skip_place false b'm' (text "agnet:?" ++ t) (λ e. refl)
    ∙ skip_place true b'a' (text "gnet:?" ++ t) (λ e. refl)
    ∙ skip_place true b'g' (text "net:?" ++ t) (λ e. refl)
    ∙ skip_place true b'n' (text "et:?" ++ t) (λ e. refl)
    ∙ skip_place true b'e' (text "t:?" ++ t) (λ e. refl)
    ∙ skip_place true b't' (text ":?" ++ t) (λ e. refl)
    ∙ skip_place true b':' (text "?" ++ t) (λ e. refl)
    ∙ skip_place false b'?' t (λ e. refl)
    ∙ found_here b'x' (text "t=urn:btih:" ++ h) h (behind_prefix h) (run_of-alnum 40 h n a)

no_colon :
    (p h : Text) → All (λ c. is_alnum_unit c ≡ true) h → strip_small (p ++ b':' ∷ []) h ≡ none
unfolding strip_small is_alnum_unit is_letter_unit is_digit to_lower
no_colon [] [] a = refl
no_colon [] (d ∷ h) (a, more) =
    let other : (b':' == to_lower d) ≡ false = ground (arith, a) in rw (other) refl
no_colon (c ∷ p) [] a = refl
no_colon (c ∷ p) (d ∷ h) (a, more) = elim (Bool-cases (c == to_lower d)) [
  | inl e ↦ rw (e) (no_colon p h more)
  | inr e ↦ rw (e) refl
]

module _ (encode : Text → Text) (decode32 : Text → Text)
    (read_url : Text → Option (Option Text × List Text)) where
  parse_trimmed-alone :
      (h : Text)
      → length h ≡ 40
      → All (λ c. is_alnum_unit c ≡ true) h
      → parse_trimmed encode decode32 read_url h ≡ (
          if all is_hex_unit h
          then entry_of (make_candidate encode (take 8 h) h known_trackers)
          else parse_error not_magnet)
  unfolding parse_trimmed
  parse_trimmed-alone [] n a = let off : ⊥ = omega (arith, n) in elim off [ ]
  parse_trimmed-alone (c ∷ h) n a =
      let size : (length (c ∷ h) == 40) ≡ true = ground (arith, n) in
      rw (size, no_colon (text "magnet") (c ∷ h) a) refl

  parse_trimmed-magnet_of :
      (h : Text) (dn : Option Text) (given : List Text)
      → length h ≡ 40
      → All (λ c. is_alnum_unit c ≡ true) h
      → read_url (magnet_of h) ≡ some (dn, given)
      → (e : CandidateEntry) × (parse_trimmed encode decode32 read_url (magnet_of h) ≡ entry_of e)
        × (e.info_hash ≡ lower h)
  unfolding parse_trimmed strip_small to_lower parse_magnet parse_url to_hex_info_hash
  parse_trimmed-magnet_of h dn given n a u =
      let size : (length (magnet_of h) == 40) ≡ false = ground (arith, n) in
      let long : (length h == 32) ≡ false = ground (arith, n) in
      let e : CandidateEntry = record {
        label = first_label dn (lower h);
        info_hash = lower h;
        magnet_uri = magnet_of h;
        trackers = once_each [] (given ++ known_trackers);
      } in
      (e, (rw (size, find_hash-magnet_of h n a, u, long) refl), refl)

  -- For forty letters and digits: alone, they are accepted as a hash just if each is a hexadecimal digit.
  -- In a magnet link that is a URL they are accepted whether they are or not, and the hash is what they
  -- are in small letters.
  pub parse_input-magnet_of :
      (h : Text) (dn : Option Text) (given : List Text)
      → length h ≡ 40
      → All (λ c. is_alnum_unit c ≡ true) h
      → read_url (magnet_of h) ≡ some (dn, given)
      → (parse_input encode decode32 read_url h ≡ (
          if all is_hex_unit h
          then entry_of (make_candidate encode (take 8 h) h known_trackers)
          else parse_error not_magnet))
        × ((e : CandidateEntry) × (parse_input encode decode32 read_url (magnet_of h) ≡ entry_of e)
            × (e.info_hash ≡ lower h))
  unfolding parse_input
  parse_input-magnet_of h dn given n a u =
      let clean = no_blanks h a in
      let (e, accepted, same_hash) = parse_trimmed-magnet_of h dn given n a u in
      (
        ap (parse_trimmed encode decode32 read_url) (trim_none h clean) ∙ parse_trimmed-alone h n a,
        (
          e,
          ap (parse_trimmed encode decode32 read_url)
                (trim_none (magnet_of h) (no_blanks_ahead h clean))
              ∙ accepted,
          same_hash,
        ),
      )
