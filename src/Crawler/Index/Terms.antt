-- ===== src/Crawler/Index/Terms.antt =====
-- dhtCrawler.js, `search`: the terms of a query, and what the results are.
use swarmproof.Base.{
  All-take, length-take, ◌≤◌, Bool, List, Option-cases, all, false, some, All, All-append,
  Bool-cases, [], arith, inl, inr, length, true, ℕ, ◌++◌, ◌<◌, ◌∷◌, ◌≡◌,
}
use swarmproof.Crawler.Index.{
  results, search_index, Index, Torrent, contains, found_in, matches_all, is_term_unit, terms_from,
}
use swarmproof.Base.Text.{Text}
use swarmproof.PeerTable.{run}

abbrev pub IsTermUnit : ℕ → Type 0
IsTermUnit c = is_term_unit c ≡ true

-- A term has a unit, and is of lower-case letters and digits alone: `%`, `_` and the quote of SQL
-- cannot stand in it.
pub record IsTerm (t : Text) : Type 0 where
  pub nonempty : 0 < length t
  pub units : All IsTermUnit t

terms_from-IsTerm : (run q : Text) → All IsTermUnit run → All IsTerm (terms_from run q)
unfolding terms_from
terms_from-IsTerm [] [] h = tt
terms_from-IsTerm (r ∷ run) [] h = (record { nonempty = omega arith; units = h }, tt)
terms_from-IsTerm [] (c ∷ cs) h = elim (Bool-cases (is_term_unit c)) [
  | inl e ↦ rw (e) (terms_from-IsTerm (c ∷ []) cs (e, tt))
  | inr e ↦ rw (e) (terms_from-IsTerm [] cs tt)
]
terms_from-IsTerm (r ∷ run) (c ∷ cs) h = elim (Bool-cases (is_term_unit c)) [
  | inl e ↦
      rw (e)
        (terms_from-IsTerm ((r ∷ run) ++ c ∷ []) cs (All-append IsTermUnit (r ∷ run) _ h (e, tt)))
  | inr e ↦ rw (e) (record { nonempty = omega arith; units = h }, terms_from-IsTerm [] cs tt)
]

-- What a result is: a torrent with a name, which is not blocked and contains all terms.
pub record IsFound (lower_name : Text → Text) (terms : List Text) (t : Torrent) : Type 0 where
  pub name_of : Text
  pub is_named : t.name ≡ some name_of
  pub not_blocked : t.blocked ≡ false
  pub has_terms : All (λ term. contains term (lower_name name_of) ≡ true) terms

all-All : {A : Type 0} (p : A → Bool) (xs : List A) → all p xs ≡ true → All (λ x. p x ≡ true) xs
all-All p [] e = tt
all-All p (x ∷ xs) e = (grind arith, all-All p xs (grind arith))

matches_all-IsFound :
    (lower_name : Text → Text) (terms : List Text) (t : Torrent)
    → matches_all lower_name terms t ≡ true
    → IsFound lower_name terms t
unfolding matches_all
matches_all-IsFound lower_name terms t e = elim (Option-cases t.name) [
  | inl n ↦ ground (arith, n, e)
  | inr (name, n) ↦
      let all_in : all (λ term. contains term (lower_name name)) terms ≡ true =
        ground (arith, n, e) in
      record {
        name_of = name;
        is_named = n;
        not_blocked = ground (arith, n, e);
        has_terms = all-All (λ term. contains term (lower_name name)) terms all_in;
      }
]

abbrev pub IsResult : (Text → Text) → List Text → Text × Torrent → Type 0
IsResult lower_name terms r = IsFound lower_name terms r.1

found_in-IsFound :
    (lower_name : Text → Text) (terms : List Text) (index : Index)
    → All (IsResult lower_name terms) (found_in lower_name terms index)
unfolding found_in
found_in-IsFound lower_name terms [] = tt
found_in-IsFound lower_name terms (r ∷ index) =
    elim (Bool-cases (matches_all lower_name terms r.1)) [
      | inl e ↦
          rw (e)
            (matches_all-IsFound lower_name terms r.1 e, found_in-IsFound lower_name terms index)
      | inr e ↦ rw (e) (found_in-IsFound lower_name terms index)
    ]

results-IsFound :
    (lower_name : Text → Text) (by_hits : Index → Index) (limit : ℕ) (index : Index)
    (terms : List Text)
    → ((P : Text × Torrent → Type 0) (rows : Index) → All P rows → All P (by_hits rows))
    → All (IsResult lower_name terms) (results lower_name by_hits limit index terms)
      × (length (results lower_name by_hits limit index terms) ≤ limit)
unfolding results
results-IsFound lower_name by_hits limit index [] keeps = (tt, omega arith)
results-IsFound lower_name by_hits limit index (t ∷ ts) keeps =
    let rows = found_in lower_name (t ∷ ts) index in
    let P = IsResult lower_name (t ∷ ts) in
    (
      All-take P limit (by_hits rows) (keeps P rows (found_in-IsFound lower_name (t ∷ ts) index)),
      omega (arith, length-take limit (by_hits rows)),
    )

-- Whatever the query: its terms are not empty and of letters and digits alone. Where the order by
-- hits adds no row, all results are rows with a name that are not blocked and whose name contains
-- every term, and there are at most `limit`.
pub search_index-IsFound :
    (lower_query lower_name : Text → Text) (by_hits : Index → Index) (query : Text) (limit : ℕ)
    (index : Index)
    → ((P : Text × Torrent → Type 0) (rows : Index) → All P rows → All P (by_hits rows))
    → All IsTerm (terms_from [] (lower_query query))
      × (All
            (IsResult lower_name (terms_from [] (lower_query query)))
            (search_index lower_query lower_name by_hits query limit index)
          × (length (search_index lower_query lower_name by_hits query limit index) ≤ limit))
unfolding search_index
search_index-IsFound lower_query lower_name by_hits query limit index keeps =
    let terms = terms_from [] (lower_query query) in
    (
      terms_from-IsTerm [] (lower_query query) tt,
      results-IsFound lower_name by_hits limit index terms keeps,
    )
