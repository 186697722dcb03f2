-- ===== src/Engine/Asked.antt =====
-- server.js, `toCandidates`, behind the front door (worker-api/src/index.js): how many candidates the
-- engine is asked for.
use swarmproof.Base.{
  Bool-cases, All, ap, inl, inr, length, suc, ◌≤◌, List, Option, [], arith, false, none, refl, some,
  ℕ, ◌∷◌, ◌≡◌, ◌≢◌,
}
use swarmproof.FrontDoor.{
  count_input, input_lines, oversize_of, split_lines, AskBody, Input, count_asked, max_candidates,
  object, too_large, no_input, text_input, other_input,
}
use swarmproof.Base.Text.{Text}
use swarmproof.Catalog.{CandidateEntry, Parsed, entry_of, parse_error, parse_input, known_trackers}
use swarmproof.Engine.{
  Taken, made, as_sent, bad_line, nothing_sent, take_body, take_lines, parse_lines, add_parsed,
  to_candidates, count_taken, input_text, made_presets,
}

count-add_parsed : (p : Parsed) (t : Taken) → count_taken (add_parsed p t) ≤ suc (count_taken t)
unfolding count_taken add_parsed
count-add_parsed (parse_error e) t = omega arith
count-add_parsed (entry_of c) (made es) = omega arith
count-add_parsed (entry_of c) (as_sent cs) = omega arith
count-add_parsed (entry_of c) (bad_line e) = omega arith
count-add_parsed (entry_of c) nothing_sent = omega arith

no_lines : input_lines [] ≡ []
unfolding input_lines split_lines swarmproof.Metainfo.is_empty swarmproof.Catalog.trim
no_lines = refl

within_limit :
    (b : AskBody) → too_large (object b) ≡ none → count_asked b.candidates b.input ≤ max_candidates
unfolding too_large oversize_of
within_limit b h = ground (arith, h)

module _ (encode : Text → Text) (decode32 : Text → Text)
    (read_url : Text → Option (Option Text × List Text)) where
  count-parse_lines :
      (ls : List Text) → count_taken (parse_lines encode decode32 read_url ls) ≤ length ls
  unfolding parse_lines count_taken
  count-parse_lines [] = omega arith
  count-parse_lines (l ∷ ls) = omega (
    arith,
    count-parse_lines ls,
    count-add_parsed (parse_input encode decode32 read_url l)
        (parse_lines encode decode32 read_url ls),
  )

  count-take_lines :
      (ls : List Text) → count_taken (take_lines encode decode32 read_url ls) ≤ length ls
  unfolding take_lines count_taken
  count-take_lines [] = omega arith
  count-take_lines (l ∷ ls) = count-parse_lines (l ∷ ls)

  -- A line that `parseInput` accepts.
  abbrev pub IsAccepted : Text → Type 0
  IsAccepted l = (e : CandidateEntry) × (parse_input encode decode32 read_url l ≡ entry_of e)

  parse_lines_all :
      (ls : List Text)
      → All IsAccepted ls
      → (es : List CandidateEntry) × (parse_lines encode decode32 read_url ls ≡ made es)
        × (length es ≡ length ls)
  unfolding parse_lines add_parsed
  parse_lines_all [] h = ([], refl, refl)
  parse_lines_all (l ∷ ls) ((e, p), h) =
      let (es, q, n) = parse_lines_all ls h in (e ∷ es, (rw (p, q) refl), ap suc n)

  take_lines_all :
      (ls : List Text)
      → All IsAccepted ls
      → count_taken (take_lines encode decode32 read_url ls) ≡ length ls
  unfolding take_lines count_taken
  take_lines_all [] h = refl
  take_lines_all (l ∷ ls) h = let (es, q, n) = parse_lines_all (l ∷ ls) h in rw (q) n

  take_body-length :
      (candidates : Option (List Text)) (input : Input) (n : ℕ)
      → count_asked candidates input ≤ n
      → candidates ≢ some []
      → ((t : Text) → input ≢ other_input t)
      → count_taken (take_body encode decode32 read_url candidates input) ≤ n
  unfolding take_body count_taken count_asked count_input input_text
  take_body-length none no_input n h k t = rw (no_lines) (omega arith)
  take_body-length none (text_input u) n h k t = omega (arith, count-take_lines (input_lines u), h)
  take_body-length none (other_input u) n h k t = absurd (t u refl)
  take_body-length (some []) input n h k t = absurd (k refl)
  take_body-length (some (c ∷ cs)) input n h k t = h

  -- For a body that the front door lets through: if its `candidates` are no empty array and its `input`
  -- is nothing but text, the engine takes at most twenty candidates of it. But with an empty array of
  -- `candidates` and an `input` beside it, the front door lets it through whatever the input is, and the
  -- engine takes a candidate for each line, if each is accepted.
  pub to_candidates-too_large :
      (b : AskBody)
      → too_large (object b) ≡ none
      → (b.candidates ≢ some []
          → ((t : Text) → b.input ≢ other_input t)
          → count_taken (to_candidates encode decode32 read_url b) ≤ max_candidates)
        × ((t : Text)
            → All IsAccepted (input_lines t)
            → let b' = record b {
              wants_presets = false;
              candidates = some [];
              input = text_input t;
            } in
              (too_large (object b') ≡ none)
              × (count_taken (to_candidates encode decode32 read_url b') ≡ length (input_lines t)))
  unfolding to_candidates too_large oversize_of made_presets count_taken count_asked take_body
      input_text
  to_candidates-too_large b h = (
    λ k t. elim (Bool-cases b.wants_presets) [
      | inl e ↦ rw (e) (omega arith)
      | inr e ↦ rw (e) (take_body-length b.candidates b.input max_candidates (within_limit b h) k t)
    ],
    λ t a. (ground (arith, h), take_lines_all (input_lines t) a),
  )
