-- ===== src/Stream/Range/InFile.antt =====
-- streamServer.js, `_handleRequest`: what is served lies in the file.
use swarmproof.Base.{
  Bool-cases, arith, false, inl, inr, leb, min, refl, ◌-◌, [], none, some, suc, ℕ, ◌+◌, ◌<◌, ◌∷◌,
  ◌≡◌, ◌≢◌, ◌≤◌, ◌⊎◌,
}
use swarmproof.Stream.Range.{
  asked_range, exec_range, handle_request, RangeReply, not_ready, range_header, range_status,
  serve_range, served_bytes, unsatisfiable,
}
use swarmproof.Base.Text.{Text}
use swarmproof.Stream.Media.{File}
use swarmproof.Worker.Post.Account.{total}

-- A reply about a file: where it serves bytes, they are there, at least one, and the headers say which.
pub IsInFile : File → Text → RangeReply → Type 0
IsInFile file range not_ready = ⊥
IsInFile file range (unsatisfiable total) = total ≡ file.size
IsInFile file range (served_bytes s) =
    (s.first_byte < s.past_last)
    × (s.past_last ≤ file.size)
    × (s.first_byte + s.content_length ≡ s.past_last)
    × ((s.status ≡ 200) × (range ≡ []) × (s.content_range ≡ none)
        ⊎ (s.status ≡ 206)
          × (range ≢ [])
          × ((last : ℕ) × (suc last ≡ s.past_last)
              × (s.content_range ≡ some (s.first_byte, last, file.size))))

bounds_of :
    (size start asked_stop : ℕ)
    → leb (min asked_stop size) start ≡ false
    → (start < min asked_stop size)
      × (min asked_stop size ≤ size)
      × (start + (min asked_stop size - start) ≡ min asked_stop size)
      × (suc (min asked_stop size - 1) ≡ min asked_stop size)
bounds_of size start asked_stop e =
    let b : start < min asked_stop size = ground (arith, e) in
    (b, omega arith, omega (arith, b), omega (arith, b))

serve_range-IsInFile :
    (file : File) (range : Text) (asked : ℕ × ℕ)
    → IsInFile file range (serve_range range file.size asked)
unfolding IsInFile serve_range range_status range_header
serve_range-IsInFile file [] (start, asked_stop) =
    elim (Bool-cases (leb (min asked_stop file.size) start)) [
      | inl e ↦ rw (e) refl
      | inr e ↦
          let (a, b, c, d) = bounds_of file.size start asked_stop e in
          rw (e) (a, b, c, inl (refl, refl, refl))
    ]
serve_range-IsInFile file (u ∷ range) (start, asked_stop) =
    elim (Bool-cases (leb (min asked_stop file.size) start)) [
      | inl e ↦ rw (e) refl
      | inr e ↦
          let (a, b, c, d) = bounds_of file.size start asked_stop e in
          rw (e) (a, b, c, inr (refl, (λ h. cc), (min asked_stop file.size - 1, d, refl)))
    ]

-- Whatever the header says: a request about a file is answered with at least one byte of it, of which
-- the status, the length and the content range tell the truth, or refused with the file's size.
pub handle_request-IsInFile :
    (file : File) (range : Text) → IsInFile file range (handle_request (some file) range)
unfolding handle_request
handle_request-IsInFile file range =
    serve_range-IsInFile file range (asked_range file.size (exec_range range))
