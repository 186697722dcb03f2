-- ===== src/Crawler/Compact/RoundTrip.antt =====
-- dhtCrawler.js, `_decodeNodes`: what it reads of a reply that is laid out as the protocol says.
use mathlib.Core.Path.{ap₂}
use swarmproof.Base.{
  ap, some, suc, zero, ◌/◌, All, Bool, List, [], arith, drop, filter, if◌then◌else◌, length,
  length-append, ltb, map, refl, take, ℕ, ◌*◌, ◌++◌, ◌+◌, ◌<◌, ◌∙◌, ◌∷◌, ◌≡◌,
}
use swarmproof.Crawler.Compact.{decode_nodes, compact_address, decode_from, keep, node_of_bytes}
use swarmproof.PeerTable.{Peer}

-- A record of a node: its id, the four bytes of its address and the two of its port.
pub record NodeBytes : Type 0 where
  pub id : List ℕ
  pub a : ℕ
  pub b : ℕ
  pub c : ℕ
  pub d : ℕ
  pub high : ℕ
  pub low : ℕ

unfoldable pub laid_out : List NodeBytes → List ℕ → List ℕ
laid_out [] rest = rest
laid_out (r ∷ rs) rest = r.id ++ (r.a ∷ r.b ∷ r.c ∷ r.d ∷ r.high ∷ r.low ∷ laid_out rs rest)

abbrev pub IsRecord : NodeBytes → Type 0
IsRecord r = (length r.id ≡ 20) × ((r.high < 256) × (r.low < 256))

abbrev pub peer_at : NodeBytes → Peer
peer_at r = compact_address r.a r.b r.c r.d r.high r.low

abbrev pub has_port : Peer → Bool
has_port p = ltb 0 p.port

six_more : ℕ → ℕ
six_more zero = 6
six_more (suc n) = suc (six_more n)

record_part :
    (n : ℕ) (id : List ℕ) (a b c d high low : ℕ) (rest : List ℕ)
    → length id ≡ n
    → drop n (take (six_more n) (id ++ (a ∷ b ∷ c ∷ d ∷ high ∷ low ∷ rest)))
      ≡ a ∷ b ∷ c ∷ d ∷ high ∷ low ∷ []
unfolding six_more
record_part zero [] a b c d high low rest e = refl
record_part zero (x ∷ id) a b c d high low rest e =
    let absurd : ⊥ = omega (arith, e) in elim absurd [ ]
record_part (suc n) [] a b c d high low rest e =
    let absurd : ⊥ = omega (arith, e) in elim absurd [ ]
record_part (suc n) (x ∷ id) a b c d high low rest e =
    record_part n id a b c d high low rest (omega (arith, e))

other_records :
    (n : ℕ) (id : List ℕ) (a b c d high low : ℕ) (rest : List ℕ)
    → length id ≡ n
    → drop (six_more n) (id ++ (a ∷ b ∷ c ∷ d ∷ high ∷ low ∷ rest)) ≡ rest
unfolding six_more
other_records zero [] a b c d high low rest e = refl
other_records zero (x ∷ id) a b c d high low rest e =
    let absurd : ⊥ = omega (arith, e) in elim absurd [ ]
other_records (suc n) [] a b c d high low rest e =
    let absurd : ⊥ = omega (arith, e) in elim absurd [ ]
other_records (suc n) (x ∷ id) a b c d high low rest e =
    other_records n id a b c d high low rest (omega (arith, e))

length-laid_out :
    (rs : List NodeBytes) (rest : List ℕ)
    → All IsRecord rs
    → length (laid_out rs rest) ≡ 26 * length rs + length rest
unfolding laid_out
length-laid_out [] rest h = omega arith
length-laid_out (r ∷ rs) rest ((e, q), h) =
    length-append r.id (r.a ∷ r.b ∷ r.c ∷ r.d ∷ r.high ∷ r.low ∷ laid_out rs rest)
    ∙ omega (arith, e, length-laid_out rs rest h)

keep-node_of_bytes :
    (r : NodeBytes) (ps : List Peer)
    → IsRecord r
    → keep (node_of_bytes (r.a ∷ r.b ∷ r.c ∷ r.d ∷ r.high ∷ r.low ∷ [])) ps
      ≡ (if has_port (peer_at r) then peer_at r ∷ ps else ps)
unfolding keep node_of_bytes compact_address
keep-node_of_bytes r ps (e, (hi, lo)) = ground arith

decode_from-laid_out :
    (rs : List NodeBytes) (rest : List ℕ)
    → All IsRecord rs
    → decode_from (length rs) (laid_out rs rest) ≡ filter has_port (map peer_at rs)
unfolding decode_from laid_out six_more
decode_from-laid_out [] rest h = refl
decode_from-laid_out (r ∷ rs) rest ((e, q), h) =
    let more = laid_out rs rest in
    let here = record_part 20 r.id r.a r.b r.c r.d r.high r.low more e in
    let next = other_records 20 r.id r.a r.b r.c r.d r.high r.low more e in
    ap₂ (λ (x y : List ℕ). keep (node_of_bytes x) (decode_from (length rs) y)) here next
    ∙ ap (keep (node_of_bytes (r.a ∷ r.b ∷ r.c ∷ r.d ∷ r.high ∷ r.low ∷ [])))
        (decode_from-laid_out rs rest h)
    ∙ keep-node_of_bytes r _ (e, q)

-- Of a reply that is made of records with ids of twenty bytes, and of fewer than 26 bytes behind them,
-- `_decodeNodes` gives the addresses of all records in order, but for those with port 0, and nothing
-- else.
pub decode_nodes-laid_out :
    (rs : List NodeBytes) (rest : List ℕ)
    → All IsRecord rs
    → length rest < 26
    → decode_nodes (some (laid_out rs rest)) ≡ filter has_port (map peer_at rs)
unfolding decode_nodes
decode_nodes-laid_out rs rest h short =
    let n : length (laid_out rs rest) / 26 ≡ length rs =
      omega (arith, length-laid_out rs rest h, short) in
    ap (λ (k : ℕ). decode_from k (laid_out rs rest)) n ∙ decode_from-laid_out rs rest h
