-- ===== src/PeerTable/Bound.antt =====
-- peerTable.js: the bound on the table, over any history of calls, and the keys.
use swarmproof.Base.{
  Bool, List, [], false, true, ◌∷◌, All, All-mono, Bool-cases, Option, Option-cases, ap, arith, inl,
  inr, leb, length, length-drop, max, none, refl, some, sym, ℕ, ◌/◌, ◌<◌, ◌∙◌, ◌≡◌, ◌≢◌, ◌≤◌,
}
use swarmproof.PeerTable.{
  Call, failed, fails, observe, observes, rank, ranks, run, step, succeeds, entry, evict,
  fresh_entry, put, Entry, Peer, PeerTable, key, new_table, succeeded,
}
use swarmproof.Base.Decimal.{IsDigit, decimal, decimal-IsDigit, number, number-decimal}
use swarmproof.Base.Table.{
  Distinct, Distinct-drop, Distinct-set, length-set, length-set_old, lookup, lookup-drop,
  lookup-set,
}
use swarmproof.Base.Text.{Text, same_refl, split_last, split_last-append}

-- `host:port` determines the host and the port: the last colon is the one before the port.
pub split_last-key : (p : Peer) → split_last b':' (key p) ≡ some (p.host, decimal p.port)
unfolding key
split_last-key p =
    split_last-append b':' p.host (decimal p.port) (no_colon _ (decimal-IsDigit p.port))
  where
    no_colon : (ds : Text) → All IsDigit ds → All (λ d. d ≢ b':') ds
    no_colon ds h = All-mono ds (λ d k. omega arith) h

-- Two peers share a key exactly when they share the host and the port.
pub key-injective : (p q : Peer) → key p ≡ key q → (p.host ≡ q.host) × (p.port ≡ q.port)
key-injective p q e =
    let same_parts : some (p.host, decimal p.port) ≡ some (q.host, decimal q.port) =
      sym (split_last-key p) ∙ ap (split_last b':') e ∙ split_last-key q in
    (
      cc same_parts,
      sym (number-decimal p.port)
          ∙ ap (λ o. elim o [ none ↦ 0 | some (a, b) ↦ number b ]) same_parts
          ∙ number-decimal q.port,
    )

pub record Inv (t : PeerTable) : Type 0 where
  pub bounded : length t.addrs ≤ t.max_addrs
  pub distinct : Distinct t.addrs

pub new_table-Inv : (n d ttl : ℕ) → Inv (new_table n d ttl)
unfolding new_table
new_table-Inv n d ttl = record { bounded = omega arith; distinct = tt }

evict-Inv : (t : PeerTable) → Inv t → Inv (evict t)
unfolding evict
evict-Inv t v = record {
  bounded = omega (arith, length-drop (max 1 (t.max_addrs / 10)) t.addrs, v.bounded);
  distinct = Distinct-drop (max 1 (t.max_addrs / 10)) t.addrs v.distinct;
}

length-evict : (t : PeerTable) → 0 < t.max_addrs → Inv t → length (evict t).addrs < t.max_addrs
unfolding evict
length-evict t h v = omega (arith, length-drop (max 1 (t.max_addrs / 10)) t.addrs, v.bounded)

lookup-evict :
    (t : PeerTable) (k : Text) → lookup k t.addrs ≡ none → lookup k (evict t).addrs ≡ none
unfolding evict
lookup-evict t k h = lookup-drop k (max 1 (t.max_addrs / 10)) t.addrs h

max_addrs-evict : (t : PeerTable) → (evict t).max_addrs ≡ t.max_addrs
unfolding evict
max_addrs-evict t = refl

-- Room is made before an entry is added.
entry-Inv : (now : ℕ) (t : PeerTable) (k : Text) → 0 < t.max_addrs → Inv t → Inv (entry now t k).0
unfolding entry
entry-Inv now t k h v = elim (Option-cases (lookup k t.addrs)) [
  | inr (e, hit) ↦ rw (hit, entry) v
  | inl miss ↦ elim (Bool-cases (leb t.max_addrs (length t.addrs))) [
    | inl full ↦
        rw (miss, full, entry)
          (record {
            bounded = omega (
              arith,
              length-set k (fresh_entry now) (evict t).addrs (lookup-evict t k miss),
              length-evict t h v,
              max_addrs-evict t,
            );
            distinct = Distinct-set k (fresh_entry now) (evict t).addrs (evict-Inv t v).distinct;
          })
    | inr room ↦
        rw (miss, room, entry)
          (record {
            bounded = ground (arith, length-set k (fresh_entry now) t.addrs miss);
            distinct = Distinct-set k (fresh_entry now) t.addrs v.distinct;
          })
  ]
]

-- The entry that `entry` hands out is the one in the table.
pub lookup-entry :
    (now : ℕ) (t : PeerTable) (k : Text) → lookup k (entry now t k).0.addrs ≡ some (entry now t k).1
unfolding entry
lookup-entry now t k = elim (Option-cases (lookup k t.addrs)) [
  | inr (e, hit) ↦ rw (hit, entry) hit
  | inl miss ↦ elim (Bool-cases (leb t.max_addrs (length t.addrs))) [
    | inl full ↦
        rw (miss, full, entry)
          (ground (arith, lookup-set k k (fresh_entry now) (evict t).addrs, same_refl k))
    | inr room ↦
        rw (miss, room, entry)
          (ground (arith, lookup-set k k (fresh_entry now) t.addrs, same_refl k))
  ]
]

pub max_addrs-entry :
    (now : ℕ) (t : PeerTable) (k : Text) → (entry now t k).0.max_addrs ≡ t.max_addrs
unfolding entry evict
max_addrs-entry now t k = ground arith

put-Inv :
    (t : PeerTable) (k : Text) (e f : Entry) → lookup k t.addrs ≡ some f → Inv t → Inv (put t k e)
unfolding put
put-Inv t k e f h v = record {
  bounded = omega (arith, length-set_old k e f t.addrs h, v.bounded);
  distinct = Distinct-set k e t.addrs v.distinct;
}

pub succeeded-Inv :
    (now : ℕ) (t : PeerTable) (p : Peer) (rtt : Option ℕ)
    → 0 < t.max_addrs
    → Inv t
    → Inv (succeeded now t p rtt)
unfolding succeeded
succeeded-Inv now t p rtt h v =
    put-Inv _ (key p) _ _ (lookup-entry now t (key p)) (entry-Inv now t (key p) h v)

failed-Inv :
    (now : ℕ) (t : PeerTable) (p : Peer) (connected : Bool)
    → 0 < t.max_addrs
    → Inv t
    → Inv (failed now t p connected)
unfolding failed
failed-Inv now t p true h v =
    put-Inv _ (key p) _ _ (lookup-entry now t (key p)) (entry-Inv now t (key p) h v)
failed-Inv now t p false h v =
    put-Inv _ (key p) _ _ (lookup-entry now t (key p)) (entry-Inv now t (key p) h v)

observe-Inv :
    (now : ℕ) (t : PeerTable) (ps : List Peer)
    → 0 < t.max_addrs
    → Inv t
    → Inv (observe now t ps) × ((observe now t ps).max_addrs ≡ t.max_addrs)
unfolding observe
observe-Inv now t [] h v = (v, refl)
observe-Inv now t (p ∷ ps) h v =
    let same_max = max_addrs-entry now t (key p) in
    let (inv, kept) =
      observe-Inv now (entry now t (key p)).0 ps (omega (arith, same_max))
        (entry-Inv now t (key p) h v) in
    (inv, kept ∙ same_max)

-- The table's size limit is at least one, and is never exceeded.
pub record Bounded (t : PeerTable) : Type 0 where
  pub positive : 0 < t.max_addrs
  pub inv : Inv t

max_addrs-succeeded :
    (now : ℕ) (t : PeerTable) (p : Peer) (rtt : Option ℕ)
    → (succeeded now t p rtt).max_addrs ≡ t.max_addrs
unfolding succeeded
max_addrs-succeeded now t p rtt = max_addrs-entry now t (key p)

max_addrs-failed :
    (now : ℕ) (t : PeerTable) (p : Peer) (connected : Bool)
    → (failed now t p connected).max_addrs ≡ t.max_addrs
unfolding failed
max_addrs-failed now t p true = max_addrs-entry now t (key p)
max_addrs-failed now t p false = max_addrs-entry now t (key p)

step-Bounded : (t : PeerTable) (c : Call) → Bounded t → Bounded (step t c)
unfolding step rank
step-Bounded t (succeeds now p rtt) b = record {
  positive = omega (arith, max_addrs-succeeded now t p rtt, b.positive);
  inv = succeeded-Inv now t p rtt b.positive b.inv;
}
step-Bounded t (fails now p connected) b = record {
  positive = omega (arith, max_addrs-failed now t p connected, b.positive);
  inv = failed-Inv now t p connected b.positive b.inv;
}
step-Bounded t (ranks now ps limit) b = record {
  positive = b.positive;
  inv = record { bounded = b.inv.bounded; distinct = b.inv.distinct };
}
step-Bounded t (observes now ps) b =
    let (inv, kept) = observe-Inv now t ps b.positive b.inv in
    record { positive = omega (arith, kept, b.positive); inv = inv }

-- From a table that is within its limit, and whose limit is positive, every history of calls leads
-- to a table that is within its limit and holds no key twice.
pub run-Bounded : (t : PeerTable) (cs : List Call) → Bounded t → Bounded (run t cs)
unfolding run
run-Bounded t [] b = b
run-Bounded t (c ∷ cs) b = run-Bounded (step t c) cs (step-Bounded t c b)
