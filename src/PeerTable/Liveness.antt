-- ===== src/PeerTable/Liveness.antt =====
-- peerTable.js: which addresses `isDead` lets the ranking drop, and for how long.
use mathlib.Core.Option.{some-injective}
use mathlib.Core.Path.{subst}
use swarmproof.Base.Text.{same_iff, Text, same, same_refl}
use swarmproof.Base.{
  Bool-cases, none, refl, sym, ◌<◌, ap, Bool, List, Option, Option-cases, [], drop, inl, inr, leb,
  length, ltb, max, suc, true, ◌&&◌, ◌/◌, ◌∙◌, ◌∷◌, ◌⊎◌, arith, false, if◌then◌else◌, some, ℕ, ◌+◌,
  ◌≡◌,
}
use swarmproof.PeerTable.{
  entry_dead, best_rtt, evict, fresh_entry, is_dead, succeeded, Entry, Peer, PeerTable, entry,
  failed, key, put,
}
use swarmproof.Base.Table.{lookup-drop-some, lookup, lookup-set}
use swarmproof.PeerTable.Bound.{Inv}

lookup-put-entry :
    (now : ℕ) (t : PeerTable) (k j : Text) (e : Entry)
    → lookup j (put (entry now t k).0 k e).addrs
      ≡ (if same k j then some e else lookup j (entry now t k).0.addrs)
unfolding put
lookup-put-entry now t k j e = lookup-set k j e (entry now t k).0.addrs

-- Under a key that is in the table `entry` finds its entry and changes nothing.
entry_hit :
    (now : ℕ) (t : PeerTable) (k : Text) (e : Entry)
    → lookup k t.addrs ≡ some e
    → entry now t k ≡ (t, e)
unfolding entry
entry_hit now t k e h = rw (h, entry)

-- What one failed connection does to the entry of a tracked peer.
pub lookup-failed_self :
    (now : ℕ) (t : PeerTable) (p : Peer)
    → lookup (key p) (failed now t p false).addrs
      ≡ some (record (entry now t (key p)).1 {
        fail = (entry now t (key p)).1.fail + 1;
        last_fail = now;
      })
unfolding failed
lookup-failed_self now t p = ground (
  arith,
  lookup-put-entry now t (key p) (key p)
      (record (entry now t (key p)).1 { fail = (entry now t (key p)).1.fail + 1; last_fail = now }),
  same_refl (key p),
)

failed_config :
    (now : ℕ) (t : PeerTable) (p : Peer) (connected : Bool)
    → ((failed now t p connected).dead_after ≡ t.dead_after)
      × ((failed now t p connected).dead_ttl_ms ≡ t.dead_ttl_ms)
unfolding failed entry put evict
failed_config now t p connected = ground arith

-- Failures to connect to one peer, one after the other, at the given times.
pub fail_at : PeerTable → Peer → List ℕ → PeerTable
fail_at t p [] = t
fail_at t p (now ∷ ts) = fail_at (failed now t p false) p ts

abbrev pub last_or : ℕ → List ℕ → ℕ
last_or d [] = d
last_or d (x ∷ xs) = last_or x xs

is_dead-fail_at :
    (now : ℕ) (t : PeerTable) (p : Peer) (ts : List ℕ) (e : Entry) (d ttl : ℕ)
    → t.dead_after ≡ d
    → t.dead_ttl_ms ≡ ttl
    → lookup (key p) t.addrs ≡ some e
    → e.ok ≡ 0
    → is_dead now (fail_at t p ts) (key p)
      ≡ (leb d (e.fail + length ts) && ltb now (last_or e.last_fail ts + ttl))
unfolding fail_at is_dead
is_dead-fail_at now t p [] e d ttl dd tl h z = rw (h, is_dead) (ground arith)
is_dead-fail_at now t p (n ∷ ts) e d ttl dd tl h z =
    let hit = entry_hit n t (key p) e h in
    let config = failed_config n t p false in
    let after : lookup (key p) (failed n t p false).addrs
        ≡ some (record e { fail = e.fail + 1; last_fail = n }) =
      lookup-failed_self n t p
      ∙ ap (λ r. some (record r.1 { fail = r.1.fail + 1; last_fail = n })) hit in
    is_dead-fail_at now (failed n t p false) p ts (record e { fail = e.fail + 1; last_fail = n }) d
      ttl (config.0 ∙ dd) (config.1 ∙ tl) after z
    ∙ ap (λ m. leb d m && ltb now (last_or n ts + ttl)) (omega arith)

-- A peer that never answered is dead after any run of failed connections exactly when the failures,
-- counted with those before, reach the limit, and the last of them is younger than the time to live.
pub is_dead-failures :
    (now n : ℕ) (t : PeerTable) (p : Peer) (ts : List ℕ)
    → (entry n t (key p)).1.ok ≡ 0
    → is_dead now (fail_at t p (n ∷ ts)) (key p) ≡ (
        leb t.dead_after ((entry n t (key p)).1.fail + suc (length ts))
        && ltb now (last_or n ts + t.dead_ttl_ms))
unfolding fail_at
is_dead-failures now n t p ts z =
    let config = failed_config n t p false in
    is_dead-fail_at now (failed n t p false) p ts _ t.dead_after t.dead_ttl_ms config.0 config.1
      (lookup-failed_self n t p) z
    ∙ ap (λ m. leb t.dead_after m && ltb now (last_or n ts + t.dead_ttl_ms)) (omega arith)

-- An address that answered once is not dead, however late it is asked for.
pub is_dead-succeeded :
    (now later : ℕ) (t : PeerTable) (p : Peer) (rtt : Option ℕ)
    → is_dead later (succeeded now t p rtt) (key p) ≡ false
unfolding is_dead succeeded
is_dead-succeeded now later t p rtt = ground (
  arith,
  lookup-put-entry now t (key p) (key p) (record (entry now t (key p)).1 {
    ok = (entry now t (key p)).1.ok + 1;
    last_ok = now;
    rtt = best_rtt rtt (entry now t (key p)).1.rtt;
  }),
  same_refl (key p),
)

-- An entry that `entry` leaves in the table was there before, or is the one that it was asked for.
lookup-entry_cases :
    (now : ℕ) (t : PeerTable) (k j : Text) (e : Entry)
    → Inv t
    → lookup j (entry now t k).0.addrs ≡ some e
    → (same k j ≡ true) ⊎ (lookup j t.addrs ≡ some e)
unfolding entry evict
lookup-entry_cases now t k j e v h = elim (Option-cases (lookup k t.addrs)) [
  | inr (f, hit) ↦ inr (rw (entry_hit now t k f hit) at h)
  | inl miss ↦ ground (
    arith,
    lookup-set k j (fresh_entry now) t.addrs,
    lookup-set k j (fresh_entry now) (drop (max 1 (t.max_addrs / 10)) t.addrs),
    lookup-drop-some j (max 1 (t.max_addrs / 10)) t.addrs e v.distinct,
  )
]

entry_new :
    (now : ℕ) (t : PeerTable) (k : Text)
    → lookup k t.addrs ≡ none
    → (entry now t k).1 ≡ fresh_entry now
unfolding entry
entry_new now t k h = rw (h, entry)

lookup-failed_connected :
    (now : ℕ) (t : PeerTable) (p : Peer) (j : Text)
    → lookup j (failed now t p true).addrs ≡ (
        if same (key p) j
        then some (record (entry now t (key p)).1 { last_ok = now })
        else lookup j (entry now t (key p)).0.addrs)
unfolding failed
lookup-failed_connected now t p j = lookup-put-entry now t (key p) j _

-- The verdict on an entry rests on its failures alone.
not_dead_fresh :
    (now later : ℕ) (t : PeerTable) (k : Text)
    → 0 < t.dead_after
    → lookup k t.addrs ≡ none
    → entry_dead later t (record (entry now t k).1 { last_ok = now }) ≡ false
unfolding entry_dead fresh_entry
not_dead_fresh now later t k d h = rw (entry_new now t k h) (ground arith)

entry_dead_config :
    (later : ℕ) (t u : PeerTable) (e : Entry)
    → u.dead_after ≡ t.dead_after
    → u.dead_ttl_ms ≡ t.dead_ttl_ms
    → entry_dead later u e ≡ entry_dead later t e
unfolding entry_dead
entry_dead_config later t u e d l = ground arith

dead_self :
    (now later : ℕ) (t : PeerTable) (k : Text)
    → 0 < t.dead_after
    → entry_dead later t (record (entry now t k).1 { last_ok = now }) ≡ true
    → is_dead later t k ≡ true
unfolding is_dead
dead_self now later t k d h = elim (Option-cases (lookup k t.addrs)) [
  | inl miss ↦ absurd (ground (arith, not_dead_fresh now later t k d miss))
  | inr (e, hit) ↦ rw (hit, is_dead) (rw (entry_hit now t k e hit) at h)
]

dead_other :
    (later : ℕ) (t : PeerTable) (j : Text) (e : Entry)
    → entry_dead later t e ≡ true
    → lookup j t.addrs ≡ some e
    → is_dead later t j ≡ true
unfolding is_dead
dead_other later t j e h hit = rw (hit, is_dead) h

-- A refusal after a completed connection makes no address dead, that of the peer included: what is
-- dead afterwards was dead before, whatever the time at which it is asked.
pub is_dead-failed_connected :
    (now later : ℕ) (t : PeerTable) (p : Peer) (j : Text)
    → Inv t
    → 0 < t.dead_after
    → is_dead later (failed now t p true) j ≡ true
    → is_dead later t j ≡ true
unfolding is_dead
is_dead-failed_connected now later t p j v d h = go (lookup j u.addrs) refl
  where
    u : PeerTable
    u = failed now t p true

    go : (o : Option Entry) → lookup j u.addrs ≡ o → is_dead later t j ≡ true
    go none e = absurd (ground arith)
    go (some e) found =
        let dead : entry_dead later t e ≡ true =
          sym (
            entry_dead_config later t u e (failed_config now t p true).0
              (failed_config now t p true).1)
          ∙ ground arith in
        elim (Bool-cases (same (key p) j)) [
          | inl k ↦
              let here : some e ≡ some (record (entry now t (key p)).1 { last_ok = now }) =
                sym found
                ∙ lookup-failed_connected now t p j
                ∙ ap
                    (λ b.
                      if b
                      then some (record (entry now t (key p)).1 { last_ok = now })
                      else lookup j (entry now t (key p)).0.addrs)
                    k in
              subst (λ i. is_dead later t i ≡ true) ((same_iff (key p) j).0 k)
                (dead_self now later t (key p) d (
                  subst (λ (x : Entry). entry_dead later t x ≡ true) (some-injective _ _ here)
                    dead))
          | inr k ↦
              let there : lookup j (entry now t (key p)).0.addrs ≡ some e =
                sym (
                  ap
                    (λ b.
                      if b
                      then some (record (entry now t (key p)).1 { last_ok = now })
                      else lookup j (entry now t (key p)).0.addrs)
                    k)
                ∙ sym (lookup-failed_connected now t p j)
                ∙ found in
              elim (lookup-entry_cases now t (key p) j e v there) [
                | inl x ↦ absurd (cc (x, k))
                | inr hit ↦ dead_other later t j e dead hit
              ]
        ]
