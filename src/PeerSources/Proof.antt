-- ===== src/PeerSources/Proof.antt =====
-- peerSources.js, `_probe`: it settles once, at the latest at its deadline, and only bytes with the hash
-- at its place give a peer.
use swarmproof.Base.Text.{same→eq, same, Text}
use mathlib.Core.List.{append_assoc, append-nil}
use mathlib.Core.Path.{subst}
use swarmproof.PeerSources.{
  new_probe, first_outcome, run_probe, Answered, ProbeEvent, Probing, data_arrives, deadline_passes,
  handshake_len, on_data, on_probe, settle, socket_closes, socket_ends, socket_fails, socket_idles,
  their_hash,
}
use mathlib.Core.Option.{some-injective}
use swarmproof.Base.{
  Bool, Bool-cases, false, if◌then◌else◌, ltb, sym, true, ◌-◌, ◌⊎◌, List, Option, [], ap, arith,
  drop, inl, inr, length, length-append, length-drop, none, refl, some, suc, take, zero, ℕ, ◌++◌,
  ◌∙◌, ◌∷◌, ◌≡◌, ◌≤◌,
}
use swarmproof.Crawler.Stages.{hex}
use swarmproof.PeerTable.{Peer}

-- The data of a run, in the order in which it arrives.
unfoldable pub bytes_of : List ProbeEvent → List ℕ
bytes_of [] = []
bytes_of (data_arrives chunk now ∷ es) = chunk ++ bytes_of es
bytes_of (deadline_passes ∷ es) = bytes_of es
bytes_of (socket_idles ∷ es) = bytes_of es
bytes_of (socket_fails ∷ es) = bytes_of es
bytes_of (socket_closes ∷ es) = bytes_of es
bytes_of (socket_ends ∷ es) = bytes_of es

-- A peer is the member that was asked, and the bytes so far are as many as a handshake has, with the
-- hash at its place. The protocol's name in front is not looked at.
pub record IsProven (target : Text) (member : Peer) (bytes : List ℕ) (a : Answered) : Type 0 where
  pub asked : a.peer ≡ member
  pub long_enough : handshake_len ≤ length bytes
  pub for_hash : their_hash bytes ≡ target

drop_append : (n : ℕ) (xs ys : List ℕ) → n ≤ length xs → drop n (xs ++ ys) ≡ drop n xs ++ ys
drop_append zero xs ys h = refl
drop_append (suc n) [] ys h = elim h [ ]
drop_append (suc n) (x ∷ xs) ys h = drop_append n xs ys (omega (arith, h))

pub take_append : (n : ℕ) (xs ys : List ℕ) → n ≤ length xs → take n (xs ++ ys) ≡ take n xs
take_append zero xs ys h = refl
take_append (suc n) [] ys h = elim h [ ]
take_append (suc n) (x ∷ xs) ys h =
    ap (λ (t : List ℕ). x ∷ t) (take_append n xs ys (omega (arith, h)))

-- What arrives behind the handshake does not change the hash in it.
pub their_hash-append :
    (xs ys : List ℕ) → handshake_len ≤ length xs → their_hash (xs ++ ys) ≡ their_hash xs
unfolding their_hash
their_hash-append xs ys h =
    ap (λ (t : List ℕ). hex (take 20 t)) (drop_append 28 xs ys (omega (arith, h)))
    ∙ ap hex (take_append 20 (drop 28 xs) ys (omega (arith, h, length-drop 28 xs)))

IsProven-append :
    (target : Text) (member : Peer) (xs ys : List ℕ) (a : Answered)
    → IsProven target member xs a
    → IsProven target member (xs ++ ys) a
IsProven-append target member xs ys a v = record {
  asked = v.asked;
  long_enough = omega (arith, v.long_enough, length-append xs ys);
  for_hash = their_hash-append xs ys v.long_enough ∙ v.for_hash;
}

record Sound (target : Text) (member : Peer) (s : Probing) : Type 0 where
  pub proven : (a : Answered) → s.settled ≡ some (some a) → IsProven target member s.chunks a

first_outcome_lem :
    (r : Option Answered) (o : Option (Option Answered)) (a : Answered)
    → first_outcome r o ≡ some a
    → (r ≡ some a) ⊎ (o ≡ some (some a))
unfolding first_outcome
first_outcome_lem r none a e = inl e
first_outcome_lem r (some r') a e = inr (ap some e)

settle-Sound :
    (target : Text) (member : Peer) (r : Option Answered) (s : Probing)
    → ((a : Answered) → r ≡ some a → IsProven target member s.chunks a)
    → Sound target member s
    → Sound target member (settle r s)
unfolding settle
settle-Sound target member r s v w = record {
  proven = λ a h. elim (first_outcome_lem r s.settled a (some-injective _ _ h)) [
    | inl e ↦ v a e
    | inr e ↦ w.proven a e
  ];
}

longer-Sound :
    (target : Text) (member : Peer) (s : Probing) (chunk : List ℕ)
    → Sound target member s
    → Sound target member (record s { chunks = s.chunks ++ chunk })
longer-Sound target member s chunk w = record {
  proven = λ a h. IsProven-append target member s.chunks chunk a (w.proven a h);
}

judged-Sound :
    (target : Text) (member : Peer) (rtt : ℕ) (s : Probing) (right : Bool)
    → handshake_len ≤ length s.chunks
    → same (their_hash s.chunks) target ≡ right
    → Sound target member s
    → Sound target member
        (if right then settle (some (record { peer = member; rtt_ms = rtt })) s else settle none s)
judged-Sound target member rtt s true long e w =
    settle-Sound target member _ s
      (λ a h. record {
        asked = ap (λ (x : Answered). x.peer) (sym (some-injective _ _ h));
        long_enough = long;
        for_hash = same→eq (their_hash s.chunks) target e;
      })
      w
judged-Sound target member rtt s false long e w = settle-Sound target member none s (λ a h. cc) w

on_data-Sound :
    (target : Text) (member : Peer) (started : ℕ) (chunk : List ℕ) (now : ℕ) (s : Probing)
    → Sound target member s
    → Sound target member (on_data target member started chunk now s)
unfolding on_data
on_data-Sound target member started chunk now s w =
    let s' = record s { chunks = s.chunks ++ chunk } in
    let w' = longer-Sound target member s chunk w in
    elim (Bool-cases (ltb (length (s.chunks ++ chunk)) handshake_len)) [
      | inl e ↦ rw (e) w'
      | inr e ↦ rw (e) (judged-Sound target member (now - started) s' _ (ground (arith, e)) refl w')
    ]

on_probe-Sound :
    (target : Text) (member : Peer) (started : ℕ) (s : Probing) (e : ProbeEvent)
    → Sound target member s
    → Sound target member (on_probe target member started s e)
unfolding on_probe
on_probe-Sound target member started s (data_arrives chunk now) w =
    on_data-Sound target member started chunk now s w
on_probe-Sound target member started s deadline_passes w =
    settle-Sound target member none s (λ a h. cc) w
on_probe-Sound target member started s socket_idles w =
    settle-Sound target member none s (λ a h. cc) w
on_probe-Sound target member started s socket_fails w =
    settle-Sound target member none s (λ a h. cc) w
on_probe-Sound target member started s socket_closes w =
    settle-Sound target member none s (λ a h. cc) w
on_probe-Sound target member started s socket_ends w =
    settle-Sound target member none s (λ a h. cc) w

-- The probe with all its data: what it holds and what it has read go together.
run_probe-Sound :
    (target : Text) (member : Peer) (started : ℕ) (s : Probing) (es : List ProbeEvent)
    → Sound target member s
    → Sound target member (run_probe target member started s es)
unfolding run_probe
run_probe-Sound target member started s [] w = w
run_probe-Sound target member started s (e ∷ es) w =
    run_probe-Sound target member started (on_probe target member started s e) es
      (on_probe-Sound target member started s e w)

chunks-on_data :
    (target : Text) (member : Peer) (started : ℕ) (chunk : List ℕ) (now : ℕ) (s : Probing)
    → (on_data target member started chunk now s).chunks ≡ s.chunks ++ chunk
unfolding on_data settle
chunks-on_data target member started chunk now s = ground arith

chunks-run_probe :
    (target : Text) (member : Peer) (started : ℕ) (s : Probing) (es : List ProbeEvent)
    → (run_probe target member started s es).chunks ≡ s.chunks ++ bytes_of es
unfolding run_probe on_probe settle bytes_of
chunks-run_probe target member started s [] = sym (append-nil s.chunks)
chunks-run_probe target member started s (data_arrives chunk now ∷ es) =
    chunks-run_probe target member started (on_data target member started chunk now s) es
    ∙ ap (λ (c : List ℕ). c ++ bytes_of es) (chunks-on_data target member started chunk now s)
    ∙ append_assoc s.chunks chunk (bytes_of es)
chunks-run_probe target member started s (deadline_passes ∷ es) =
    chunks-run_probe target member started (settle none s) es
chunks-run_probe target member started s (socket_idles ∷ es) =
    chunks-run_probe target member started (settle none s) es
chunks-run_probe target member started s (socket_fails ∷ es) =
    chunks-run_probe target member started (settle none s) es
chunks-run_probe target member started s (socket_closes ∷ es) =
    chunks-run_probe target member started (settle none s) es
chunks-run_probe target member started s (socket_ends ∷ es) =
    chunks-run_probe target member started (settle none s) es

-- Whatever happens on the socket: a probe gives no peer but the member that it asked, and only when at
-- least 68 bytes have arrived of which those from place 28 to 47 are the hash that was asked for. Of the
-- other bytes nothing is said.
pub run_probe-IsProven :
    (target : Text) (member : Peer) (started : ℕ) (es : List ProbeEvent) (a : Answered)
    → (run_probe target member started new_probe es).settled ≡ some (some a)
    → IsProven target member (bytes_of es) a
unfolding new_probe
run_probe-IsProven target member started es a h =
    let start : Sound target member new_probe = record { proven = λ b e. cc } in
    subst (λ (c : List ℕ). IsProven target member c a)
      (chunks-run_probe target member started new_probe es)
      ((run_probe-Sound target member started new_probe es start).proven a h)
