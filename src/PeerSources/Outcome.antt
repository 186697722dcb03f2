-- ===== src/PeerSources/Outcome.antt =====
-- peerSources.js, `_probe`: it settles once, and a handshake counts however it is cut into chunks.
use swarmproof.Base.{
  take_of_length-le, ◌↔◌, sym, Bool-cases, inl, inr, length-append, ltb, List, Option, [], ap,
  arith, length, none, refl, some, ℕ, ◌++◌, ◌-◌, ◌<◌, ◌∙◌, ◌∷◌, ◌≡◌, ◌≤◌,
}
use swarmproof.PeerSources.Proof.{
  IsProven, bytes_of, run_probe-IsProven, take_append, their_hash-append,
}
use mathlib.Core.Path.{subst}
use swarmproof.Crawler.Stages.{hex}
use swarmproof.PeerSources.{
  build_handshake, Answered, ProbeEvent, Probing, data_arrives, deadline_passes, first_outcome,
  handshake_len, new_probe, on_data, on_probe, run_probe, settle, socket_closes, socket_ends,
  socket_fails, socket_idles, their_hash,
}
use mathlib.Core.List.{append_assoc}
use swarmproof.Base.Text.{eq→same, Text}
use swarmproof.PeerTable.{Peer}

kept_on_data :
    (target : Text) (member : Peer) (started : ℕ) (chunk : List ℕ) (now : ℕ) (s : Probing)
    (r : Option Answered)
    → s.settled ≡ some r
    → (on_data target member started chunk now s).settled ≡ some r
unfolding on_data settle first_outcome
kept_on_data target member started chunk now s r h = ground (arith, h)

kept_settle :
    (x : Option Answered) (s : Probing) (r : Option Answered)
    → s.settled ≡ some r
    → (settle x s).settled ≡ some r
unfolding settle first_outcome
kept_settle x s r h = ground (arith, h)

kept_on_probe :
    (target : Text) (member : Peer) (started : ℕ) (s : Probing) (e : ProbeEvent)
    (r : Option Answered)
    → s.settled ≡ some r
    → (on_probe target member started s e).settled ≡ some r
unfolding on_probe
kept_on_probe target member started s (data_arrives chunk now) r h =
    kept_on_data target member started chunk now s r h
kept_on_probe target member started s deadline_passes r h = kept_settle none s r h
kept_on_probe target member started s socket_idles r h = kept_settle none s r h
kept_on_probe target member started s socket_fails r h = kept_settle none s r h
kept_on_probe target member started s socket_closes r h = kept_settle none s r h
kept_on_probe target member started s socket_ends r h = kept_settle none s r h

-- The first outcome of a probe is its last.
kept_run :
    (target : Text) (member : Peer) (started : ℕ) (s : Probing) (es : List ProbeEvent)
    (r : Option Answered)
    → s.settled ≡ some r
    → (run_probe target member started s es).settled ≡ some r
unfolding run_probe
kept_run target member started s [] r h = h
kept_run target member started s (e ∷ es) r h =
    kept_run target member started (on_probe target member started s e) es r
      (kept_on_probe target member started s e r h)

run_probe-append :
    (target : Text) (member : Peer) (started : ℕ) (s : Probing) (es fs : List ProbeEvent)
    → run_probe target member started s (es ++ fs)
      ≡ run_probe target member started (run_probe target member started s es) fs
unfolding run_probe
run_probe-append target member started s [] fs = refl
run_probe-append target member started s (e ∷ es) fs =
    run_probe-append target member started (on_probe target member started s e) es fs

-- Once its deadline has passed, a probe has an outcome, whatever came before; and what comes after
-- does not change it.
pub deadline_settles :
    (target : Text) (member : Peer) (started : ℕ) (before after : List ProbeEvent)
    → (r : Option Answered) × ((run_probe target member started new_probe
          (before ++ deadline_passes ∷ [])).settled
        ≡ some r)
      × ((run_probe target member started new_probe (before ++ deadline_passes ∷ after)).settled
          ≡ some r)
unfolding run_probe on_probe settle
deadline_settles target member started before after =
    let s = run_probe target member started new_probe before in
    let r = first_outcome none s.settled in
    (
      r,
      ap (λ (x : Probing). x.settled)
          (run_probe-append target member started new_probe before (deadline_passes ∷ [])),
      ap (λ (x : Probing). x.settled)
            (run_probe-append target member started new_probe before (deadline_passes ∷ after))
          ∙ kept_run target member started (settle none s) after r refl,
    )

abbrev pub chunk_events : List (List ℕ × ℕ) → List ProbeEvent
chunk_events [] = []
chunk_events (c ∷ cs) = data_arrives c.0 c.1 ∷ chunk_events cs

abbrev pub joined : List (List ℕ × ℕ) → List ℕ
joined [] = []
joined (c ∷ cs) = c.0 ++ joined cs

judged :
    (target : Text) (member : Peer) (started : ℕ) (chunk : List ℕ) (now : ℕ) (s : Probing)
    → s.settled ≡ none
    → handshake_len ≤ length (s.chunks ++ chunk)
    → their_hash (s.chunks ++ chunk) ≡ target
    → (on_data target member started chunk now s).settled
      ≡ some (some (record { peer = member; rtt_ms = now - started }))
unfolding on_data settle first_outcome
judged target member started chunk now s unset long e =
    let yes_same = eq→same (their_hash (s.chunks ++ chunk)) target e in
    ground (arith, unset, long, yes_same)

waiting :
    (target : Text) (member : Peer) (started : ℕ) (chunk : List ℕ) (now : ℕ) (s : Probing)
    → length (s.chunks ++ chunk) < handshake_len
    → on_data target member started chunk now s ≡ record s { chunks = s.chunks ++ chunk }
unfolding on_data
waiting target member started chunk now s short = ground (arith, short)

joined_whole :
    (target : Text) (member : Peer) (started : ℕ) (cs : List (List ℕ × ℕ)) (s : Probing)
    → s.settled ≡ none
    → length s.chunks < handshake_len
    → handshake_len ≤ length (s.chunks ++ joined cs)
    → their_hash (s.chunks ++ joined cs) ≡ target
    → (a : Answered) × ((run_probe target member started s (chunk_events cs)).settled
        ≡ some (some a))
unfolding run_probe on_probe
joined_whole target member started [] s unset short long e =
    let none_read : ⊥ = omega (arith, short, long, length-append s.chunks []) in elim none_read [ ]
joined_whole target member started ((chunk, now) ∷ cs) s unset short long e =
    let assoc = append_assoc s.chunks chunk (joined cs) in
    let size : handshake_len ≤ length ((s.chunks ++ chunk) ++ joined cs) =
      subst (λ (x : List ℕ). handshake_len ≤ length x) (sym assoc) long in
    let theirs = ap their_hash assoc ∙ e in
    elim (Bool-cases (ltb (length (s.chunks ++ chunk)) handshake_len)) [
      | inl b ↦
          let short' : length (s.chunks ++ chunk) < handshake_len = ground (arith, b) in
          subst
            (λ (x : Probing).
              (a : Answered) × ((run_probe target member started x (chunk_events cs)).settled
                ≡ some (some a)))
            (sym (waiting target member started chunk now s short'))
            (joined_whole target member started cs (record s { chunks = s.chunks ++ chunk }) unset
              short' size theirs)
      | inr b ↦
          let whole : handshake_len ≤ length (s.chunks ++ chunk) = ground (arith, b) in
          let here = sym (their_hash-append (s.chunks ++ chunk) (joined cs) whole) ∙ theirs in
          (
            record { peer = member; rtt_ms = now - started },
            kept_run target member started _ (chunk_events cs) _
                (judged target member started chunk now s unset whole here),
          )
    ]

-- A member that sends enough bytes, with the hash at its place, is found, into whatever chunks the network has
-- cut the reply.
joined_is_found :
    (target : Text) (member : Peer) (started : ℕ) (cs : List (List ℕ × ℕ))
    → handshake_len ≤ length (joined cs)
    → their_hash (joined cs) ≡ target
    → (a : Answered) × ((run_probe target member started new_probe (chunk_events cs)).settled
        ≡ some (some a))
unfolding new_probe
joined_is_found target member started cs long e =
    joined_whole target member started cs new_probe refl (omega arith) long e

-- What `buildHandshake` writes has the hash where the probe reads it.
their_hash-build_handshake :
    (info_hash peer_id : List ℕ)
    → length info_hash ≡ 20
    → their_hash (build_handshake info_hash peer_id) ≡ hex info_hash
unfolding their_hash build_handshake
their_hash-build_handshake info_hash peer_id e = ap hex (
    take_append 20 info_hash peer_id (omega (arith, e))
    ∙ take_of_length-le 20 info_hash (omega (arith, e)))

length-build_handshake :
    (info_hash peer_id : List ℕ)
    → length info_hash ≡ 20
    → length peer_id ≡ 20
    → length (build_handshake info_hash peer_id) ≡ handshake_len
unfolding build_handshake
length-build_handshake info_hash peer_id e f = omega (arith, e, f, length-append info_hash peer_id)

bytes_of-chunk_events : (cs : List (List ℕ × ℕ)) → bytes_of (chunk_events cs) ≡ joined cs
unfolding bytes_of
bytes_of-chunk_events [] = refl
bytes_of-chunk_events (c ∷ cs) = ap (λ (t : List ℕ). c.0 ++ t) (bytes_of-chunk_events cs)

-- A member that answers as `buildHandshake` does, with a hash of its own and its id, is found exactly
-- when that hash is the one that was asked for, into whatever chunks the network has cut its answer.
pub found_iff_same_hash :
    (target : Text) (member : Peer) (started : ℕ) (cs : List (List ℕ × ℕ))
    (info_hash peer_id : List ℕ)
    → length info_hash ≡ 20
    → length peer_id ≡ 20
    → joined cs ≡ build_handshake info_hash peer_id
    → ((a : Answered) × ((run_probe target member started new_probe (chunk_events cs)).settled
          ≡ some (some a)))
      ↔ (hex info_hash ≡ target)
found_iff_same_hash target member started cs info_hash peer_id e f sent =
    let theirs = ap their_hash sent ∙ their_hash-build_handshake info_hash peer_id e in
    let whole = length-build_handshake info_hash peer_id e f in
    (
      λ (a, h).
          let v = run_probe-IsProven target member started (chunk_events cs) a h in
          sym theirs ∙ sym (ap their_hash (bytes_of-chunk_events cs)) ∙ v.for_hash,
      λ h.
          joined_is_found target member started cs (omega (arith, whole, ap length sent))
            (theirs ∙ h),
    )

found_iff_hash_bytes :
    (target : Text) (member : Peer) (started : ℕ) (cs : List (List ℕ × ℕ))
    → ((a : Answered) × ((run_probe target member started new_probe (chunk_events cs)).settled
          ≡ some (some a)))
      ↔ ((handshake_len ≤ length (joined cs)) × (their_hash (joined cs) ≡ target))
found_iff_hash_bytes target member started cs = (
  λ (a, h).
      let v = run_probe-IsProven target member started (chunk_events cs) a h in
      (
        omega (arith, v.long_enough, ap length (bytes_of-chunk_events cs)),
        sym (ap their_hash (bytes_of-chunk_events cs)) ∙ v.for_hash,
      ),
  λ (long, e). joined_is_found target member started cs long e,
)

-- Whatever happens on the socket: a probe gives no peer but the member that it asked, and only when at
-- least 68 bytes have arrived of which those from place 28 to 47 are the hash that was asked for. A
-- member that sends such bytes, and nothing else happens, is found, into whatever chunks the network has
-- cut them and whatever the other bytes are: the protocol's name in front is not looked at.
pub run_probe_lem :
    (target : Text) (member : Peer) (started : ℕ)
    → ((es : List ProbeEvent) (a : Answered)
        → (run_probe target member started new_probe es).settled ≡ some (some a)
        → IsProven target member (bytes_of es) a)
      × ((cs : List (List ℕ × ℕ))
          → ((a : Answered) × ((run_probe target member started new_probe (chunk_events cs)).settled
                ≡ some (some a)))
            ↔ ((handshake_len ≤ length (joined cs)) × (their_hash (joined cs) ≡ target)))
run_probe_lem target member started =
    (run_probe-IsProven target member started, found_iff_hash_bytes target member started)
