-- ===== src/PeerSources/Tests.antt =====
-- Runs of peerSources.js, and the theorems at concrete inputs.
use swarmproof.Base.{
  length, ◌++◌, ◌↔◌, ◌≤◌, List, [], drop, false, none, refl, some, take, ℕ, ◌∷◌, ◌≡◌,
}
use swarmproof.PeerSources.{
  Answered, ProbeEvent, handshake_len, announced, build_handshake, chosen_roster,
  create_peer_source, data_arrives, default_mode, dht_sample, dht_source, first_given,
  first_outcome, new_probe, on_data, on_probe, pick, run_probe, settle, socket_closes, source_of,
  splice, their_hash,
}
use swarmproof.PeerSources.Outcome.{run_probe_lem, joined, chunk_events}
use swarmproof.Base.Text.{Text, same, text}
use swarmproof.Crawler.Stages.{hex, hex_digit}
use swarmproof.PeerSources.Proof.{IsProven, bytes_of}
use swarmproof.PeerTable.{Peer}

abbrev a_member : Peer
a_member = record { host = text "10.0.0.7"; port = 6881 }

abbrev other_member : Peer
other_member = record { host = text "10.0.0.8"; port = 6881 }

abbrev some_bytes : ℕ → List ℕ
some_bytes b = b ∷ b ∷ b ∷ b ∷ b ∷ b ∷ b ∷ b ∷ b ∷ b ∷ b ∷ b ∷ b ∷ b ∷ b ∷ b ∷ b ∷ b ∷ b ∷ b ∷ []

abbrev wanted_hash : Text
wanted_hash = text "abababababababababababababababababababab"

abbrev their_reply : List ℕ
their_reply = build_handshake (some_bytes 0xab) (some_bytes 7)

abbrev in_two : List (List ℕ × ℕ)
in_two = (take 30 their_reply, 140) ∷ (drop 30 their_reply, 150) ∷ []

probe_program : Unit {0}
unfolding run_probe on_probe on_data settle first_outcome their_hash new_probe build_handshake pick
    splice create_peer_source first_given chosen_roster source_of default_mode dht_sample announced
    hex hex_digit same bytes_of
probe_program = tt

two_chunks :
    (run_probe wanted_hash a_member 100 new_probe (chunk_events in_two)).settled
    ≡ some (some (record { peer = a_member; rtt_ms = 50 }))
unfolding probe_program
two_chunks = refl

closed_early :
    (run_probe wanted_hash a_member 100 new_probe (
      data_arrives (take 30 their_reply) 140
      ∷ socket_closes
      ∷ data_arrives (drop 30 their_reply) 150
      ∷ [])).settled
    ≡ some none
unfolding probe_program
closed_early = refl

forced_dht : create_peer_source [] [] (text "fleet") [] ≡ dht_source
unfolding probe_program
forced_dht = refl

announced_run :
    dht_sample false wanted_hash ((a_member, wanted_hash) ∷ (other_member, text "cd") ∷ [])
    ≡ a_member ∷ []
unfolding probe_program
announced_run = refl

abbrev first_of : ℕ → ℕ → ℕ
first_of round size = 0

-- The protocol's name in front is none.
abbrev no_handshake : List (List ℕ × ℕ)
no_handshake =
    (some_bytes 0 ++ take 8 (some_bytes 0), 120) ∷ (some_bytes 0xab ++ some_bytes 7, 150) ∷ []

run_probe_lem_example :
    ((es : List ProbeEvent) (a : Answered)
      → (run_probe wanted_hash a_member 100 new_probe es).settled ≡ some (some a)
      → IsProven wanted_hash a_member (bytes_of es) a)
    × ((cs : List (List ℕ × ℕ))
        → ((a : Answered) × ((run_probe wanted_hash a_member 100 new_probe
                (chunk_events cs)).settled
              ≡ some (some a)))
          ↔ ((handshake_len ≤ length (joined cs)) × (their_hash (joined cs) ≡ wanted_hash)))
run_probe_lem_example = run_probe_lem wanted_hash a_member 100

no_handshake_is_found :
    (run_probe wanted_hash a_member 100 new_probe (chunk_events no_handshake)).settled
    ≡ some (some (record { peer = a_member; rtt_ms = 50 }))
unfolding probe_program
no_handshake_is_found = refl
