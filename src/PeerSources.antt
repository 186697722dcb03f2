-- ===== src/PeerSources.antt =====
-- peerSources.js: where live peers come from.
--
-- The handshake of a direct probe is a machine of the events on its socket. What `Math.random` draws is
-- an argument; a lookup in the DHT is the list of what it announces within the window.
pub mod Picked
pub mod Proof
pub mod Outcome
mod Tests
use swarmproof.Base.{
  Bool, List, Option, [], drop, if◌then◌else◌, length, ltb, max, min, none, some, suc, take, zero,
  ℕ, ◌++◌, ◌-◌, ◌∷◌,
}
use swarmproof.Base.Text.{Text, same, text}
use swarmproof.Crawler.Stages.{hex}
use swarmproof.PeerTable.{Peer}

abbrev pub handshake_len : ℕ
handshake_len = 68

abbrev pub default_sample_k : ℕ
default_sample_k = 8

abbrev pub connect_timeout_ms : ℕ
connect_timeout_ms = 800

-- `BitTorrent protocol`
abbrev pub protocol : List ℕ
protocol = text "BitTorrent protocol"

-- `buildHandshake`, for the bytes of the hash and of the peer's id.
unfoldable pub build_handshake : List ℕ → List ℕ → List ℕ
build_handshake info_hash peer_id =
    19 ∷ (protocol ++ (0 ∷ 0 ∷ 0 ∷ 0 ∷ 0 ∷ 0 ∷ 0 ∷ 0 ∷ (info_hash ++ peer_id)))

-- `DhtPeerSource.sample`: the peers that are announced for the hash; nothing when the lookup throws.
unfoldable pub announced : Text → List (Peer × Text) → List Peer
announced target [] = []
announced target ((p, hash) ∷ ps) =
    if same hash target then p ∷ announced target ps else announced target ps

unfoldable pub dht_sample : Bool → Text → List (Peer × Text) → List Peer
unfolding announced
dht_sample throws target ps = if throws then [] else announced target ps

-- `pool.splice(i, 1)[0]`, and what it leaves.
unfoldable pub splice : ℕ → List Peer → Option Peer × List Peer
splice i [] = (none, [])
splice zero (p ∷ ps) = (some p, ps)
splice (suc i) (p ∷ ps) = let (o, rest) = splice i ps in (o, p ∷ rest)

-- `_pick`, with what is left of the pool. The draw of a round may depend on all but its outcome.
unfoldable pub pick : (ℕ → ℕ → ℕ) → ℕ → List Peer → List (Option Peer) × List Peer
unfolding splice
pick draw zero pool = ([], pool)
pick draw (suc n) [] = ([], [])
pick draw (suc n) (p ∷ ps) =
    let (o, rest) = splice (draw n (length (p ∷ ps))) (p ∷ ps) in
    let (out, left) = pick draw n rest in (o ∷ out, left)

unfoldable pub budget : ℕ → ℕ → ℕ
budget started deadline = max 1 (min connect_timeout_ms (deadline - started))

-- A peer that answered, with its round trip.
pub record Answered : Type 0 where
  pub peer : Peer
  pub rtt_ms : ℕ

pub data ProbeEvent : Type 0 where
  data_arrives : List ℕ → ℕ → ProbeEvent
  deadline_passes : ProbeEvent
  socket_idles : ProbeEvent
  socket_fails : ProbeEvent
  socket_closes : ProbeEvent
  socket_ends : ProbeEvent

-- What a probe has resolved with, once it has, and what it has read.
pub record Probing : Type 0 where
  pub settled : Option (Option Answered)
  pub chunks : List ℕ

unfoldable pub new_probe : Probing
new_probe = record { settled = none; chunks = [] }

-- `done`: the first outcome stays.
unfoldable pub first_outcome : Option Answered → Option (Option Answered) → Option Answered
first_outcome r none = r
first_outcome r (some r') = r'

unfoldable pub settle : Option Answered → Probing → Probing
unfolding first_outcome
settle r s = record s { settled = some (first_outcome r s.settled) }

-- Bytes 28 to 48 of the reply.
unfoldable pub their_hash : List ℕ → Text
their_hash reply = hex (take 20 (drop 28 reply))

unfoldable pub on_data : Text → Peer → ℕ → List ℕ → ℕ → Probing → Probing
unfolding settle their_hash
on_data target member started chunk now s =
    let s' = record s { chunks = s.chunks ++ chunk } in
    if ltb (length s'.chunks) handshake_len
    then s'
    else (if same (their_hash s'.chunks) target
        then settle (some (record { peer = member; rtt_ms = now - started })) s'
        else settle none s')

-- `_probe`, for a hash in lower case.
unfoldable pub on_probe : Text → Peer → ℕ → Probing → ProbeEvent → Probing
unfolding on_data settle
on_probe target member started s (data_arrives chunk now) =
    on_data target member started chunk now s
on_probe target member started s deadline_passes = settle none s
on_probe target member started s socket_idles = settle none s
on_probe target member started s socket_fails = settle none s
on_probe target member started s socket_closes = settle none s
on_probe target member started s socket_ends = settle none s

unfoldable pub run_probe : Text → Peer → ℕ → Probing → List ProbeEvent → Probing
unfolding on_probe
run_probe target member started s [] = s
run_probe target member started s (e ∷ es) =
    run_probe target member started (on_probe target member started s e) es

-- `results.filter(Boolean)`
unfoldable pub kept_answers : List (Option Answered) → List Answered
kept_answers [] = []
kept_answers (none ∷ rs) = kept_answers rs
kept_answers (some a ∷ rs) = a ∷ kept_answers rs

-- What a picked member answers; there is none for the `undefined` of an index out of range.
unfoldable pub probe_all : (Peer → Option Answered) → List (Option Peer) → List (Option Answered)
probe_all probe [] = []
probe_all probe (none ∷ ps) = none ∷ probe_all probe ps
probe_all probe (some p ∷ ps) = probe p ∷ probe_all probe ps

-- `DirectPeerSource.sample`, with what `_probe` gives for a member.
unfoldable pub direct_sample :
    (ℕ → ℕ → ℕ) → ℕ → (Peer → Option Answered) → List Peer → List Answered
unfolding kept_answers probe_all pick
direct_sample draw k probe [] = []
direct_sample draw k probe (m ∷ ms) = kept_answers (probe_all probe (pick draw k (m ∷ ms)).0)

pub data Source : Type 0 where
  dht_source : Source
  direct_source : List Text → Source

unfoldable pub first_given : Text → Text → Text
first_given [] b = b
first_given (c ∷ a) b = c ∷ a

unfoldable pub chosen_roster : List Text → List Text → List Text
chosen_roster [] from_env = from_env
chosen_roster (m ∷ ms) from_env = m ∷ ms

unfoldable pub source_of : Text → List Text → Source
source_of wanted [] = dht_source
source_of wanted (m ∷ ms) =
    if same wanted (text "fleet") then direct_source (m ∷ ms) else dht_source

unfoldable pub default_mode : List Text → Text
default_mode [] = text "dht"
default_mode (m ∷ ms) = text "fleet"

-- `createPeerSource`, with the entries of SWARMPROOF_MEMBERS. An absent mode is the empty text.
unfoldable pub create_peer_source : List Text → List Text → Text → Text → Source
unfolding first_given chosen_roster source_of default_mode
create_peer_source members from_env mode env_mode =
    let roster = chosen_roster members from_env in
    source_of (first_given mode (first_given env_mode (default_mode roster))) roster
