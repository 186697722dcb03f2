-- ===== src/Metainfo/Fetch.antt =====
-- metainfo.js, `fetchMetadata`: one connection, as a machine that takes the events of the socket, the
-- wire and the two timers, in any order.
pub mod Once
mod Tests
use swarmproof.Base.{
  Bool, List, Option, [], false, if◌then◌else◌, none, not, some, true, ℕ, ◌&&◌, ◌-◌, ◌==◌, ◌∷◌,
}
use swarmproof.Metainfo.{Info, Meta, read_info}

-- The object that the promise resolves to.
pub record Result : Type 0 where
  pub ok : Bool
  pub connected : Bool
  pub connect_ms : Option ℕ
  pub total_ms : ℕ
  pub metadata : Option Meta

-- The two timers, the wire's handlers, when the socket connected, and what the promise has resolved to
-- (the source's `done` is that it has).
pub record Fetch : Type 0 where
  pub t0 : ℕ
  pub connected_at : Option ℕ
  pub overall_timer : Bool
  pub connect_timer : Bool
  pub wired : Bool
  pub result : Option Result

pub data Event : Type 0 where
  -- 'connect'; the flag is whether setting up the wire and its handshake succeeds
  connects : Bool → Event
  -- 'error', 'close' or 'timeout' of the socket
  socket_fails : Event
  -- 'error' of the wire, or 'warning' of the extension
  wire_fails : Event
  -- the metadata, verified against the infohash by the extension
  served : Option Info → Event
  overall_deadline : Event
  connect_deadline : Event

-- `fetchMetadata`, up to its first event: `net.connect` throws, or not.
pub was_set : Option ℕ → Bool
was_set none = false
was_set (some t) = not (t == 0)

pub is_some_time : Option ℕ → Bool
is_some_time none = false
is_some_time (some t) = true

pub connect_time : ℕ → Option ℕ → Option ℕ
connect_time t0 none = none
connect_time t0 (some t) = if t == 0 then none else some (t - t0)

pub has_value : Option Meta → Bool
has_value none = false
has_value (some v) = true

pub result_of : Option Meta → ℕ → Fetch → Result
unfolding has_value is_some_time connect_time
result_of found now s = record {
  ok = has_value found;
  connected = is_some_time s.connected_at;
  connect_ms = connect_time s.t0 s.connected_at;
  total_ms = now - s.t0;
  metadata = found;
}

pub finish : Option Meta → ℕ → Fetch → Fetch
unfolding result_of
finish found now s = elim s.result [
  | some r ↦ s
  | none ↦ record s {
    overall_timer = false;
    connect_timer = false;
    wired = false;
    result = some (result_of found now s);
  }
]

pub open_fetch : ℕ → Fetch
open_fetch now = record {
  t0 = now;
  connected_at = none;
  overall_timer = true;
  connect_timer = true;
  wired = false;
  result = none;
}

pub start : ℕ → Bool → Fetch
unfolding open_fetch finish
start now opened = if opened then open_fetch now else finish none now (open_fetch now)

-- The handler of 'connect'.
pub on_connect : Bool → ℕ → Fetch → Fetch
unfolding finish
on_connect sets_up now s = elim s.result [
  | some r ↦ s
  | none ↦
      let s' = record s { connected_at = some now; connect_timer = false; wired = true } in
      if sets_up then s' else finish none now s'
]

-- One event at a time of the clock. A timer that is cleared does not fire, and a wire that is not
-- there, or is destroyed, has no events.
pub on_event : Fetch → ℕ × Event → Fetch
unfolding on_connect finish was_set read_info
on_event s (now, connects sets_up) = on_connect sets_up now s
on_event s (now, socket_fails) = finish none now s
on_event s (now, wire_fails) = if s.wired then finish none now s else s
on_event s (now, served info) = if s.wired then finish (read_info info) now s else s
on_event s (now, overall_deadline) = if s.overall_timer then finish none now s else s
on_event s (now, connect_deadline) =
    if s.connect_timer && not (was_set s.connected_at) then finish none now s else s

pub run_events : Fetch → List (ℕ × Event) → Fetch
unfolding on_event
run_events s [] = s
run_events s (e ∷ es) = run_events (on_event s e) es
