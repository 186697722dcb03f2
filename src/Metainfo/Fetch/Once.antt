-- ===== src/Metainfo/Fetch/Once.antt =====
-- metainfo.js, `fetchMetadata`: the promise resolves once, in time, and to an honest object.
use swarmproof.Base.{
  ◌++◌, Bool, false, if◌then◌else◌, not, ◌&&◌, ◌≢◌, sym, Option-cases, inl, inr, List, Option, [],
  ap, arith, none, refl, some, true, ℕ, ◌∙◌, ◌∷◌, ◌≡◌,
}
use swarmproof.Metainfo.{read_info, Meta}
use swarmproof.Metainfo.Fetch.{
  open_fetch, start, was_set, Event, Fetch, Result, connect_deadline, connects, finish, has_value,
  is_some_time, on_connect, on_event, overall_deadline, result_of, run_events, served, socket_fails,
  wire_fails,
}
use swarmproof.Metainfo.Proper.{read_info-IsProper, IsProperOption}
use mathlib.Core.Path.{subst}
use swarmproof.PeerTable.{step}

on_event-done : (s : Fetch) (e : ℕ × Event) (r : Result) → s.result ≡ some r → on_event s e ≡ s
unfolding on_event on_connect finish
on_event-done s (now, connects b) r h = rw h refl
on_event-done s (now, socket_fails) r h = rw h refl
on_event-done s (now, wire_fails) r h = rw h (grind arith)
on_event-done s (now, served info) r h = rw h (grind arith)
on_event-done s (now, overall_deadline) r h = rw h (grind arith)
on_event-done s (now, connect_deadline) r h = rw h (grind arith)

-- The promise resolves once: after that, no event changes anything.
pub run_events-done :
    (s : Fetch) (es : List (ℕ × Event)) (r : Result) → s.result ≡ some r → run_events s es ≡ s
unfolding run_events
run_events-done s [] r h = refl
run_events-done s (e ∷ es) r h =
    ap (λ (u : Fetch). run_events u es) (on_event-done s e r h) ∙ run_events-done s es r h

-- While the promise is open, the overall deadline is set, and a wire has a connected socket. When it
-- has resolved, the object is honest: success is what has metadata, and it takes a connection.
HonestAt : Fetch → Option Result → Type 0
HonestAt s none = (s.overall_timer ≡ true) × (s.wired ≡ true → is_some_time s.connected_at ≡ true)
HonestAt s (some r) =
    (r.ok ≡ has_value r.metadata)
    × (r.connected ≡ is_some_time s.connected_at)
    × (r.ok ≡ true → r.connected ≡ true)
    × IsProperOption r.metadata

pub Honest : Fetch → Type 0
unfolding HonestAt
Honest s = HonestAt s s.result

finish-open :
    (found : Option Meta) (now : ℕ) (s : Fetch)
    → IsProperOption found
    → (has_value found ≡ true → is_some_time s.connected_at ≡ true)
    → s.result ≡ none
    → Honest (finish found now s)
unfolding Honest HonestAt finish result_of
finish-open found now s p c e = rw e (refl, refl, c, p)

-- An event changes nothing, or it comes to an open promise.
event_cases :
    (s : Fetch) (e : ℕ × Event)
    → Honest s
    → (s.result ≡ none → Honest (on_event s e))
    → Honest (on_event s e)
event_cases s e h step = elim (Option-cases s.result) [
  | inl n ↦ step n
  | inr (r, d) ↦ rw (on_event-done s e r d) h
]

wired-Honest :
    (s : Fetch) → Honest s → s.result ≡ none → s.wired ≡ true → is_some_time s.connected_at ≡ true
unfolding Honest
wired-Honest s h e = (subst (HonestAt s) e h).1

HonestAt_none :
    (s : Fetch)
    → s.overall_timer ≡ true
    → (s.wired ≡ true → is_some_time s.connected_at ≡ true)
    → s.result ≡ none
    → Honest s
unfolding Honest HonestAt
HonestAt_none s t w e = subst (HonestAt s) (sym e) (t, w)

timer-Honest : (s : Fetch) → Honest s → s.result ≡ none → s.overall_timer ≡ true
unfolding Honest HonestAt
timer-Honest s h e = (subst (HonestAt s) e h).0

no_value : (b : Bool) → has_value none ≡ true → b ≡ true
unfolding has_value
no_value b h = grind arith

fail-Honest : (now : ℕ) (s : Fetch) → s.result ≡ none → Honest (finish none now s)
unfolding IsProperOption
fail-Honest now s n = finish-open none now s tt (no_value (is_some_time s.connected_at)) n

-- What an event does under a guard.
guarded-Honest :
    (b : Bool) (s s' : Fetch) → Honest s → (b ≡ true → Honest s') → Honest (if b then s' else s)
guarded-Honest true s s' h k = k refl
guarded-Honest false s s' h k = h

connect-Honest :
    (b : Bool) (now : ℕ) (s : Fetch) → Honest s → s.result ≡ none → Honest (on_connect b now s)
unfolding on_connect is_some_time
connect-Honest true now s h n = rw n (
    HonestAt_none
      (record s { connected_at = some now; connect_timer = false; wired = true; result = none })
      (timer-Honest s h n) (λ k. refl) refl)
connect-Honest false now s h n = rw n (
    fail-Honest now
      (record s { connected_at = some now; connect_timer = false; wired = true; result = none })
      refl)

open-Honest : (s : Fetch) (e : ℕ × Event) → Honest s → s.result ≡ none → Honest (on_event s e)
unfolding on_event
open-Honest s (now, connects b) h n = connect-Honest b now s h n
open-Honest s (now, socket_fails) h n = fail-Honest now s n
open-Honest s (now, wire_fails) h n = guarded-Honest s.wired s _ h (λ k. fail-Honest now s n)
open-Honest s (now, served info) h n = guarded-Honest s.wired s _ h (λ k.
    finish-open (read_info info) now s (read_info-IsProper info) (λ v. wired-Honest s h n k) n)
open-Honest s (now, overall_deadline) h n =
    guarded-Honest s.overall_timer s _ h (λ k. fail-Honest now s n)
open-Honest s (now, connect_deadline) h n =
    guarded-Honest (s.connect_timer && not (was_set s.connected_at)) s _ h
      (λ k. fail-Honest now s n)

on_event-Honest : (s : Fetch) (e : ℕ × Event) → Honest s → Honest (on_event s e)
on_event-Honest s e h = event_cases s e h (open-Honest s e h)

run_events-Honest : (s : Fetch) (es : List (ℕ × Event)) → Honest s → Honest (run_events s es)
unfolding run_events
run_events-Honest s [] h = h
run_events-Honest s (e ∷ es) h = run_events-Honest (on_event s e) es (on_event-Honest s e h)

start-Honest : (now : ℕ) (opened : Bool) → Honest (start now opened)
unfolding start open_fetch
start-Honest now true = HonestAt_none (open_fetch now) refl (λ k. grind arith) refl
start-Honest now false = fail-Honest now (open_fetch now) refl

-- After any events in any order, if the promise has resolved, then to an honest object: it is a
-- success just if it has metadata, a success is connected, and the metadata has a name and at most a
-- hundred paths, none of them empty.
pub resolved-Honest :
    (t0 : ℕ) (opened : Bool) (es : List (ℕ × Event)) (r : Result)
    → (run_events (start t0 opened) es).result ≡ some r
    → (r.ok ≡ has_value r.metadata) × (r.ok ≡ true → r.connected ≡ true) × IsProperOption r.metadata
unfolding Honest HonestAt
resolved-Honest t0 opened es r e =
    let h = run_events-Honest (start t0 opened) es (start-Honest t0 opened) in
    let (same_ok, same_connected, needs, proper) =
      subst (HonestAt (run_events (start t0 opened) es)) e h in
    (same_ok, needs, proper)

resolves_now : (s : Fetch) (now : ℕ) → Honest s → (on_event s (now, overall_deadline)).result ≢ none
unfolding on_event finish
resolves_now s now h = elim (Option-cases s.result) [
  | inl n ↦ rw (timer-Honest s h n, n) (λ k. grind arith)
  | inr (r, d) ↦ λ k. grind (arith, on_event-done s (now, overall_deadline) r d)
]

run_events-append :
    (s : Fetch) (xs ys : List (ℕ × Event))
    → run_events s (xs ++ ys) ≡ run_events (run_events s xs) ys
unfolding run_events
run_events-append s [] ys = refl
run_events-append s (x ∷ xs) ys = run_events-append (on_event s x) xs ys

-- Whatever happened before, the overall deadline leaves the promise resolved.
pub deadline_resolves :
    (t0 : ℕ) (opened : Bool) (es : List (ℕ × Event)) (now : ℕ)
    → (run_events (start t0 opened) (es ++ (now, overall_deadline) ∷ [])).result ≢ none
unfolding run_events
deadline_resolves t0 opened es now =
    rw (run_events-append (start t0 opened) es ((now, overall_deadline) ∷ [])) (
      resolves_now (run_events (start t0 opened) es) now
        (run_events-Honest (start t0 opened) es (start-Honest t0 opened)))

finish-connected :
    (found : Option Meta) (now : ℕ) (s : Fetch) → (finish found now s).connected_at ≡ s.connected_at
unfolding finish
finish-connected found now s = ground arith

on_event-connected :
    (s : Fetch) (e : ℕ × Event)
    → is_some_time s.connected_at ≡ true
    → is_some_time (on_event s e).connected_at ≡ true
unfolding on_event on_connect is_some_time finish
on_event-connected s (now, connects b) h = ground arith
on_event-connected s (now, socket_fails) h = ground (arith, finish-connected none now s)
on_event-connected s (now, wire_fails) h = ground (arith, finish-connected none now s)
on_event-connected s (now, served info) h = ground (arith, finish-connected (read_info info) now s)
on_event-connected s (now, overall_deadline) h = ground (arith, finish-connected none now s)
on_event-connected s (now, connect_deadline) h = ground (arith, finish-connected none now s)

run_events-connected :
    (s : Fetch) (es : List (ℕ × Event))
    → is_some_time s.connected_at ≡ true
    → is_some_time (run_events s es).connected_at ≡ true
unfolding run_events
run_events-connected s [] h = h
run_events-connected s (e ∷ es) h =
    run_events-connected (on_event s e) es (on_event-connected s e h)

connect-connected :
    (s : Fetch) (now : ℕ) (b : Bool)
    → s.result ≡ none
    → is_some_time (on_event s (now, connects b)).connected_at ≡ true
unfolding on_event on_connect is_some_time finish
connect-connected s now b n = ground arith

-- A peer whose connection came up while the promise was open is reported as connected, however the
-- attempt ends.
pub connected_lem :
    (t0 : ℕ) (opened : Bool) (before later : List (ℕ × Event)) (now : ℕ) (sets_up : Bool)
    (r : Result)
    → (run_events (start t0 opened) before).result ≡ none
    → (run_events (start t0 opened) (before ++ (now, connects sets_up) ∷ later)).result ≡ some r
    → r.connected ≡ true
unfolding Honest HonestAt run_events
connected_lem t0 opened before later now sets_up r n e =
    let s = run_events (start t0 opened) before in
    let s' = run_events s ((now, connects sets_up) ∷ later) in
    let whole = run_events-append (start t0 opened) before ((now, connects sets_up) ∷ later) in
    let e' : s'.result ≡ some r = ap (λ (u : Fetch). u.result) (sym whole) ∙ e in
    let honest = subst (HonestAt s') e' (
      run_events-Honest s ((now, connects sets_up) ∷ later)
        (run_events-Honest (start t0 opened) before (start-Honest t0 opened))) in
    honest.1
    ∙ run_events-connected (on_event s (now, connects sets_up)) later
        (connect-connected s now sets_up n)
