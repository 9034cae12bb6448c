-- ===== src/Proxy/Supervise/Waiting.antt =====
-- When a supervisor of src/proxy/pool.rs tries to connect again.
use proxybear.Base.{ℕ, ◌+◌, ◌≤◌, ◌<◌, ◌≡◌, refl, ◌≢◌, ◌⊎◌, List, [], ◌∷◌, All, arith, Error}
use proxybear.Proxy.Pool.{Pool, report_connect_error}
use proxybear.Proxy.Supervise.{
  Phase, connecting, idle, pausing, Event, connected, refused, closed, failed, woken, timer,
  reconnect_min_interval, supervise_step, supervise,
}

-- No client asks.
abbrev pub IsNoWake : Event → Type 0
IsNoWake e = e ≢ woken

idle_step :
    (index : ℕ) (e : Event) (since : ℕ) (p : Pool)
    → e ≢ woken
    → supervise_step index e (idle since) p ≡ (idle since, p)
unfolding supervise_step
idle_step index (connected now) since p h = refl
idle_step index woken since p h = absurd (h refl)
idle_step index _ since p h = refl

-- An idle supervisor that no client wakes stays idle and leaves the pool alone, whatever else happens.
supervise-idle :
    (index : ℕ) (es : List Event) (since : ℕ) (p : Pool)
    → All IsNoWake es
    → supervise index es (idle since) p ≡ (idle since, p)
unfolding supervise
supervise-idle index [] since p h = refl
supervise-idle index (e ∷ es) since p h =
    rw (idle_step index e since p h.0) (supervise-idle index es since p h.1)

-- The event is no timer that is due at `time`.
abbrev pub IsBefore : ℕ → Event → Type 0
IsBefore time (timer now) = now < time
IsBefore time _ = Unit {0}

abbrev pub IsWaiting : ℕ → Phase → Type 0
IsWaiting since phase = (phase ≡ idle since) ⊎ (phase ≡ pausing since)

IsWaiting-step :
    (index : ℕ) (e : Event) (since : ℕ) (phase : Phase) (p : Pool)
    → IsWaiting since phase
    → IsBefore (since + reconnect_min_interval) e
    → IsWaiting since (supervise_step index e phase p).0
unfolding supervise_step
IsWaiting-step index (connected now) since phase p w b = ground arith
IsWaiting-step index (refused x now) since phase p w b = ground arith
IsWaiting-step index (closed now) since phase p w b = ground arith
IsWaiting-step index (failed now) since phase p w b = ground arith
IsWaiting-step index woken since phase p w b = ground arith
IsWaiting-step index (timer now) since phase p w b = ground arith

-- Until `reconnect_min_interval` is over, a supervisor that began to wait goes on waiting, however
-- often it is woken.
pub supervise-IsWaiting :
    (index : ℕ) (es : List Event) (since : ℕ) (phase : Phase) (p : Pool)
    → IsWaiting since phase
    → All (IsBefore (since + reconnect_min_interval)) es
    → IsWaiting since (supervise index es phase p).0
unfolding supervise
supervise-IsWaiting index [] since phase p w b = w
supervise-IsWaiting index (e ∷ es) since phase p w b =
    supervise-IsWaiting index es since (supervise_step index e phase p).0
      (supervise_step index e phase p).1 (IsWaiting-step index e since phase p w b.0) b.1

receivers-report_connect_error :
    (e : Error) (p : Pool) → (report_connect_error e p).receivers ≡ p.receivers
unfolding report_connect_error
receivers-report_connect_error e p = ground arith

-- After a failed attempt, the interval leads to the next attempt if a client is waiting for a session.
-- If none is, the supervisor goes idle, and the next attempt begins once a client has woken it and the
-- interval is over.
pub supervise-refused :
    (index : ℕ) (e : Error) (now later : ℕ) (p : Pool)
    → now + reconnect_min_interval ≤ later
    → (p.receivers ≢ 0
        → (supervise index (refused e now ∷ timer later ∷ []) connecting p).0 ≡ connecting)
      × (p.receivers ≡ 0
          → ((supervise index (refused e now ∷ timer later ∷ []) connecting p).0 ≡ idle now)
            × ((supervise index (refused e now ∷ woken ∷ timer later ∷ []) connecting p).0
                ≡ connecting))
unfolding supervise supervise_step
supervise-refused index e now later p h = ground (arith, receivers-report_connect_error e p)
