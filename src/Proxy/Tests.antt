-- ===== src/Proxy/Tests.antt =====
-- Runs of the pool, the supervisors, the tunnel and the handshake on small inputs.
use proxybear.Base.{
  true, ℕ, zero, suc, ◌%◌, ◌^◌, ◌≡◌, refl, ◌≢◌, inl, Bool, false, none, some, List, [], ◌∷◌, ◌++◌,
  arith, codes, ok,
}
use proxybear.Base.Utf8.{from_utf8}
use proxybear.Net.Samples.{tagged}
use proxybear.Stats.{ProxyStats}
use proxybear.Stats
use proxybear.Proxy.Pool
use proxybear.Proxy.Pool.{
  Session, Pool, is_live, load, live_sessions, set_slot, report_connect_error, occupied,
}
use proxybear.Proxy.Pool.{new_lease}
use proxybear.Proxy.Pool.Channel.{
  select, least_loaded, unsubscribe, Round, prompt, opened, other_error, Wait, ready, acquire,
  attempt, subscribe, open_channel,
}
use proxybear.Proxy.Pool.Select.{IsBest, acquire-IsBest}
use proxybear.Proxy.Pool.Leases.{IsQuiet, Leased, open_channel-Leased, HasRoom}
use proxybear.Proxy.Pool.Retry.{attempt-elsewhere}
use proxybear.Proxy.Tunnel.{begin, pump, reads, taken, data_message}
use proxybear.Proxy.Tunnel.Counts.{IsFair, pump-begin-IsFair}
use proxybear.Proxy.Client.{Tunnelled, handle_client}
use proxybear.Proxy.Client.Balance.{handle_client-SameLoad}
use proxybear.Proxy.Supervise.{idle, connected, closed, woken, timer, supervise}
use proxybear.Proxy.Supervise.Waiting.{IsWaiting, supervise-IsWaiting}
use proxybear.Proxy.System.{Action, supervisor, asks, takes, returns, kills, run, start, count}
use proxybear.Proxy.System.Slots.{IsInStep, run-start-IsInStep}
use proxybear.Proxy.System.Counts.{run-start-counted}
use proxybear.Proxy.Socks.{Stream, read_request}
use proxybear.Proxy.Socks.Requests.{name, encode_request, read_request-encode}
use proxybear.Proxy.Socks.Replies.{refusal, is_refused, is_err, read_request-refusal}

abbrev session_of : ℕ → Bool → Session
session_of active dead = record {
  handle_closed = false;
  active_channels = active;
  dead = dead;
  kill = false;
}

-- Three slots, of which one is empty; session 1 has fewer channels than session 0.
abbrev busy : Pool
busy = record {
  slots = some 0 ∷ none ∷ some 1 ∷ [];
  sessions = session_of 4 false ∷ session_of 2 false ∷ [];
  stats = Stats.default;
  listening_status = codes "Listening on 127.0.0.1:1080";
  wakes = 0;
  receivers = 0;
  disconnected = [];
}

abbrev quietly : Wait
quietly = ready (λ p. p)

-- The first attempt fails with the session, the second opens channel 7.
abbrev second_time : ℕ → Round
second_time zero = record { wait = quietly; response = prompt (opened 7) }
second_time (suc n) = record {
  wait = quietly;
  response = prompt (other_error (codes "disconnected"));
}

busy-HasRoom : HasRoom busy
unfolding load
busy-HasRoom zero = omega arith
busy-HasRoom (suc zero) = omega arith
busy-HasRoom (suc (suc j)) = omega arith

acquire-IsBest_example : IsBest (subscribe busy) 1
unfolding acquire select least_loaded live_sessions occupied is_live load subscribe unsubscribe
    new_lease
acquire-IsBest_example = acquire-IsBest (λ p. p) busy 1 refl

IsQuiet-second_time : (i : ℕ) → IsQuiet (second_time i).wait
IsQuiet-second_time zero = λ p j. refl
IsQuiet-second_time (suc i) = λ p j. refl

open_channel-Leased_example :
    Leased busy (open_channel second_time busy).0 (open_channel second_time busy).1
open_channel-Leased_example = open_channel-Leased second_time busy IsQuiet-second_time busy-HasRoom

attempt-elsewhere_example : ◌≢◌ {A = ℕ} 1 0
unfolding Pool.drop_lease Pool.kill attempt acquire select least_loaded live_sessions occupied
    is_live load subscribe unsubscribe new_lease
attempt-elsewhere_example =
    attempt-elsewhere (second_time 1) busy 1 (codes "disconnected" ∷ []) (λ p. p) 0 refl refl
      (λ p id h. h) refl

supervise-IsWaiting_example : IsWaiting 100 (supervise 1 (woken ∷ timer 900 ∷ []) (idle 100) busy).0
supervise-IsWaiting_example =
    supervise-IsWaiting 1 (woken ∷ timer 900 ∷ []) 100 (idle 100) busy (inl refl)
      (tt, (omega arith, tt))

-- Two sessions connect, three channels are opened, one ends, and a session is lost.
abbrev history : List Action
history =
    supervisor 0 (connected 0)
    ∷ supervisor 1 (connected 10)
    ∷ asks
    ∷ takes
    ∷ asks
    ∷ takes
    ∷ asks
    ∷ takes
    ∷ returns 1
    ∷ kills 1
    ∷ supervisor 1 (closed 500)
    ∷ []

run-start-IsInStep_example :
    IsInStep (run history (start 2 Stats.default (codes "Listening on 127.0.0.1:1080")))
run-start-IsInStep_example =
    run-start-IsInStep 2 Stats.default (codes "Listening on 127.0.0.1:1080") history

run-start-counted_example :
    let s = run history (start 2 Stats.default (codes "Listening on 127.0.0.1:1080")) in
    load s.pool 0 ≡ count 0 s.leases % 2 ^ 64
run-start-counted_example =
    run-start-counted 2 Stats.default (codes "Listening on 127.0.0.1:1080") history 0

read_request-encode_example :
    read_request tagged (record {
      input = encode_request 0 (name (codes "a.org")) 1 187 ++ 22 ∷ 3 ∷ [];
      output = [];
      broken = none;
    })
    ≡ (
      record { input = 22 ∷ 3 ∷ []; output = []; broken = none },
      ok (record { host = codes "a.org"; port = 443 }),
    )
unfolding from_utf8
read_request-encode_example =
    read_request-encode tagged (22 ∷ 3 ∷ []) [] none 0 1 187 (name (codes "a.org")) (codes "a.org")
      refl

-- A `BIND` request.
abbrev bind_request : Stream
bind_request = record { input = 5 ∷ 2 ∷ 0 ∷ 1 ∷ []; output = 5 ∷ 0 ∷ []; broken = none }

read_request-refusal_example :
    let r = read_request tagged bind_request in
    (r.0.output ≡ (5 ∷ 0 ∷ []) ++ refusal 5 2 1) × (is_refused 5 2 1 ≡ true → is_err r.1 ≡ true)
read_request-refusal_example = read_request-refusal tagged 5 2 0 1 [] (5 ∷ 0 ∷ [])

pump-begin-IsFair_example : IsFair Stats.default (
    pump
      (reads (1 ∷ 2 ∷ []) ∷ data_message (3 ∷ []) ∷ taken none ∷ reads [] ∷ taken none ∷ [])
      (begin Stats.default))
pump-begin-IsFair_example =
    pump-begin-IsFair Stats.default
      (reads (1 ∷ 2 ∷ []) ∷ data_message (3 ∷ []) ∷ taken none ∷ reads [] ∷ taken none ∷ [])

-- The tunnel ends without an error.
abbrev quiet_tunnel : Tunnelled
quiet_tunnel = record { meanwhile = λ p. p; error = none }

abbrev whole_session : Stream
whole_session = record {
  input = 5 ∷ 1 ∷ 0 ∷ (encode_request 0 (name (codes "a.org")) 1 187);
  output = [];
  broken = none;
}

handle_client-SameLoad_example :
    load (handle_client tagged quiet_tunnel (λ r. second_time) whole_session busy).1 1 ≡ load busy 1
handle_client-SameLoad_example =
    handle_client-SameLoad quiet_tunnel (λ p j. refl) busy busy-HasRoom (λ r. second_time)
      (λ r. IsQuiet-second_time) tagged whole_session 1
