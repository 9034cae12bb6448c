-- ===== src/Proxy/Run/Tests.antt =====
-- A run of the proxy that is shut down while a client holds a channel.
use proxybear.Base.{◌≡◌, List, [], ◌∷◌, ◌++◌, codes, Result, ok}
use proxybear.Stats
use proxybear.Proxy.Supervise.{connected}
use proxybear.Proxy.System.{System, supervisor, asks, takes}
use proxybear.Proxy.Run.{
  Happening, works, accepts, accept_fails, shut_down, client_ends, run_proxy, stopped,
}
use proxybear.Proxy.Run.Stops.{IsStopped, run_proxy-stops}

abbrev busy : List Happening
busy =
    works (supervisor 0 (connected 5))
    ∷ accepts
    ∷ accept_fails (codes "too many open files")
    ∷ works asks
    ∷ works takes
    ∷ []

run_proxy-stops_example :
    (s : System) × (r : Result (Unit {0})) × (run_proxy
        (ok tt)
        (codes "127.0.0.1:1080")
        2
        Stats.default
        (busy ++ shut_down ∷ client_ends ∷ [])
      ≡ stopped s r)
    × IsStopped s
run_proxy-stops_example =
    run_proxy-stops (codes "127.0.0.1:1080") 2 Stats.default busy (client_ends ∷ [])
