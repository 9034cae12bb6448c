-- ===== src/Proxy/Client/Balance.antt =====
-- A client of src/proxy/mod.rs leaves the loads of the pool as they were.
use proxybear.Base.{ℕ, refl, inl, inr, Bool-cases, Option-cases, Result, ok, err}
use proxybear.Net.{IpText}
use proxybear.Proxy.Pool.{Pool, kill}
use proxybear.Proxy.Pool.Sessions.{load-kill}
use proxybear.Proxy.Pool.Channel.{Round, OpenedChannel, open_channel}
use proxybear.Proxy.Pool.Leases.{
  OneMore, SameLoad, HasRoom, IsQuiet, Leased, open_channel-Leased, drop_lease-SameLoad,
  OneMore-trans,
}
use proxybear.Proxy.Socks.{Stream, Request, read_request, negotiate_no_auth}
use proxybear.Proxy.Tunnel.{ssh_session_failed}
use proxybear.Proxy.Client.{
  Handled, Tunnelled, after_tunnel, with_channel, serve, requested, negotiated, handle_client,
}

abbrev Balanced : Pool → Handled → Type 0
Balanced p r = SameLoad p r.1

module _ (t : Tunnelled) (quiet : (p : Pool) → SameLoad p (t.meanwhile p)) (p : Pool)
    (room : HasRoom p) where
  after_tunnel-Balanced :
      (s : Stream) (q : Pool) (id : ℕ) → OneMore p q id → Balanced p (after_tunnel t id s q)
  unfolding after_tunnel
  after_tunnel-Balanced s q id h =
      let m = t.meanwhile q in
      let k = OneMore-trans p q m id h (quiet q) in
      elim (Option-cases t.error) [
        | inl e ↦ rw (e, after_tunnel) (drop_lease-SameLoad p m id room k)
        | inr (x, e) ↦ elim (Bool-cases (ssh_session_failed x)) [
          | inl f ↦
              rw (e, after_tunnel)
                (rw (f, after_tunnel)
                  (drop_lease-SameLoad p (kill m id) id room
                    (OneMore-trans p m (kill m id) id k (λ j. load-kill m id j))))
          | inr f ↦ rw (e, after_tunnel) (rw (f, after_tunnel) (drop_lease-SameLoad p m id room k))
        ]
      ]

  with_channel-Balanced :
      (q : Pool) (id : ℕ) (x : Stream × Result (Unit {0}))
      → OneMore p q id
      → Balanced p (with_channel t id q x)
  with_channel-Balanced q id (s, err e) h = drop_lease-SameLoad p q id room h
  with_channel-Balanced q id (s, ok u) h = after_tunnel-Balanced s q id h

  serve-Balanced :
      (s : Stream) (x : Pool × Result OpenedChannel) → Leased p x.0 x.1 → Balanced p (serve t s x)
  unfolding serve
  serve-Balanced s (q, err e) h = h
  serve-Balanced s (q, ok o) h = with_channel-Balanced q o.lease _ h

  module _ (rounds : Request → ℕ → Round)
      (calm : (r : Request) (i : ℕ) → IsQuiet (rounds r i).wait) where
    requested-Balanced : (x : Stream × Result Request) → Balanced p (requested t rounds p x)
    requested-Balanced (s, err e) = λ j. refl
    requested-Balanced (s, ok r) =
        serve-Balanced s (open_channel (rounds r) p)
          (open_channel-Leased (rounds r) p (calm r) room)

    negotiated-Balanced :
        (ips : IpText) (x : Stream × Result (Unit {0})) → Balanced p (negotiated ips t rounds p x)
    negotiated-Balanced ips (s, err e) = λ j. refl
    negotiated-Balanced ips (s, ok u) = requested-Balanced (read_request ips s)

    -- If the other tasks leave the loads alone while this one waits, and no load is at the end of its
    -- range, then a client leaves every load as it was, however its connection ends.
    pub handle_client-SameLoad :
        (ips : IpText) (s : Stream) → SameLoad p (handle_client ips t rounds s p).1
    unfolding handle_client
    handle_client-SameLoad ips s = negotiated-Balanced ips (negotiate_no_auth s)
