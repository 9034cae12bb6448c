-- ===== src/Proxy/Client.antt =====
-- src/proxy/mod.rs: `handle_client`, from the handshake to the end of the tunnel. Setting the socket
-- option is left out; the other tasks' work during the tunnel is an argument, as is how it ends.
pub mod Balance
use proxybear.Base.{
  ℕ, Bool, true, false, Option, none, some, List, [], ◌∷◌, Error, Result, ok, err, if◌then◌else◌,
}
use proxybear.Net.{IpText}
use proxybear.Proxy.Pool.{Pool, kill, drop_lease}
use proxybear.Proxy.Pool.Channel.{Round, OpenedChannel, open_channel}
use proxybear.Proxy.Socks.{
  Stream, Request, negotiate_no_auth, read_request, write_reply, reply_succeeded,
  reply_general_failure,
}
use proxybear.Proxy.Tunnel.{TunnelError, ssh_session_failed, error_text}

-- The stream, the pool and the result.
abbrev pub Handled : Type 0
Handled = Stream × Pool × Result (Unit {0})

-- How the tunnel ends, and what the other tasks have done to the pool by then.
pub record Tunnelled : Type 0 where
  pub meanwhile : Pool → Pool
  pub error : Option TunnelError

-- After the tunnel: an SSH error ends the session; the lease is dropped in any case.
unfoldable pub after_tunnel : Tunnelled → ℕ → Stream → Pool → Handled
after_tunnel t lease s p = elim t.error [
  | none ↦ (s, drop_lease (t.meanwhile p) lease, ok tt)
  | some e ↦
      if ssh_session_failed e
      then (s, drop_lease (kill (t.meanwhile p) lease) lease, ok tt)
      else (s, drop_lease (t.meanwhile p) lease, err (error_text e ∷ []))
]

-- After the channel was opened.
abbrev pub with_channel : Tunnelled → ℕ → Pool → Stream × Result (Unit {0}) → Handled
with_channel t lease p (s, err e) = (s, drop_lease p lease, err e)
with_channel t lease p (s, ok u) = after_tunnel t lease s p

unfoldable pub serve : Tunnelled → Stream → Pool × Result OpenedChannel → Handled
serve t s (p, err e) = ((write_reply reply_general_failure s).0, p, err e)
serve t s (p, ok o) = with_channel t o.lease p (write_reply reply_succeeded s)

abbrev pub requested : Tunnelled → (Request → ℕ → Round) → Pool → Stream × Result Request → Handled
requested t rounds p (s, err e) = (s, p, err e)
requested t rounds p (s, ok r) = serve t s (open_channel (rounds r) p)

abbrev pub negotiated :
    IpText → Tunnelled → (Request → ℕ → Round) → Pool → Stream × Result (Unit {0}) → Handled
negotiated ips t rounds p (s, err e) = (s, p, err e)
negotiated ips t rounds p (s, ok u) = requested t rounds p (read_request ips s)

unfoldable pub handle_client : IpText → Tunnelled → (Request → ℕ → Round) → Stream → Pool → Handled
handle_client ips t rounds s p = negotiated ips t rounds p (negotiate_no_auth s)
