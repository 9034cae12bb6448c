-- ===== src/Net.antt =====
-- IP addresses, as src/config/mod.rs and src/proxy/socks.rs take them from `std::net`.
pub mod Samples
use proxybear.Base.{ℕ, ◌≡◌, Bool, false, ◌&&◌, List, [], ◌∷◌, Text, ◌==◌, Result, ok}
use proxybear.Base.Trim.{IsSolid}

-- `std::net::IpAddr`, by its octets: four of them, or a list of sixteen.
pub data IpAddr : Type 0 where
  v4 : ℕ → ℕ → ℕ → ℕ → IpAddr
  v6 : List ℕ → IpAddr

-- `::1`.
abbrev pub is_v6_loopback : List ℕ → Bool
is_v6_loopback [] = false
is_v6_loopback (b ∷ []) = b == 1
is_v6_loopback (b ∷ c ∷ bs) = b == 0 && is_v6_loopback (c ∷ bs)

-- 127.0.0.0/8 and `::1`.
unfoldable pub is_loopback : IpAddr → Bool
is_loopback (v4 a b c d) = a == 127
is_loopback (v6 octets) = is_v6_loopback octets

pub record SocketAddr : Type 0 where
  pub ip : IpAddr
  pub port : ℕ

-- How an address is written: `to_string` and `parse` of `std::net`, which are inverse to each other,
-- and whose texts have no whitespace in them.
pub record IpText : Type 0 where
  pub print : IpAddr → Text
  pub parse : Text → Result IpAddr
  pub parse-print : (ip : IpAddr) → parse (print ip) ≡ ok ip
  pub print-IsSolid : (ip : IpAddr) → IsSolid (print ip)
