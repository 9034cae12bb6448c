-- ===== src/Settings/Form/RoundTrip.antt =====
-- The form of src/settings/mod.rs shows a configuration, and reads it back.
use proxybear.Base.{text_eq_iff, ◌≤◌, ◌≡◌, ok, arith}
use proxybear.Base.Trim.{trim, trim_solid}
use proxybear.Base.Decimal.{trim-to_decimal, parse_uint-to_decimal, u16_max, usize_max}
use proxybear.Net.{IpText}
use proxybear.Config.{AppConfig, max_pool_size}
use proxybear.Settings.Form.{
  parse_port, parse_pool_size, with_server, with_login, parse_local_addr, from_config,
  apply_to_config,
}

-- A configuration as `apply_to_config` leaves it: trimmed, its numbers in range.
pub record IsCanonical (c : AppConfig) : Type 0 where
  pub server : trim c.server ≡ c.server
  pub username : trim c.username ≡ c.username
  pub key_path : trim c.key_path ≡ c.key_path
  pub port : c.port ≤ u16_max
  pub lower : 1 ≤ c.pool_size
  pub upper : c.pool_size ≤ max_pool_size
  pub local_port : c.local_addr.port ≤ u16_max

module _ (ips : IpText) (c : AppConfig) where
  parse_port-from_config : c.port ≤ u16_max → parse_port (from_config ips c) ≡ ok c.port
  unfolding parse_port from_config
  parse_port-from_config h =
      rw (trim-to_decimal c.port) (rw (parse_uint-to_decimal u16_max c.port h))

  parse_pool_size-from_config :
      1 ≤ c.pool_size
      → c.pool_size ≤ max_pool_size
      → parse_pool_size (from_config ips c) ≡ ok c.pool_size
  unfolding parse_pool_size from_config
  parse_pool_size-from_config h k =
      rw (trim-to_decimal c.pool_size)
        (rw (parse_uint-to_decimal usize_max c.pool_size (omega arith)) (ground arith))

  parse_local_addr-from_config :
      c.local_addr.port ≤ u16_max → parse_local_addr ips (from_config ips c) ≡ ok c.local_addr
  unfolding parse_local_addr from_config
  parse_local_addr-from_config h =
      rw (trim_solid (ips.print c.local_addr.ip) (ips.print-IsSolid c.local_addr.ip)) (
        rw (ips.parse-print c.local_addr.ip) (
          rw (trim-to_decimal c.local_addr.port)
            (rw (parse_uint-to_decimal u16_max c.local_addr.port h))))

  -- Showing a configuration as `apply_to_config` leaves it, and saving the form unchanged, gives the
  -- same configuration.
  pub apply-from_config : IsCanonical c → apply_to_config ips (from_config ips c) c ≡ (c, ok tt)
  unfolding apply_to_config with_server with_login from_config
  apply-from_config h = ground (
    arith,
    parse_port-from_config h.port,
    parse_pool_size-from_config h.lower h.upper,
    parse_local_addr-from_config h.local_port,
    text_eq_iff (trim c.server) c.server,
  )
