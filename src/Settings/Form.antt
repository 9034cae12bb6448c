-- ===== src/Settings/Form.antt =====
-- src/settings/mod.rs: the connection form, its checks, and what saving it changes.
pub mod Saving
pub mod RoundTrip
pub mod Again
use proxybear.Base.{
  ℕ, Bool, true, false, not, ◌&&◌, ◌||◌, Option, none, some, List, [], ◌∷◌, ◌++◌, Text, codes,
  text_eq, is_empty, within, ◌==◌, if◌then◌else◌, Result, ok, err, bail, context, or_bail, is_ok,
  error_of, head_text, ◌>>=◌, ◌>>◌,
}
use mathlib.Core.Option
use proxybear.Base.Trim.{trim}
use proxybear.Base.Decimal.{to_decimal, parse_uint, u16_max, usize_max}
use proxybear.Net.{IpAddr, SocketAddr, IpText, is_loopback}
use proxybear.Config.{AuthMethod, key, password, LogLevel, AppConfig, max_pool_size, requires_key}

pub data SettingsTab : Type 0 where
  general connection logs : SettingsTab

pub record SettingsForm : Type 0 where
  pub server : Text
  pub username : Text
  pub port : Text
  pub pool_size : Text
  pub auth_method : AuthMethod
  pub key_path : Text
  pub key_password : Text
  pub ssh_password : Text
  pub local_ip : Text
  pub local_port : Text

unfoldable pub parse_port : SettingsForm → Result ℕ
parse_port f = context (codes "invalid SSH port " ++ trim f.port) (parse_uint u16_max (trim f.port))

-- `.ok().filter(…)`.
unfoldable pub in_pool_range : Result ℕ → Option ℕ
in_pool_range (ok n) = if within 1 max_pool_size n then some n else none
in_pool_range (err e) = none

unfoldable pub parse_pool_size : SettingsForm → Result ℕ
unfolding in_pool_range
parse_pool_size f =
    or_bail (codes "SSH session count must be between 1 and 16, got " ++ trim f.pool_size)
      (in_pool_range (parse_uint usize_max (trim f.pool_size)))

unfoldable pub connection_error : SettingsForm → Option Text
connection_error f =
    if is_empty (trim f.server)
    then some (codes "Enter the SSH server hostname.")
    else if is_empty (trim f.username)
    then some (codes "Enter your SSH username.")
    else if requires_key f.auth_method && is_empty (trim f.key_path)
    then some (codes "Choose an SSH private key file.")
    else none

-- The first part of `apply_to_config`, up to the number of sessions: the saved host key belongs to
-- the previous server.
unfoldable pub with_server : SettingsForm → ℕ → AppConfig → AppConfig
with_server f port c = record c {
  host_fingerprint =
      if not (text_eq (trim f.server) c.server) || not (port == c.port)
      then none
      else c.host_fingerprint;
  server = trim f.server;
  username = trim f.username;
  port = port;
}

-- The next part, up to the local address.
unfoldable pub with_login : SettingsForm → ℕ → AppConfig → AppConfig
with_login f pool_size c = record c {
  pool_size = pool_size;
  auth_method = f.auth_method;
  key_path = trim f.key_path;
  key_password = f.key_password;
  ssh_password = f.ssh_password;
}

module _ (ips : IpText) where
  unfoldable pub from_config : AppConfig → SettingsForm
  from_config c = record {
    server = c.server;
    username = c.username;
    port = to_decimal c.port;
    pool_size = to_decimal c.pool_size;
    auth_method = c.auth_method;
    key_path = c.key_path;
    key_password = c.key_password;
    ssh_password = c.ssh_password;
    local_ip = ips.print c.local_addr.ip;
    local_port = to_decimal c.local_addr.port;
  }

  unfoldable pub parse_local_addr : SettingsForm → Result SocketAddr
  parse_local_addr f = do
    ip ←
        context (codes "invalid SOCKS bind IP address " ++ trim f.local_ip)
          (ips.parse (trim f.local_ip))
    port ←
        context (codes "invalid SOCKS port " ++ trim f.local_port)
          (parse_uint u16_max (trim f.local_port))
    ok (record { ip = ip; port = port })

  -- The configuration as it is left, also where a later field is refused.
  unfoldable pub apply_to_config : SettingsForm → AppConfig → AppConfig × Result (Unit {0})
  apply_to_config f c = elim (parse_port f) [
    | err e ↦ (c, err e)
    | ok port ↦ elim (parse_pool_size f) [
      | err e ↦ (with_server f port c, err e)
      | ok n ↦ elim (parse_local_addr f) [
        | err e ↦ (with_login f n (with_server f port c), err e)
        | ok addr ↦ (record (with_login f n (with_server f port c)) { local_addr = addr }, ok tt)
      ]
    ]
  ]

  unfoldable pub save_error : SettingsForm → Option Text
  save_error f =
      Option.map head_text
        (error_of (parse_port f >>= λ _. parse_pool_size f >>= λ _. parse_local_addr f))

  -- Whether the bind address lets other devices use the proxy.
  unfoldable pub exposes_proxy : SettingsForm → Bool
  exposes_proxy f = elim (ips.parse (trim f.local_ip)) [
    | ok ip ↦ not (is_loopback ip)
    | err e ↦ false
  ]
