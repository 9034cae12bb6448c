-- ===== src/Config.antt =====
-- src/config/mod.rs: the saved settings and the settings that a run of the proxy starts with.
-- Text that comes from the operating system (the home directory, the user's name) is an argument.
pub mod Ready
pub mod Keychain
pub mod Store
pub mod Secrets
pub mod Restart
pub mod Migration
pub mod Untouched
pub mod Samples
pub mod Runs
pub mod Autostart
mod Tests
use proxybear.Base.{
  ℕ, Bool, true, false, not, ◌&&◌, Option, none, some, List, [], ◌∷◌, ◌++◌, Text, codes, is_empty,
  get_elem?, within, ◌==◌, if◌then◌else◌, Result, ok, err, bail, guard, ◌>>=◌, ◌>>◌,
}
use proxybear.Base.Trim.{trim}
use proxybear.Net.{IpAddr, v4, v6, SocketAddr}

abbrev pub default_pool_size : ℕ
default_pool_size = 3

abbrev pub max_pool_size : ℕ
max_pool_size = 16

pub data AuthMethod : Type 0 where
  key password : AuthMethod

unfoldable pub as_str : AuthMethod → Text
as_str key = codes "key"
as_str password = codes "password"

unfoldable pub requires_key : AuthMethod → Bool
requires_key key = true
requires_key password = false

pub data LogLevel : Type 0 where
  error warn info debug trace : LogLevel

pub record SshConnectConfig : Type 0 where
  pub server : Text
  pub username : Text
  pub port : ℕ
  pub auth_method : AuthMethod
  pub key_path : Text
  pub key_password : Text
  pub ssh_password : Text
  pub host_fingerprint : Option Text

-- `ListenConfig` has one field, `local_addr`.
pub record RuntimeConfig : Type 0 where
  pub local_addr : SocketAddr
  pub ssh : SshConnectConfig
  pub pool_size : ℕ

pub record AppConfig : Type 0 where
  pub server : Text
  pub username : Text
  pub port : ℕ
  pub pool_size : ℕ
  pub auth_method : AuthMethod
  pub key_path : Text
  pub key_password : Text
  pub ssh_password : Text
  pub local_addr : SocketAddr
  pub autostart : Bool
  pub auto_connect : Bool
  pub log_level : LogLevel
  pub host_fingerprint : Option Text

-- `AppConfig::default()`, where the environment gives the user's name.
unfoldable pub default : Text → AppConfig
default user = record {
  server = [];
  username = user;
  port = 22;
  pool_size = default_pool_size;
  auth_method = key;
  key_path = [];
  key_password = [];
  ssh_password = [];
  local_addr = record { ip = v4 127 0 0 1; port = 1080 };
  autostart = false;
  auto_connect = false;
  log_level = error;
  host_fingerprint = none;
}

-- What stands behind a leading `~`, if a shell would expand it.
unfoldable pub home_suffix : Text → Option Text
home_suffix [] = none
home_suffix (c ∷ []) = if c == b'~' then some [] else none
home_suffix (c ∷ d ∷ s) = if c == b'~' && d == b'/' then some (d ∷ s) else none

-- `home` is the home directory that `BaseDirs::new()` finds.
unfoldable pub expand_home : Option Text → Text → Text
unfolding home_suffix
expand_home none path = path
expand_home (some dir) path = elim (home_suffix path) [ none ↦ path | some rest ↦ dir ++ rest ]

-- The settings of a run, once the checks of `runtime_config` have passed.
unfoldable pub ready_config : Option Text → AppConfig → RuntimeConfig
ready_config home c = record {
  local_addr = c.local_addr;
  ssh = record {
    server = trim c.server;
    username = trim c.username;
    port = c.port;
    auth_method = c.auth_method;
    key_path = expand_home home (trim c.key_path);
    key_password = c.key_password;
    ssh_password = c.ssh_password;
    host_fingerprint = c.host_fingerprint;
  };
  pool_size = c.pool_size;
}

unfoldable pub runtime_config : Option Text → AppConfig → Result RuntimeConfig
unfolding requires_key
runtime_config home c = do
  guard (not (is_empty (trim c.server))) (codes "server is empty")
  guard (not (is_empty (trim c.username))) (codes "username is empty")
  guard (not (requires_key c.auth_method && is_empty (trim c.key_path))) (codes "key path is empty")
  guard (within 1 max_pool_size c.pool_size) (codes "SSH session count must be between 1 and 16")
  ok (ready_config home c)

unfoldable pub validate_ready : Option Text → AppConfig → Result (Unit {0})
validate_ready home c = runtime_config home c >>= λ _. ok tt
