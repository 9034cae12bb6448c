-- ===== src/Proxy/Ssh.antt =====
-- src/proxy/ssh.rs: how a session is connected and authenticated. What the SSH library and the server
-- answer is the argument `Remote`; the session itself is left out.
pub mod Trusted
mod Tests
use proxybear.Base.{
  ℕ, Bool, true, false, not, Option, none, some, List, [], ◌∷◌, ◌++◌, Text, codes, option_text_eq,
  is_empty, if◌then◌else◌, Result, ok, err, context, guard, bail, ◌>>=◌, ◌>>◌, Error,
}
use proxybear.Base.Decimal.{to_decimal}
use proxybear.Config.{SshConnectConfig, AuthMethod, key, password}
use proxybear.Stats.{ProxyStats, HostKeyPrompt, set_host_key_prompt}

-- What `client::connect` comes to: it fails before a key is seen, or it asks the handler about the
-- key with this fingerprint and, once the key is accepted, ends with the result.
pub data Dial : Type 0 where
  unreachable : Error → Dial
  reached : Text → Result (Unit {0}) → Dial

-- The answers to the requests for authentication: whether they succeed, or an error.
pub record Remote : Type 0 where
  pub dial : Dial
  pub password_auth : Text → Text → Result Bool
  pub load_key : Text → Option Text → Result ℕ
  pub rsa_hash : Result (Option ℕ)
  pub key_auth : Text → ℕ → Option ℕ → Result Bool

-- `check_server_key`: an unknown or changed key is refused, and the user is asked.
unfoldable pub check_server_key : SshConnectConfig → Text → ProxyStats → ProxyStats × Bool
check_server_key ssh fingerprint stats =
    if option_text_eq ssh.host_fingerprint (some fingerprint) then (stats, true) else (
      set_host_key_prompt
          (some (record {
            server = ssh.server ++ codes ":" ++ to_decimal ssh.port;
            fingerprint = fingerprint;
            previous = ssh.host_fingerprint;
          }))
          stats,
      false,
    )

unfoldable pub authenticate_password : Remote → SshConnectConfig → Result (Unit {0})
authenticate_password r ssh = do
  success ←
      context (codes "SSH password authentication failed")
        (r.password_auth ssh.username ssh.ssh_password)
  guard success (codes "SSH password authentication was rejected")

-- An empty passphrase is none.
abbrev pub passphrase : Text → Option Text
passphrase t = if is_empty t then none else some t

unfoldable pub authenticate_public_key : Remote → SshConnectConfig → Result (Unit {0})
authenticate_public_key r ssh = do
  key_pair ←
      context (codes "failed to load SSH key")
        (r.load_key ssh.key_path (passphrase ssh.key_password))
  hash ← r.rsa_hash
  success ←
      context (codes "SSH public key authentication failed") (r.key_auth ssh.username key_pair hash)
  guard success (codes "SSH public key authentication was rejected")

unfoldable pub authenticate : Remote → SshConnectConfig → AuthMethod → Result (Unit {0})
authenticate r ssh key = authenticate_public_key r ssh
authenticate r ssh password = authenticate_password r ssh

unfoldable pub connect_to :
    Dial → Remote → SshConnectConfig → ProxyStats → ProxyStats × Result (Unit {0})
connect_to (unreachable e) r ssh stats =
    (stats, err ((codes "failed to connect SSH server " ++ ssh.server) ∷ e))
connect_to (reached fingerprint after) r ssh stats =
    let (stats', accepted) = check_server_key ssh fingerprint stats in
    (
      stats',
      if accepted
          then context (codes "failed to connect SSH server " ++ ssh.server) after
            >> authenticate r ssh ssh.auth_method
          else bail (
              codes "SSH host key for "
              ++ ssh.server
              ++ codes " is not trusted; verify it in Settings"),
    )

unfoldable pub connect_inner :
    Remote → SshConnectConfig → ProxyStats → ProxyStats × Result (Unit {0})
connect_inner r ssh stats = connect_to r.dial r ssh stats

-- Whether the timeout is first, and then the key that the server has shown by that time, if any.
pub data Race : Type 0 where
  in_time : Race
  late : Option Text → Race

unfoldable pub seen_key : Option Text → SshConnectConfig → ProxyStats → ProxyStats
seen_key none ssh stats = stats
seen_key (some fingerprint) ssh stats = (check_server_key ssh fingerprint stats).0

unfoldable pub connect :
    Race → Remote → SshConnectConfig → ProxyStats → ProxyStats × Result (Unit {0})
unfolding connect_inner seen_key
connect in_time r ssh stats = connect_inner r ssh stats
connect (late seen) r ssh stats = (
  seen_key seen ssh stats,
  err (
      (codes "timed out connecting to SSH server " ++ (ssh.server ++ codes " after 20s"))
      ∷ codes "deadline has elapsed"
      ∷ []),
)
