-- ===== src/Proxy/Ssh/Trusted.antt =====
-- Which servers src/proxy/ssh.rs connects to, and how the user learns of the others.
use proxybear.Base.{
  some, Text, true, false, ◌≢◌, ◌++◌, codes, refl, arith, option_text_eq, option_text_eq_iff,
  Bool-cases, ◌≡◌, inl, inr, ok, err, Result-cases,
}
use proxybear.Base.Decimal.{to_decimal}
use proxybear.Config.{SshConnectConfig, AuthMethod, key, password}
use proxybear.Stats.{ProxyStats, set_host_key_prompt}
use proxybear.Stats.Notify.{option_prompt_eq_iff}
use proxybear.Proxy.Ssh.{
  Dial, unreachable, reached, authenticate, check_server_key, connect_to, connect_inner, connect,
  Race, in_time, late, Remote, authenticate_password, authenticate_public_key, passphrase,
}

-- The server took the credentials of the chosen method.
abbrev pub Accepted : Remote → SshConnectConfig → AuthMethod → Type 0
Accepted r ssh password = r.password_auth ssh.username ssh.ssh_password ≡ ok true
Accepted r ssh key =
    (pair : _) × (hash : _) × (r.load_key ssh.key_path (passphrase ssh.key_password) ≡ ok pair)
    × (r.key_auth ssh.username pair hash ≡ ok true)

authenticate_password-Accepted :
    (r : Remote) (ssh : SshConnectConfig)
    → authenticate_password r ssh ≡ ok tt
    → Accepted r ssh password
unfolding authenticate_password
authenticate_password-Accepted r ssh h = ground arith

authenticate_public_key-Accepted :
    (r : Remote) (ssh : SshConnectConfig)
    → authenticate_public_key r ssh ≡ ok tt
    → Accepted r ssh key
unfolding authenticate_public_key
authenticate_public_key-Accepted r ssh h =
    elim (Result-cases (r.load_key ssh.key_path (passphrase ssh.key_password))) [
      | inl (pair, e) ↦ elim (Result-cases r.rsa_hash) [
        | inl (hash, f) ↦ (pair, hash, e, ground (arith, e, f))
        | inr (x, f) ↦ absurd (ground (arith, e, f))
      ]
      | inr (x, e) ↦ absurd (ground (arith, e))
    ]

authenticate-Accepted :
    (r : Remote) (ssh : SshConnectConfig) (m : AuthMethod)
    → authenticate r ssh m ≡ ok tt
    → Accepted r ssh m
unfolding authenticate
authenticate-Accepted r ssh key h = authenticate_public_key-Accepted r ssh h
authenticate-Accepted r ssh password h = authenticate_password-Accepted r ssh h

-- What a connection rests on.
abbrev pub Trusted : Dial → Remote → SshConnectConfig → Type 0
Trusted (unreachable e) r ssh = ⊥
Trusted (reached fingerprint after) r ssh =
    (ssh.host_fingerprint ≡ some fingerprint) × (after ≡ ok tt) × Accepted r ssh ssh.auth_method

connect_to-Trusted :
    (d : Dial) (r : Remote) (ssh : SshConnectConfig) (stats : ProxyStats)
    → (connect_to d r ssh stats).1 ≡ ok tt
    → Trusted d r ssh
unfolding connect_to check_server_key
connect_to-Trusted (unreachable e) r ssh stats h = cc
connect_to-Trusted (reached fingerprint (ok tt)) r ssh stats h =
    elim (Bool-cases (option_text_eq ssh.host_fingerprint (some fingerprint))) [
      | inl e ↦ (
        (option_text_eq_iff ssh.host_fingerprint (some fingerprint)).0 e,
        refl,
        authenticate-Accepted r ssh ssh.auth_method (rw e at h),
      )
      | inr e ↦ absurd (ground (arith, e))
    ]
connect_to-Trusted (reached fingerprint (err x)) r ssh stats h = absurd (ground arith)

connect_inner-Trusted :
    (r : Remote) (ssh : SshConnectConfig) (stats : ProxyStats)
    → (connect_inner r ssh stats).1 ≡ ok tt
    → Trusted r.dial r ssh
unfolding connect_inner
connect_inner-Trusted r ssh stats h = connect_to-Trusted r.dial r ssh stats h

-- A session is connected only to a server whose key has the fingerprint that the settings trust, and
-- only after the server took the credentials of the chosen method.
pub connect-Trusted :
    (race : Race) (r : Remote) (ssh : SshConnectConfig) (stats : ProxyStats)
    → (connect race r ssh stats).1 ≡ ok tt
    → Trusted r.dial r ssh
unfolding connect
connect-Trusted in_time r ssh stats h = connect_inner-Trusted r ssh stats h
connect-Trusted (late seen) r ssh stats h = cc

-- A key is accepted exactly if it is the trusted one, and then nothing changes; for any other key the
-- user is shown the server with its port, the key that was seen, and the one that was trusted before.
check_server_key_lem :
    (ssh : SshConnectConfig) (fingerprint : Text) (stats : ProxyStats)
    → let x = check_server_key ssh fingerprint stats in
      (ssh.host_fingerprint ≡ some fingerprint → (x.0 ≡ stats) × (x.1 ≡ true))
      × (ssh.host_fingerprint ≢ some fingerprint
          → (x.1 ≡ false)
            × (x.0.host_key_prompt
                ≡ some (record {
                  server = ssh.server ++ codes ":" ++ to_decimal ssh.port;
                  fingerprint = fingerprint;
                  previous = ssh.host_fingerprint;
                })))
unfolding check_server_key set_host_key_prompt
check_server_key_lem ssh fingerprint stats = ground (
  arith,
  option_text_eq_iff ssh.host_fingerprint (some fingerprint),
  option_prompt_eq_iff stats.host_key_prompt (
      some (record {
        server = ssh.server ++ codes ":" ++ to_decimal ssh.port;
        fingerprint = fingerprint;
        previous = ssh.host_fingerprint;
      })),
)
