-- ===== src/Proxy/Ssh/Tests.antt =====
-- A connection to a server whose key is trusted, and one whose key is not.
use proxybear.Base.{refl, true, false, some, none, ok, [], codes}
use proxybear.Stats
use proxybear.Config.{SshConnectConfig}
use proxybear.Config
use proxybear.Proxy.Ssh.{
  Remote, reached, connect_inner, connect, in_time, check_server_key, authenticate,
  authenticate_password, connect_to,
}
use proxybear.Proxy.Ssh.Trusted.{Trusted, connect-Trusted}

abbrev settings : SshConnectConfig
settings = record {
  server = codes "example.org";
  username = codes "bear";
  port = 22;
  auth_method = Config.password;
  key_path = [];
  key_password = [];
  ssh_password = codes "honey";
  host_fingerprint = some (codes "SHA256:abc");
}

abbrev honest : Remote
honest = record {
  dial = reached (codes "SHA256:abc") (ok tt);
  password_auth = λ user password. ok true;
  load_key = λ path phrase. ok 0;
  rsa_hash = ok none;
  key_auth = λ user key hash. ok false;
}

connect-Trusted_example : Trusted honest.dial honest settings
unfolding connect connect_inner connect_to check_server_key authenticate authenticate_password
connect-Trusted_example = connect-Trusted in_time honest settings Stats.default refl
