-- ===== src/Config/Samples.antt =====
-- A file format that meets the laws of `Toml`: the fields one after the other, each text behind its
-- length.
use proxybear.Base.{
  ℕ, zero, suc, ◌≡◌, refl, ap, Bool, true, false, Option, none, some, [], ◌∷◌, ◌++◌, Text, length,
  take, drop, take-length-append, drop-length-append, Result, ok, err,
}
use proxybear.Net.{IpAddr, v4}
use proxybear.Net.Samples.{tagged}
use proxybear.Config.{
  AppConfig, AuthMethod, key, password, LogLevel, error, warn, info, debug, trace,
}
use proxybear.Config.Store.{Toml, without_secrets}

pub record Codec (A : Type 0) : Type 0 where
  pub print : A → Text → Text
  pub parse : Text → A × Text
  pub parse-print : (a : A) (rest : Text) → parse (print a rest) ≡ (a, rest)

first : Text → ℕ × Text
first [] = (0, [])
first (n ∷ s) = (n, s)

number : Codec ℕ
unfolding first
number = record { print = λ n rest. n ∷ rest; parse = first; parse-print = λ n rest. refl }

unfoldable pub text_of : Text → Text × Text
text_of [] = ([], [])
text_of (n ∷ s) = (take n s, drop n s)

pub text_of-print : (s rest : Text) → text_of (length s ∷ s ++ rest) ≡ (s, rest)
unfolding text_of
text_of-print s rest = rw (take-length-append s rest, drop-length-append s rest) refl

unfoldable pub text : Codec Text
text = record {
  print = λ s rest. length s ∷ s ++ rest;
  parse = text_of;
  parse-print = text_of-print;
}

both : {A B : Type 0} → Codec A → Codec B → Codec (A × B)
both x y = record {
  print = λ p rest. x.print p.0 (y.print p.1 rest);
  parse = λ s. let (a, r) = x.parse s in let (b, r') = y.parse r in ((a, b), r');
  parse-print =
      λ p rest. rw (x.parse-print p.0 (y.print p.1 rest)) (rw (y.parse-print p.1 rest) refl);
}

via :
    {A B : Type 0} (forth : A → B) (back : B → A)
    → ((a : A) → back (forth a) ≡ a)
    → Codec B
    → Codec A
via forth back e y = record {
  print = λ a rest. y.print (forth a) rest;
  parse = λ s. let (b, r) = y.parse s in (back b, r);
  parse-print = λ a rest. rw (y.parse-print (forth a) rest) (rw (e a) refl);
}

abbrev flag_code : Bool → ℕ
flag_code true = 1
flag_code false = 0

abbrev flag_of : ℕ → Bool
flag_of zero = false
flag_of (suc n) = true

flag_of-code : (b : Bool) → flag_of (flag_code b) ≡ b
flag_of-code true = refl
flag_of-code false = refl

abbrev method_code : AuthMethod → ℕ
method_code key = 0
method_code password = 1

abbrev method_of : ℕ → AuthMethod
method_of zero = key
method_of (suc n) = password

method_of-code : (a : AuthMethod) → method_of (method_code a) ≡ a
method_of-code key = refl
method_of-code password = refl

abbrev level_code : LogLevel → ℕ
level_code error = 0
level_code warn = 1
level_code info = 2
level_code debug = 3
level_code trace = 4

abbrev level_of : ℕ → LogLevel
level_of zero = error
level_of (suc zero) = warn
level_of (suc (suc zero)) = info
level_of (suc (suc (suc zero))) = debug
level_of (suc (suc (suc (suc n)))) = trace

level_of-code : (l : LogLevel) → level_of (level_code l) ≡ l
level_of-code error = refl
level_of-code warn = refl
level_of-code info = refl
level_of-code debug = refl
level_of-code trace = refl

abbrev ip_of_result : Result IpAddr → IpAddr
ip_of_result (ok ip) = ip
ip_of_result (err e) = v4 0 0 0 0

abbrev ip_of : Text → IpAddr
ip_of s = ip_of_result (tagged.parse s)

ip_of-code : (ip : IpAddr) → ip_of (tagged.print ip) ≡ ip
ip_of-code ip = ap ip_of_result (tagged.parse-print ip)

abbrev maybe_code : Option Text → ℕ × Text
maybe_code none = (0, [])
maybe_code (some s) = (1, s)

abbrev maybe_of : ℕ × Text → Option Text
maybe_of (zero, s) = none
maybe_of (suc n, s) = some s

maybe_of-code : (o : Option Text) → maybe_of (maybe_code o) ≡ o
maybe_of-code none = refl
maybe_of-code (some s) = refl

flag : Codec Bool
flag = via flag_code flag_of flag_of-code number

method : Codec AuthMethod
method = via method_code method_of method_of-code number

level : Codec LogLevel
level = via level_code level_of level_of-code number

ip : Codec IpAddr
ip = via tagged.print ip_of ip_of-code text

maybe : Codec (Option Text)
maybe = via maybe_code maybe_of maybe_of-code (both number text)

abbrev pub Fields : Type 0
Fields =
    ((Text × Text) × ((ℕ × ℕ) × (AuthMethod × Text)))
    × (((IpAddr × ℕ) × (Bool × Bool)) × (LogLevel × Option Text))

pub fields : Codec Fields
fields =
    both (both (both text text) (both (both number number) (both method text)))
      (both (both (both ip number) (both flag flag)) (both level maybe))

abbrev pub to_fields : AppConfig → Fields
to_fields c = (
  ((c.server, c.username), ((c.port, c.pool_size), (c.auth_method, c.key_path))),
  (
    ((c.local_addr.ip, c.local_addr.port), (c.autostart, c.auto_connect)),
    (c.log_level, c.host_fingerprint),
  ),
)

abbrev pub of_fields : Fields → AppConfig
of_fields
      (
        ((server, username), ((port, pool_size), (auth_method, key_path))),
        (((ip', port'), (autostart, auto_connect)), (log_level, host_fingerprint)),
      ) =
    record {
      server = server;
      username = username;
      port = port;
      pool_size = pool_size;
      auth_method = auth_method;
      key_path = key_path;
      key_password = [];
      ssh_password = [];
      local_addr = record { ip = ip'; port = port' };
      autostart = autostart;
      auto_connect = auto_connect;
      log_level = log_level;
      host_fingerprint = host_fingerprint;
    }

-- Older versions wrote the secrets behind the other fields.
abbrev pub parse_all : Text → AppConfig
parse_all s =
    let (f, rest) = fields.parse s in
    let (p, rest') = text.parse rest in
    record (of_fields f) { key_password = p; ssh_password = (text.parse rest').0 }

abbrev pub print_all : AppConfig → Text
print_all c = fields.print (to_fields c) (text.print c.key_password (text.print c.ssh_password []))

pub parse_all-print_all : (c : AppConfig) → parse_all (print_all c) ≡ c
parse_all-print_all c =
    rw (fields.parse-print (to_fields c) (text.print c.key_password (text.print c.ssh_password [])))
      (rw (text.parse-print c.key_password (text.print c.ssh_password []))
        (rw (text.parse-print c.ssh_password []) refl))

abbrev printed : Result Text → Text
printed (ok s) = s
printed (err e) = []

pub parse-print :
    (c : AppConfig) (s : Text)
    → ok (fields.print (to_fields c) []) ≡ ok s
    → ok (parse_all s) ≡ ok (without_secrets c)
unfolding text text_of
parse-print c s h =
    let e : fields.print (to_fields c) [] ≡ s = ap printed h in
    rw⁻¹ e (rw (fields.parse-print (to_fields c) []) refl)

abbrev pub listed : Toml
listed = record {
  print = λ c. ok (fields.print (to_fields c) []);
  parse = λ s. ok (parse_all s);
  parse-print = parse-print;
}
