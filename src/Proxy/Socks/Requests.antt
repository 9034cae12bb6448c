-- ===== src/Proxy/Socks/Requests.antt =====
-- The requests that src/proxy/socks.rs understands, against the formats of RFC 1928.
use proxybear.Base.{
  ◌≢◌, ℕ, ◌+◌, ◌*◌, ◌≡◌, refl, sym, true, false, Option, none, some, List, [], ◌∷◌, ◌++◌, Text,
  length, leb, take-length-append, drop-length-append, length-append, any, ◌==◌, arith, ok,
  append_assoc,
}
use proxybear.Base.Utf8.{from_utf8}
use proxybear.Net.{v4, v6, IpText}
use proxybear.Proxy.Socks.{
  read_command, read_target, Stream, read_exact, write_all, read_u8, read_u16, read_domain,
  read_host, read_request, negotiate_no_auth,
}

read_exact_lem :
    (n : ℕ) (xs rest out : List ℕ) (broken : Option Text)
    → n ≡ length xs
    → read_exact n (record { input = xs ++ rest; output = out; broken = broken })
      ≡ (record { input = rest; output = out; broken = broken }, ok xs)
unfolding read_exact
read_exact_lem n xs rest out broken e =
    let fits : leb n (length (xs ++ rest)) ≡ true = ground (arith, length-append xs rest) in
    rw fits (rw e (rw (drop-length-append xs rest, take-length-append xs rest)))

-- What a client asks for.
pub data Target : Type 0 where
  ipv4 : ℕ → ℕ → ℕ → ℕ → Target
  name : List ℕ → Target
  ipv6 : List ℕ → Target

-- The address type and the address.
abbrev pub encode_target : Target → List ℕ
encode_target (ipv4 a b c d) = 1 ∷ a ∷ b ∷ c ∷ d ∷ []
encode_target (name bytes) = 3 ∷ length bytes ∷ bytes
encode_target (ipv6 bytes) = 4 ∷ bytes

abbrev pub encode_request : ℕ → Target → ℕ → ℕ → List ℕ
encode_request reserved t high low = 5 ∷ 1 ∷ reserved ∷ (encode_target t ++ high ∷ low ∷ [])

-- The host that a target stands for.
abbrev pub Denotes : IpText → Target → Text → Type 0
Denotes ips (ipv4 a b c d) host = host ≡ ips.print (v4 a b c d)
Denotes ips (name bytes) host = from_utf8 bytes ≡ some host
Denotes ips (ipv6 bytes) host = (length bytes ≡ 16) × (host ≡ ips.print (v6 bytes))

module _ (ips : IpText) (rest out : List ℕ) (broken : Option Text) where
  abbrev at : List ℕ → Stream
  at input = record { input = input; output = out; broken = broken }

  read_exact-at :
      (n : ℕ) (xs more : List ℕ) → n ≡ length xs → read_exact n (at (xs ++ more)) ≡ (at more, ok xs)
  read_exact-at n xs more e = read_exact_lem n xs more out broken e

  read_ipv4 :
      (a b c d : ℕ) (more : List ℕ)
      → read_host ips 1 (at (a ∷ b ∷ c ∷ d ∷ more)) ≡ (at more, ok (ips.print (v4 a b c d)))
  unfolding read_host
  read_ipv4 a b c d more = rw (read_exact-at 4 (a ∷ b ∷ c ∷ d ∷ []) more refl)

  read_ipv6 :
      (bytes more : List ℕ)
      → length bytes ≡ 16
      → read_host ips 4 (at (bytes ++ more)) ≡ (at more, ok (ips.print (v6 bytes)))
  unfolding read_host
  read_ipv6 bytes more h = rw (read_exact-at 16 bytes more (sym h))

  read_name :
      (bytes more : List ℕ) (host : Text)
      → from_utf8 bytes ≡ some host
      → read_host ips 3 (at (length bytes ∷ (bytes ++ more))) ≡ (at more, ok host)
  unfolding read_host read_domain read_u8
  read_name bytes more host h =
      rw (read_exact-at 1 (length bytes ∷ []) (bytes ++ more) refl)
        (rw (read_exact-at (length bytes) bytes more refl) (rw h))

  read_port :
      (high low : ℕ) (more : List ℕ)
      → read_u16 (at (high ∷ low ∷ more)) ≡ (at more, ok (high * 256 + low))
  unfolding read_u16
  read_port high low more = rw (read_exact-at 2 (high ∷ low ∷ []) more refl)

  -- The body of `read_request` behind a good header.
  read_tail :
      (reserved atyp high low : ℕ) (bytes more : List ℕ) (host : Text)
      → read_host ips atyp (at (bytes ++ high ∷ low ∷ more)) ≡ (at (high ∷ low ∷ more), ok host)
      → read_request ips (at (5 ∷ 1 ∷ reserved ∷ atyp ∷ (bytes ++ high ∷ low ∷ more)))
        ≡ (at more, ok (record { host = host; port = high * 256 + low }))
  unfolding read_request read_command read_target
  read_tail reserved atyp high low bytes more host h =
      rw (read_exact-at 4 (5 ∷ 1 ∷ reserved ∷ atyp ∷ []) (bytes ++ high ∷ low ∷ more) refl)
        (rw h (rw (read_port high low more)))

  -- Every well-formed request is understood, whatever follows it: the host and the port are those that
  -- the client means, exactly its bytes are used up, and nothing is answered yet.
  pub read_request-encode :
      (reserved high low : ℕ) (t : Target) (host : Text)
      → Denotes ips t host
      → read_request ips (at (encode_request reserved t high low ++ rest))
        ≡ (at rest, ok (record { host = host; port = high * 256 + low }))
  read_request-encode reserved high low (ipv4 a b c d) host h =
      read_tail reserved 1 high low (a ∷ b ∷ c ∷ d ∷ []) rest host
        (rw h (read_ipv4 a b c d (high ∷ low ∷ rest)))
  read_request-encode reserved high low (name bytes) host h =
      rw (append_assoc bytes (high ∷ low ∷ []) rest) (
        read_tail reserved 3 high low (length bytes ∷ bytes) rest host
          (read_name bytes (high ∷ low ∷ rest) host h))
  read_request-encode reserved high low (ipv6 bytes) host h =
      rw (append_assoc bytes (high ∷ low ∷ []) rest) (
        read_tail reserved 4 high low bytes rest host
          (rw h.1 (read_ipv6 bytes (high ∷ low ∷ rest) h.0)))

-- The greeting is answered by whether the client offers to go on without authentication: the offer
-- is accepted exactly if method 0 is among the methods, and no byte behind the greeting is used up.
pub negotiate_no_auth-greeting :
    (methods rest out : List ℕ)
    → let r =
        negotiate_no_auth (record {
          input = 5 ∷ length methods ∷ (methods ++ rest);
          output = out;
          broken = none;
        }) in
      (r.0.input ≡ rest)
      × (any (λ m. m == 0) methods ≡ true → (r.1 ≡ ok tt) × (r.0.output ≡ out ++ 5 ∷ 0 ∷ []))
      × (any (λ m. m == 0) methods ≡ false → (r.1 ≢ ok tt) × (r.0.output ≡ out ++ 5 ∷ 0xff ∷ []))
unfolding negotiate_no_auth write_all
negotiate_no_auth-greeting methods rest out =
    rw (read_exact_lem 2 (5 ∷ length methods ∷ []) (methods ++ rest) out none refl)
      (rw (read_exact_lem (length methods) methods rest out none refl) (ground arith))
