-- ===== src/Proxy/Socks/Replies.antt =====
-- What src/proxy/socks.rs answers while it reads a request.
use proxybear.Base.{
  ◌&&◌, ◌||◌, List, ℕ, ◌≡◌, refl, ◌∙◌, sym, inl, inr, Bool, true, false, Bool-cases, Option, none,
  some, [], ◌∷◌, ◌++◌, append-nil, Text, arith, Result, ok, err, ◌==◌, if◌then◌else◌, not,
}
use proxybear.Net.{IpText}
use proxybear.Proxy.Socks.{
  checked_request, read_target, read_command, Stream, M, after, read_exact, write_all, write_reply,
  read_u8, read_u16, read_domain, utf8_host, read_host, read_request, byte_at, reply,
}

-- Nothing is written.
abbrev Silent : {A : Type 0} → Stream → Stream × Result A → Type 0
Silent s x = x.0.output ≡ s.output

after-Silent :
    {A B : Type 0} (s : Stream) (r : Stream × Result A) (f : A → M B)
    → Silent s r
    → ((a : A) (t : Stream) → Silent t (f a t))
    → Silent s (after r f)
after-Silent s (t, ok a) f h k = k a t ∙ h
after-Silent s (t, err e) f h k = h

read_exact-Silent : (n : ℕ) (s : Stream) → Silent s (read_exact n s)
unfolding read_exact
read_exact-Silent n s = ground arith

read_u8-Silent : (s : Stream) → Silent s (read_u8 s)
unfolding read_u8
read_u8-Silent s = after-Silent s (read_exact 1 s) _ (read_exact-Silent 1 s) λ b t. refl

read_u16-Silent : (s : Stream) → Silent s (read_u16 s)
unfolding read_u16
read_u16-Silent s = after-Silent s (read_exact 2 s) _ (read_exact-Silent 2 s) λ b t. refl

utf8_host-Silent : (o : Option Text) (s : Stream) → Silent s (utf8_host o s)
utf8_host-Silent none s = refl
utf8_host-Silent (some t) s = refl

read_domain-Silent : (s : Stream) → Silent s (read_domain s)
unfolding read_domain
read_domain-Silent s = after-Silent s (read_u8 s) _ (read_u8-Silent s) λ len t.
    after-Silent t (read_exact len t) _ (read_exact-Silent len t) λ bytes u. utf8_host-Silent _ u

-- The address types that a request may have: IPv4, a name, IPv6.
abbrev pub is_address_type : ℕ → Bool
is_address_type atyp = (atyp == 1) || ((atyp == 3) || (atyp == 4))

-- The reply to a request that is refused for its header: 7 to a command other than CONNECT, 8 to an
-- unknown type of address; a request of another version is given none.
abbrev pub refusal : ℕ → ℕ → ℕ → List ℕ
refusal version command atyp =
    if version == 5
    then if command == 1 then if is_address_type atyp then [] else reply 8 else reply 7
    else []

abbrev pub is_err : {A : Type 0} → Result A → Bool
is_err (ok a) = false
is_err (err e) = true

-- Whether a request is refused for its header.
abbrev pub is_refused : ℕ → ℕ → ℕ → Bool
is_refused version command atyp = not ((version == 5) && ((command == 1) && is_address_type atyp))

module _ (ips : IpText) where
  read_host-Silent :
      (atyp : ℕ) (s : Stream) → is_address_type atyp ≡ true → Silent s (read_host ips atyp s)
  unfolding read_host
  read_host-Silent atyp s h = elim (Bool-cases (atyp == 1)) [
    | inl e ↦
        rw (e, read_host) (after-Silent s (read_exact 4 s) _ (read_exact-Silent 4 s) λ b t. refl)
    | inr e ↦ elim (Bool-cases (atyp == 3)) [
      | inl f ↦ rw (e, f, read_host) (read_domain-Silent s)
      | inr f ↦
          let g : (atyp == 4) ≡ true = ground (arith, e, f, h) in
          rw (e, f, g, read_host)
            (after-Silent s (read_exact 16 s) _ (read_exact-Silent 16 s) λ b t. refl)
    ]
  ]

  read_target-Silent :
      (header : List ℕ) (s : Stream)
      → is_address_type (byte_at header 3) ≡ true
      → Silent s (read_target ips header s)
  unfolding read_target
  read_target-Silent header s h =
      after-Silent s (read_host ips (byte_at header 3) s) _
        (read_host-Silent (byte_at header 3) s h)
        λ host t. after-Silent t (read_u16 t) _ (read_u16-Silent t) λ port u. refl

  -- An unknown address type.
  read_target-refused :
      (header : List ℕ) (s : Stream)
      → is_address_type (byte_at header 3) ≡ false
      → s.broken ≡ none
      → ((read_target ips header s).0.output ≡ s.output ++ reply 8)
        × (is_err (read_target ips header s).1 ≡ true)
  unfolding read_target read_host write_reply write_all
  read_target-refused header s h w = ground (arith, h, w)

  checked_request-refusal :
      (version command reserved atyp : ℕ) (s : Stream)
      → s.broken ≡ none
      → let r = checked_request ips (version ∷ command ∷ reserved ∷ atyp ∷ []) s in
        (r.0.output ≡ s.output ++ refusal version command atyp)
        × (is_refused version command atyp ≡ true → is_err r.1 ≡ true)
  unfolding read_command write_reply write_all
  checked_request-refusal version command reserved atyp s w =
      let header = version ∷ command ∷ reserved ∷ atyp ∷ [] in
      elim (Bool-cases (version == 5)) [
        | inr e ↦ rw e (sym (append-nil s.output), λ _. refl)
        | inl e ↦ elim (Bool-cases (command == 1)) [
          | inr f ↦ rw (e, f, read_command) (ground (arith, w))
          | inl f ↦ elim (Bool-cases (is_address_type atyp)) [
            | inl g ↦
                rw (e, f, g, read_command)
                  (read_target-Silent header s g ∙ sym (append-nil s.output), λ x. cc)
            | inr g ↦
                let k = read_target-refused header s g w in
                rw (e, f, g, read_command) (k.0, λ x. k.1)
          ]
        ]
      ]

  read_header :
      (version command reserved atyp : ℕ) (rest output : List ℕ)
      → read_exact 4 (record {
        input = version ∷ command ∷ reserved ∷ atyp ∷ rest;
        output = output;
        broken = none;
      })
        ≡ (
          record { input = rest; output = output; broken = none },
          ok (version ∷ command ∷ reserved ∷ atyp ∷ []),
        )
  unfolding read_exact
  read_header version command reserved atyp rest output = ground arith

  -- If the client sends a header and it can be written to, then what is answered while the request is
  -- read is exactly the refusal for the header, and a request that is refused for its header fails:
  -- nothing is ever written for a request whose header is as it should be.
  pub read_request-refusal :
      (version command reserved atyp : ℕ) (rest output : List ℕ)
      → let s : Stream = record {
        input = version ∷ command ∷ reserved ∷ atyp ∷ rest;
        output = output;
        broken = none;
      } in
        ((read_request ips s).0.output ≡ output ++ refusal version command atyp)
        × (is_refused version command atyp ≡ true → is_err (read_request ips s).1 ≡ true)
  unfolding read_request
  read_request-refusal version command reserved atyp rest output =
      rw (read_header version command reserved atyp rest output, read_request)
        (checked_request-refusal version command reserved atyp _ refl)
