-- ===== src/Proxy/Socks.antt =====
-- src/proxy/socks.rs: the server's side of a SOCKS5 handshake, over a stream of bytes.
pub mod Requests
pub mod Replies
use proxybear.Base.{
  ℕ, zero, suc, ◌+◌, ◌*◌, ◌≤◌, Bool, true, false, not, Option, none, some, List, [], ◌∷◌, ◌++◌,
  Text, codes, length, take, drop, any, leb, ◌==◌, if◌then◌else◌, Error, Result, ok, err,
}
use proxybear.Base.Decimal.{to_decimal}
use proxybear.Base.Utf8.{from_utf8}
use proxybear.Net.{IpAddr, v4, v6, IpText}

-- What the client will have sent when it stops, what it was sent, and the error of the next write.
pub record Stream : Type 0 where
  pub input : List ℕ
  pub output : List ℕ
  pub broken : Option Text

pub record Request : Type 0 where
  pub host : Text
  pub port : ℕ

abbrev pub M : Type 0 → Type 0
M A = Stream → Stream × Result A

abbrev pub after {ℓ κ} :
    {A : Type ℓ} {B : Type κ}
    → Stream × Result A
    → (A → Stream → Stream × Result B)
    → Stream × Result B
after (s, ok a) f = f a s
after (s, err e) f = (s, err e)

abbrev pub pure : {A : Type 0} → A → M A
pure a s = (s, ok a)

infixl 5 ◌>>=◌
-- `.await?`.
abbrev pub ◌>>=◌ : {A B : Type 0} → M A → (A → M B) → M B
◌>>=◌ reading next s = after (reading s) next

infixl 5 ◌>>◌
abbrev pub ◌>>◌ : {B : Type 0} → M (Unit {0}) → M B → M B
◌>>◌ writing next s = after (writing s) λ done. next

abbrev pub fail : {A : Type 0} → Text → M A
fail message s = (s, err (message ∷ []))

-- `read_exact`: a stream that ends too early is an error, and is used up.
unfoldable pub read_exact : ℕ → M (List ℕ)
read_exact n s =
    if leb n (length s.input)
    then (record s { input = drop n s.input }, ok (take n s.input))
    else (record s { input = [] }, err (codes "early eof" ∷ []))

unfoldable pub write_all : List ℕ → M (Unit {0})
write_all bytes s = elim s.broken [
  | none ↦ (record s { output = s.output ++ bytes }, ok tt)
  | some e ↦ (s, err (e ∷ []))
]

abbrev pub byte_at : List ℕ → ℕ → ℕ
byte_at [] i = 0
byte_at (b ∷ bs) zero = b
byte_at (b ∷ bs) (suc i) = byte_at bs i

-- Big-endian.
unfoldable pub read_u16 : M ℕ
read_u16 = do bytes ← read_exact 2; pure (byte_at bytes 0 * 256 + byte_at bytes 1)

unfoldable pub read_u8 : M ℕ
read_u8 = do bytes ← read_exact 1; pure (byte_at bytes 0)

abbrev pub reply_succeeded : ℕ
reply_succeeded = 0

abbrev pub reply_general_failure : ℕ
reply_general_failure = 1

abbrev pub reply : ℕ → List ℕ
reply code = 5 ∷ code ∷ 0 ∷ 1 ∷ 0 ∷ 0 ∷ 0 ∷ 0 ∷ 0 ∷ 0 ∷ []

abbrev in_reply : Stream × Result (Unit {0}) → Stream × Result (Unit {0})
in_reply (s, ok u) = (s, ok u)
in_reply (s, err e) = (s, err (codes "failed to write SOCKS reply" ∷ e))

unfoldable pub write_reply : ℕ → M (Unit {0})
unfolding write_all
write_reply code s = in_reply (write_all (reply code) s)

abbrev pub choose : {A : Type 0} → Bool → M A → M A → M A
choose true m k = m
choose false m k = k

unfoldable pub negotiate_no_auth : M (Unit {0})
negotiate_no_auth = do
  header ← read_exact 2
  choose (not (byte_at header 0 == 5))
      (fail (codes "unsupported SOCKS version " ++ to_decimal (byte_at header 0)))
      (do
        methods ← read_exact (byte_at header 1)
        choose (any (λ m. m == 0) methods) (write_all (5 ∷ 0 ∷ [])) (do
          write_all (5 ∷ 0xff ∷ [])
          fail (codes "SOCKS client did not offer no-auth method")))

-- `String::from_utf8(…).context(…)`; the inner message is left out.
abbrev pub utf8_host : Option Text → M Text
utf8_host none = fail (codes "SOCKS domain is not UTF-8")
utf8_host (some host) = pure host

unfoldable pub read_domain : M Text
read_domain = do len ← read_u8; bytes ← read_exact len; utf8_host (from_utf8 bytes)

module _ (ips : IpText) where
  v4_text : List ℕ → Text
  v4_text bytes =
      ips.print (v4 (byte_at bytes 0) (byte_at bytes 1) (byte_at bytes 2) (byte_at bytes 3))

  -- The host by the address type.
  unfoldable pub read_host : ℕ → M Text
  unfolding v4_text
  read_host atyp =
      choose (atyp == 1) (do bytes ← read_exact 4; pure (v4_text bytes))
        (choose (atyp == 3) read_domain (
          choose (atyp == 4) (do bytes ← read_exact 16; pure (ips.print (v6 bytes)))
            (do write_reply 8; fail (codes "unsupported SOCKS address type " ++ to_decimal atyp))))

  -- The end of `read_request`: the host and the port.
  unfoldable pub read_target : List ℕ → M Request
  read_target header = do
    host ← read_host (byte_at header 3)
    port ← read_u16
    pure (record { host = host; port = port })

  -- The middle of it: the command.
  unfoldable pub read_command : List ℕ → M Request
  read_command header =
      choose (not (byte_at header 1 == 1))
        (do
          write_reply 7
          fail (codes "unsupported SOCKS command " ++ to_decimal (byte_at header 1)))
        (read_target header)

  -- What follows the header.
  abbrev pub checked_request : List ℕ → M Request
  checked_request header =
      choose (not (byte_at header 0 == 5))
        (fail (codes "unsupported SOCKS request version " ++ to_decimal (byte_at header 0)))
        (read_command header)

  unfoldable pub read_request : M Request
  read_request = read_exact 4 >>= checked_request
