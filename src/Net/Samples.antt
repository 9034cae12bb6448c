-- ===== src/Net/Samples.antt =====
-- A way to write addresses that meets the laws of `IpText`: a tag, then each octet as one character.
use proxybear.Base.{
  false, ℕ, ◌+◌, ◌-◌, ◌≡◌, refl, List, [], ◌∷◌, Text, codes, Result, ok, bail, arith, map,
  if◌then◌else◌, ◌==◌,
}
use proxybear.Base.Trim.{is_whitespace, IsSolid}
use proxybear.Net.{IpAddr, v4, v6, IpText}

abbrev shift : ℕ → ℕ
shift b = b + 0x4000

abbrev unshift : ℕ → ℕ
unshift c = c - 0x4000

unfoldable pub print : IpAddr → Text
print (v4 a b c d) = 0x4000 ∷ shift a ∷ shift b ∷ shift c ∷ shift d ∷ []
print (v6 octets) = 0x4001 ∷ map shift octets

parse_v4 : Text → Result IpAddr
parse_v4 (a ∷ b ∷ c ∷ d ∷ []) = ok (v4 (unshift a) (unshift b) (unshift c) (unshift d))
parse_v4 _ = bail (codes "invalid IP address syntax")

unfoldable pub parse : Text → Result IpAddr
unfolding parse_v4
parse [] = bail (codes "invalid IP address syntax")
parse (tag ∷ s) = if tag == 0x4000 then parse_v4 s else ok (v6 (map unshift s))

unshift-shift : (b : ℕ) → unshift (shift b) ≡ b
unshift-shift b = omega arith

map-unshift : (bs : List ℕ) → map unshift (map shift bs) ≡ bs
map-unshift [] = refl
map-unshift (b ∷ bs) = cc (unshift-shift b, map-unshift bs)

pub parse-print : (ip : IpAddr) → parse (print ip) ≡ ok ip
unfolding parse print
parse-print (v4 a b c d) = cc (unshift-shift a, unshift-shift b, unshift-shift c, unshift-shift d)
parse-print (v6 octets) = rw (map-unshift octets)

solid_shift : (b : ℕ) → is_whitespace (shift b) ≡ false
unfolding is_whitespace
solid_shift b = ground arith

map-IsSolid : (bs : List ℕ) → IsSolid (map shift bs)
map-IsSolid [] = tt
map-IsSolid (b ∷ bs) = (solid_shift b, map-IsSolid bs)

pub print-IsSolid : (ip : IpAddr) → IsSolid (print ip)
unfolding print is_whitespace
print-IsSolid (v4 a b c d) =
    (refl, (solid_shift a, (solid_shift b, (solid_shift c, (solid_shift d, tt)))))
print-IsSolid (v6 octets) = (refl, map-IsSolid octets)

abbrev pub tagged : IpText
tagged = record {
  print = print;
  parse = parse;
  parse-print = parse-print;
  print-IsSolid = print-IsSolid;
}
