-- ===== src/Settings/Form/Again.antt =====
-- What the form of src/settings/mod.rs has saved, shown and saved once more.
use proxybear.Base.{◌≡◌, Result-cases, inl, inr, ok, arith}
use proxybear.Base.Trim.{trim, trim_idem}
use proxybear.Base.Decimal.{u16_max, parse_uint, parse_uint-le}
use proxybear.Net.{IpText}
use proxybear.Config.{AppConfig}
use proxybear.Settings.Form.{
  SettingsForm, parse_port, parse_pool_size, with_server, with_login, parse_local_addr, from_config,
  apply_to_config,
}
use proxybear.Settings.Form.Saving.{parse_pool_size-range}
use proxybear.Settings.Form.RoundTrip.{IsCanonical, apply-from_config}

-- A configuration that was saved has no space around its texts, and its numbers are in range.
apply-IsCanonical :
    (ips : IpText) (f : SettingsForm) (c : AppConfig)
    → (apply_to_config ips f c).1 ≡ ok tt
    → IsCanonical (apply_to_config ips f c).0
unfolding apply_to_config parse_port parse_local_addr with_server with_login
apply-IsCanonical ips f c h = elim (Result-cases (parse_uint u16_max (trim f.port))) [
  | inr (x, e) ↦ absurd (ground (arith, e))
  | inl (n, e) ↦ elim (Result-cases (parse_uint u16_max (trim f.local_port))) [
    | inr (x, g) ↦ absurd (ground (arith, e, g))
    | inl (m, g) ↦ elim (Result-cases (parse_pool_size f)) [
      | inr (x, q) ↦ absurd (ground (arith, e, g, q))
      | inl (k, q) ↦ ground (
        arith,
        e,
        g,
        q,
        parse_uint-le u16_max (trim f.port) n e,
        parse_uint-le u16_max (trim f.local_port) m g,
        parse_pool_size-range f k q,
        trim_idem f.server,
        trim_idem f.username,
        trim_idem f.key_path,
      )
    ]
  ]
]

-- Whatever is typed into the form: where it can be saved, the form that shows what was saved can be
-- saved too, and this changes nothing any more, not even the trusted key.
pub apply-again :
    (ips : IpText) (f : SettingsForm) (c : AppConfig)
    → (apply_to_config ips f c).1 ≡ ok tt
    → let saved = (apply_to_config ips f c).0 in
      apply_to_config ips (from_config ips saved) saved ≡ (saved, ok tt)
apply-again ips f c h =
    apply-from_config ips (apply_to_config ips f c).0 (apply-IsCanonical ips f c h)
