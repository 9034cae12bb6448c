-- ===== src/App/Bear/Saves.antt =====
-- How the routines of src/main.rs that write the settings can end, and what they leave alone.
use proxybear.Base.{◌≡◌, refl, ◌&&◌, Bool-cases, inl, inr, ok, err, Error, Result, Result-cases}
use proxybear.Config.{AppConfig}
use proxybear.Stats.{clear_error}
use proxybear.Settings.Form.{apply_to_config}
use proxybear.App.Bear.{
  false, open_settings, ProxyBear, Outside, save_config_state, save_settings, refresh_stats,
  start_proxy, stop_proxy,
}
use proxybear.App.Bear.Background.{Same-refresh}

-- The state once these settings are written.
abbrev pub written : AppConfig → ProxyBear → ProxyBear
written c a = record a { stored = c; config = c; stats = clear_error a.stats }

pub save_config_state_cases {ℓ} :
    (P : ProxyBear × Result (Unit {0}) → Type ℓ) (o : Outside) (c : AppConfig) (a : ProxyBear)
    → (o.write_config c ≡ ok tt → P (written c a, ok tt))
    → ((e : Error) → P (a, err e))
    → P (save_config_state o c a)
unfolding save_config_state
save_config_state_cases P o c a h k = elim (Result-cases (o.write_config c)) [
  | inl (u, e) ↦ rw (e, save_config_state) (h e)
  | inr (x, e) ↦ rw (e, save_config_state) (k _)
]

pub save_settings_cases {ℓ} :
    (P : ProxyBear × Result (Unit {0}) → Type ℓ) (o : Outside) (a : ProxyBear)
    → (let r = apply_to_config o.ips a.form a.config in
        r.1 ≡ ok tt → o.write_config r.0 ≡ ok tt → P (written r.0 a, ok tt))
    → ((e : Error) → P (a, err e))
    → P (save_settings o a)
unfolding save_settings
save_settings_cases P o a h k =
    let r = apply_to_config o.ips a.form a.config in
    elim (Result-cases r.1) [
      | inr (x, e) ↦ rw (e, save_settings) (k _)
      | inl (u, e) ↦ elim (Result-cases (o.write_secrets a.config r.0)) [
        | inr (x, f) ↦ rw (e, save_settings) (rw (f, save_settings) (k _))
        | inl (v, f) ↦
            rw (e, save_settings)
              (rw (f, save_settings) (save_config_state_cases P o r.0 a (h e) k))
      ]
    ]

-- The settings in memory and in the file are the same as before.
abbrev pub KeepsSettings : ProxyBear → ProxyBear → Type 0
KeepsSettings a b = (b.config ≡ a.config) × (b.stored ≡ a.stored)

pub refresh_stats-KeepsSettings :
    (o : Outside) (a : ProxyBear) → KeepsSettings a (refresh_stats o a)
unfolding refresh_stats
refresh_stats-KeepsSettings o a = let h = Same-refresh 1 o a in (h.config, h.stored)

pub start_proxy-KeepsSettings : (o : Outside) (a : ProxyBear) → KeepsSettings a (start_proxy o a)
unfolding start_proxy
start_proxy-KeepsSettings o a = refresh_stats-KeepsSettings o _

pub stop_proxy-KeepsSettings : (o : Outside) (a : ProxyBear) → KeepsSettings a (stop_proxy o a)
unfolding stop_proxy
stop_proxy-KeepsSettings o a = refresh_stats-KeepsSettings o _

pub open_settings-KeepsSettings :
    (o : Outside) (a : ProxyBear) → KeepsSettings a (open_settings o a)
unfolding open_settings
open_settings-KeepsSettings o a = elim (Bool-cases (a.settings_window && o.window_alive)) [
  | inl e ↦ rw (e, open_settings) (refl, refl)
  | inr e ↦
      rw (e, open_settings) (refresh_stats-KeepsSettings o (record a { settings_window = false }))
]
