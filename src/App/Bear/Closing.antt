-- ===== src/App/Bear/Closing.antt =====
-- What becomes of unsaved changes when the settings window of src/main.rs is closed.
use proxybear.Base.{
  sym, ap, ℕ, zero, suc, ◌≡◌, refl, ◌∙◌, ◌⊎◌, inl, inr, true, ok, Result-cases, arith,
}
use proxybear.Settings.Form.{apply_to_config, from_config}
use proxybear.App.Bear.{ProxyBear, Outside, refresh_stats, save_settings, revert_form}
use proxybear.App.Bear.Background.{Same-refresh, Same}
use proxybear.App.Bear.Saves.{save_settings_cases}
use proxybear.App.Bear.Events.{resolve_close, answered}

-- The form is saved, or the user gave it up and it shows the settings again.
abbrev pub Settled : Outside → ℕ → ProxyBear → ProxyBear → Type 0
Settled o n a b =
    ((n ≡ 0)
      × ((apply_to_config o.ips a.form a.config).1 ≡ ok tt)
      × (b.config ≡ (apply_to_config o.ips a.form a.config).0)
      × (b.stored ≡ b.config))
    ⊎ ((n ≡ 1) × (b.config ≡ a.config) × (b.form ≡ from_config o.ips b.config))

save-Settled :
    (o : Outside) (a : ProxyBear)
    → (save_settings o a).1 ≡ ok tt
    → Settled o 0 a (save_settings o a).0
save-Settled o a =
    save_settings_cases (λ r. r.1 ≡ ok tt → Settled o 0 a r.0) o a
      (λ e w h. inl (refl, e, refl, refl)) λ e h. cc

answered-Settled :
    (o : Outside) (n : ℕ) (a : ProxyBear)
    → (answered o n a).1 ≡ true
    → Settled o n a (answered o n a).0
answered-Settled o zero a h = elim (Result-cases (save_settings o a).1) [
  | inl (u, e) ↦ rw (e, answered) (save-Settled o a e)
  | inr (x, e) ↦ absurd (ground (arith, e))
]
answered-Settled o (suc zero) a h = unfold revert_form in inr (refl, refl, refl)
answered-Settled o (suc (suc n)) a h = absurd (ground arith)

Settled-refresh :
    (o : Outside) (n : ℕ) (a b c : ProxyBear) → Same b c → Settled o n a b → Settled o n a c
Settled-refresh o n a b c s (inl (e, w, h, k)) =
    inl (e, w, s.config ∙ h, s.stored ∙ k ∙ sym s.config)
Settled-refresh o n a b c s (inr (e, h, k)) =
    inr (e, s.config ∙ h, s.form ∙ (k ∙ ap (from_config o.ips) (sym s.config)))

-- If the answer closes the window, then either it was to save, and the form could be read and its
-- settings were stored, or it was to discard, and the form shows the settings, which are as before.
pub resolve_close-Settled :
    (o : Outside) (n : ℕ) (a : ProxyBear)
    → (resolve_close o n a).1 ≡ true
    → Settled o n a (resolve_close o n a).0
unfolding resolve_close refresh_stats
resolve_close-Settled o n a h =
    Settled-refresh o n a (answered o n a).0 _ (Same-refresh 1 o (answered o n a).0)
      (answered-Settled o n a h)
