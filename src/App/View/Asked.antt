-- ===== src/App/View/Asked.antt =====
-- What the pages of src/settings/view/general.rs and src/settings/view/connection.rs tell the user
-- before something is decided: the key that is asked about, and who can reach the proxy.
use proxybear.Base.{
  inl, inr, subst, sym, ◌∙◌, ap, Bool-cases, not, none, some, ◌≡◌, ◌↔◌, ok, arith, text_eq_iff,
}
use proxybear.Config.{AppConfig}
use proxybear.Net.{IpText, is_loopback}
use proxybear.Settings.Form.{SettingsForm, apply_to_config, exposes_proxy, parse_local_addr}
use proxybear.App.Bear.{save_settings}
use proxybear.App.Bear.Saves.{save_settings_cases}
use proxybear.App.View.Pages.{connection_page}
use proxybear.App.Bear.Saves.{start_proxy-KeepsSettings, stop_proxy-KeepsSettings}
use proxybear.App.Bear.{stop_proxy}
use proxybear.App.Controller.{is_running}
use proxybear.App.View.Status.{host_key_prompt}
use proxybear.Stats.{snapshot, HostKeyPrompt}
use proxybear.App.Bear.{save_config_state, ProxyBear, Outside}
use proxybear.App.Bear.Handlers.{handle_field, field, trust, trust_prompt, trusted, server_text}
use proxybear.App.View.General.{general_page}

trusted-config : (o : Outside) (a : ProxyBear) → (trusted o (a, ok tt)).config ≡ a.config
trusted-config o a = elim (Bool-cases (is_running a.proxy)) [
  | inl e ↦
      rw (e, trusted)
        ((start_proxy-KeepsSettings o (stop_proxy o a)).0 ∙ (stop_proxy-KeepsSettings o a).0)
  | inr e ↦ rw (e, trusted)
]

trust_prompt-fingerprint :
    (o : Outside) (q : HostKeyPrompt) (a : ProxyBear)
    → q.server ≡ server_text a.config
    → o.write_config (record a.config { host_fingerprint = some q.fingerprint }) ≡ ok tt
    → (trust_prompt o (some q) a).config.host_fingerprint ≡ some q.fingerprint
unfolding trust_prompt save_config_state
trust_prompt-fingerprint o q a h w =
    rw ((text_eq_iff q.server (server_text a.config)).1 h, trust_prompt)
      (rw (w, save_config_state) (ap (λ c. c.host_fingerprint) (trusted-config o _)))

-- While the page shows a card and the shared figures hold a prompt for the configured server and port,
-- and the settings with its key can be written: the button of the card makes the key of the card the
-- trusted one exactly if the prompt in the figures is about the same key. A card that the figures have
-- outrun is not looked at again.
pub trust-shown :
    (o : Outside) (a : ProxyBear) (p q : HostKeyPrompt)
    → a.stats_snapshot.host_key_prompt ≡ some p
    → a.stats.host_key_prompt ≡ some q
    → q.server ≡ server_text a.config
    → o.write_config (record a.config { host_fingerprint = some q.fingerprint }) ≡ ok tt
    → let card = host_key_prompt p (is_running a.proxy) in
      ((general_page o a).prompt ≡ some card)
      × (((handle_field o card.trust a).config.host_fingerprint ≡ some card.fingerprint)
          ↔ (q.fingerprint ≡ p.fingerprint))
unfolding general_page host_key_prompt handle_field field trust snapshot
trust-shown o a p q shown live h w =
    let b : ProxyBear = record a { feedback = none } in
    let e : (trust o b).config.host_fingerprint ≡ some q.fingerprint =
      subst (λ x. (trust_prompt o x b).config.host_fingerprint ≡ some q.fingerprint) (sym live)
        (trust_prompt-fingerprint o q b h w) in
    (rw shown, ((λ f. cc (e, f)), λ f. e ∙ ap some f))

apply-exposed :
    (ips : IpText) (f : SettingsForm) (c : AppConfig)
    → (apply_to_config ips f c).1 ≡ ok tt
    → not (is_loopback (apply_to_config ips f c).0.local_addr.ip) ≡ exposes_proxy ips f
unfolding apply_to_config parse_local_addr exposes_proxy
apply-exposed ips f c h = ground arith

-- Where the settings are saved, the first page warns that other devices can reach the proxy exactly if
-- the connection page has warned of it while they were edited.
pub exposed-saved :
    (o : Outside) (a : ProxyBear)
    → (save_settings o a).1 ≡ ok tt
    → (general_page o (save_settings o a).0).exposed ≡ (connection_page o a).exposed
unfolding general_page connection_page
exposed-saved o a =
    save_settings_cases
      (λ r. r.1 ≡ ok tt → not (is_loopback r.0.config.local_addr.ip) ≡ exposes_proxy o.ips a.form) o
      a (λ e w h. apply-exposed o.ips a.form a.config e) (λ e h. cc)
