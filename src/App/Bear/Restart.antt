-- ===== src/App/Bear/Restart.antt =====
-- Trusting a host key restarts a running proxy of src/main.rs with that key.
use proxybear.Base.{
  sym, subst, none, ap, text_eq, text_eq_iff, ◌≡◌, ◌∙◌, Bool, true, Option, some, ok, arith, Text,
}
use proxybear.Config.{AppConfig, ready_config}
use proxybear.Config.Ready.{IsReady, runtime_config-ok}
use proxybear.Stats.{HostKeyPrompt, ProxyStats, snapshot, set_host_key_prompt}
use proxybear.App.Controller.{ProxyController, is_running, finish, start, stop}
use proxybear.App.Bear.{
  ProxyBear, Outside, refresh_stats, start_proxy, stop_proxy, save_config_state,
}
use proxybear.App.Bear.Background.{Same-refresh}
use proxybear.App.Bear.Saves.{written}
use proxybear.App.Bear.Handlers.{restart, trust, trust_prompt, trusted, server_text}

-- Once the old task has ended, the start that waits spawns a run with these settings.
abbrev pub StartsNext : Outside → AppConfig → ProxyBear → Type 0
StartsNext o c b =
    (b.config ≡ c)
    × ((finish b.proxy).1 ≡ true)
    × ((stats : ProxyStats)
        → (start o.home b.config (finish b.proxy).0 stats).2 ≡ ok (some (ready_config o.home c)))

start-finish :
    (home : Option Text) (c : AppConfig) (p : ProxyController) (stats : ProxyStats)
    → IsReady c
    → (start home c (finish p).0 stats).2 ≡ ok (some (ready_config home c))
unfolding start finish is_running
start-finish home c p stats h = ground (arith, (runtime_config-ok home c).1 h)

start-stop_pending :
    (home : Option Text) (c : AppConfig) (gone : Bool) (p : ProxyController)
    (old stats : ProxyStats)
    → p.shutdown ≡ true
    → p.task_alive ≡ true
    → IsReady c
    → (finish (start home c (stop gone p old).0 stats).0).1 ≡ true
unfolding start stop finish is_running
start-stop_pending home c gone p old stats r a h = ground (arith, (runtime_config-ok home c).1 h)

restart-StartsNext :
    (o : Outside) (a : ProxyBear)
    → a.proxy.shutdown ≡ true
    → a.proxy.task_alive ≡ true
    → IsReady a.config
    → StartsNext o a.config (restart o a)
unfolding start_proxy stop_proxy refresh_stats
restart-StartsNext o a r t h =
    let x = stop o.receiver_gone a.proxy a.stats in
    let b = stop_proxy o a in
    let s = Same-refresh 1 o (record a { proxy = x.0; stats = x.1 }) in
    let y = start o.home b.config b.proxy b.stats in
    let config : (restart o a).config ≡ a.config = (Same-refresh 1 o _).config ∙ s.config in
    let proxy : (restart o a).proxy ≡ y.0 = (Same-refresh 1 o _).proxy in
    (
      config,
      ap (λ q. (finish q).1) proxy
          ∙ (ap (λ c. (finish (start o.home c b.proxy b.stats).0).1) s.config
              ∙ (ap (λ q. (finish (start o.home a.config q b.stats).0).1) s.proxy
                  ∙ start-stop_pending o.home a.config o.receiver_gone a.proxy a.stats b.stats r t
                      h)),
      λ stats. rw config (start-finish o.home a.config (restart o a).proxy stats h),
    )

is_running_shutdown : (p : ProxyController) → p.shutdown ≡ true → is_running p ≡ true
unfolding is_running
is_running_shutdown p r = r

trust_prompt-StartsNext :
    (o : Outside) (a : ProxyBear) (p : HostKeyPrompt)
    → let c : AppConfig = record a.config { host_fingerprint = some p.fingerprint } in
      p.server ≡ server_text a.config
      → o.write_config c ≡ ok tt
      → a.proxy.shutdown ≡ true
      → a.proxy.task_alive ≡ true
      → IsReady c
      → StartsNext o c (trust_prompt o (some p) a)
unfolding trust_prompt save_config_state
trust_prompt-StartsNext o a p e w r t h =
    let c : AppConfig = record a.config { host_fingerprint = some p.fingerprint } in
    let same : text_eq p.server (server_text a.config) ≡ true =
      (text_eq_iff p.server (server_text a.config)).1 e in
    rw (same, trust_prompt)
      (rw (w, save_config_state)
        (rw (is_running_shutdown a.proxy r, trusted)
          (restart-StartsNext o (written c (record a { stats = set_host_key_prompt none a.stats }))
            r t h)))

-- If the user trusts the key that a prompt shows for the configured server while the proxy runs, the
-- file can be written, and a run may start with the settings, then the proxy is restarted with that
-- key: the end of the old task asks for a start, which spawns a run with the settings that hold it.
pub trust-StartsNext :
    (o : Outside) (a : ProxyBear) (p : HostKeyPrompt)
    → let c : AppConfig = record a.config { host_fingerprint = some p.fingerprint } in
      a.stats.host_key_prompt ≡ some p
      → p.server ≡ server_text a.config
      → o.write_config c ≡ ok tt
      → a.proxy.shutdown ≡ true
      → a.proxy.task_alive ≡ true
      → IsReady c
      → StartsNext o c (trust o a)
unfolding trust snapshot
trust-StartsNext o a p shown e w r t h =
    subst
      (λ q.
        StartsNext o (record a.config { host_fingerprint = some p.fingerprint })
          (trust_prompt o q a))
      (sym shown) (trust_prompt-StartsNext o a p e w r t h)
