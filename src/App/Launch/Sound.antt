-- ===== src/App/Launch/Sound.antt =====
-- What holds of the application of src/main.rs from its start on, whatever happens.
use proxybear.Base.{
  All, ◌⊎◌, ap, if◌then◌else◌, ◌≡◌, ◌∙◌, ◌↔◌, refl, sym, Bool, true, false, List, [], ◌∷◌, inl, inr,
  Result, ok, Result-cases, arith,
}
use proxybear.Net.{IpText}
use proxybear.Config.{AppConfig}
use proxybear.Config.Keychain.{Answers}
use proxybear.Config.Store.{Toml, Disk, Store, load_secrets}
use proxybear.Stats.{ProxyStats}
use proxybear.App.Controller
use proxybear.App.Controller.{is_running}
use proxybear.App.Icon.{happy}
use proxybear.App.Bear.{wants_stats, wants_log, ProxyBear, Outside, refresh_stats, start_proxy}
use proxybear.App.Bear.Background.{Draws, IsRefreshed, was_asked}
use proxybear.App.Bear.Core.{core, start_proxy-Keeps, refresh_stats-Keeps}
use proxybear.App.Bear.Events.{updates, Event, step, run}
use proxybear.App.Bear.Polling.{AllDraw, run-IsRefreshed, refreshed, start_proxy-IsRefreshed}
use proxybear.App.Bear.Refines.{IsValidCore, run-Reaches, Reaches-IsValid}
use proxybear.App.Bear.Saves.{KeepsSettings, refresh_stats-KeepsSettings, start_proxy-KeepsSettings}
use proxybear.App.Bear.Trust.{step-Writes}
use proxybear.App.View.General.{general_page}
use proxybear.App.View.Status.{connected, icon_state-Connected}
use proxybear.App.Launch.{running, main, Boot, made, made_with, settings, new, listen, first_stats}

-- A state of the application in which all is in order: at most one proxy task runs and the controller
-- knows of it, the background tasks fit what is seen, and the settings are those of the file.
pub record IsSound (a : ProxyBear) : Type 0 where
  pub tasks : IsValidCore (core a)
  pub stats_task : a.stats_task ≡ wants_stats a
  pub log_task : wants_log a ≡ true → a.log_task ≡ true
  pub log_only : a.log_task ≡ true → (wants_log a ≡ true) ⊎ (was_asked a ≡ true)
  pub settings : a.config ≡ a.stored

-- The picture of the icon can be made and set.
abbrev pub CanDraw : Outside × Event → Type 0
CanDraw (o, e) = (o.icon_made ≡ ok tt) × (o.icon_set ≡ ok tt)

icon-Connected :
    (o : Outside) (a : ProxyBear)
    → IsRefreshed ⊥ a
    → (a.icon ≡ happy) ↔ ((general_page o a).state ≡ connected)
unfolding general_page
icon-Connected o a h =
    let k = icon_state-Connected a.stats_snapshot (is_running a.proxy) in
    elim h.icon [ inl i ↦ ((λ e. k.0 (sym i ∙ e)), (λ e. i ∙ k.1 e)) | inr x ↦ absurd x ]

step-stored :
    (o : Outside) (e : Event) (a : ProxyBear)
    → a.config ≡ a.stored
    → (step o e a).config ≡ (step o e a).stored
step-stored o e a h = elim (step-Writes o e a) [ inl k ↦ k.0 ∙ (h ∙ sym k.1) | inr w ↦ w.0 ]

run-stored :
    (es : List (Outside × Event)) (a : ProxyBear)
    → a.config ≡ a.stored
    → (run es a).config ≡ (run es a).stored
unfolding run
run-stored [] a h = h
run-stored ((o, e) ∷ es) a h = run-stored es (step o e a) (step-stored o e a h)

-- The state of the first moment.
made-IsValid : (ips : IpText) (c : AppConfig) (s : ProxyStats) → IsValidCore (core (made ips c s))
unfolding made Controller.new
made-IsValid ips c s later = record {
  one_task = refl;
  running_alive = λ e. cc;
  pending_stopping = λ e. cc;
}

either {ℓ κ} :
    {A : Type ℓ} (P : A → Type κ) (b : Bool) (x y : A) → P x → P y → P (if b then x else y)
either P true x y p q = p
either P false x y p q = q

listen_cases {κ} :
    (P : ProxyBear → Type κ) (o : Outside) (a : ProxyBear)
    → P (start_proxy o (refresh_stats o a))
    → P (refresh_stats o a)
    → P (listen o a)
unfolding listen
listen_cases P o a p q = either P (refresh_stats o a).config.auto_connect _ _ p q

listen-IsValid :
    (o : Outside) (a : ProxyBear) → IsValidCore (core a) → IsValidCore (core (listen o a))
listen-IsValid o a h =
    let k = Reaches-IsValid _ _ (refresh_stats-Keeps o a).reaches h in
    listen_cases (λ b. IsValidCore (core b)) o a
      (Reaches-IsValid _ _ (start_proxy-Keeps o (refresh_stats o a)).reaches k) k

listen-IsRefreshed :
    (Fails : Type 0) (o : Outside) (a : ProxyBear) → Draws Fails o → IsRefreshed Fails (listen o a)
listen-IsRefreshed Fails o a w =
    listen_cases (IsRefreshed Fails) o a (start_proxy-IsRefreshed Fails o w _)
      (refreshed Fails o w a)

-- Nothing is said of the icon.
any_icon : (es : List (Outside × Event)) → AllDraw (Unit {0}) es
any_icon [] = tt
any_icon ((o, e) ∷ es) = (inr tt, any_icon es)

drawn_icon : (es : List (Outside × Event)) → All CanDraw es → AllDraw ⊥ es
drawn_icon [] w = tt
drawn_icon ((o, e) ∷ es) (w, ws) = (inl w, drawn_icon es ws)

listened-icon :
    (o : Outside) (e : Event) (es : List (Outside × Event)) (a : ProxyBear)
    → All CanDraw ((o, e) ∷ es)
    → let b = run es (listen o a) in (b.icon ≡ happy) ↔ ((general_page o b).state ≡ connected)
listened-icon o e es a (w, ws) =
    icon-Connected o _
      (run-IsRefreshed ⊥ es (listen o a) (drawn_icon es ws) (listen-IsRefreshed ⊥ o a (inl w)))

pub listen-KeepsSettings : (o : Outside) (a : ProxyBear) → KeepsSettings a (listen o a)
listen-KeepsSettings o a =
    let k = refresh_stats-KeepsSettings o a in
    let l = start_proxy-KeepsSettings o (refresh_stats o a) in
    listen_cases (KeepsSettings a) o a (l.0 ∙ k.0, l.1 ∙ k.1) k

listened-IsSound :
    (o : Outside) (es : List (Outside × Event)) (ips : IpText) (c : AppConfig) (stats : ProxyStats)
    → IsSound (run es (listen o (made ips c stats)))
listened-IsSound o es ips c stats =
    let a = made ips c stats in
    let b = listen o a in
    let r =
      run-IsRefreshed (Unit {0}) es b (any_icon es) (listen-IsRefreshed (Unit {0}) o a (inr tt)) in
    let k = listen-KeepsSettings o a in
    let same : a.config ≡ a.stored = unfold made in refl in
    record {
      tasks = (run-Reaches es b (listen-IsValid o a (made-IsValid ips c stats))).1;
      stats_task = r.stats_task;
      log_task = r.log_task;
      log_only = r.log_only;
      settings = run-stored es b (k.0 ∙ (same ∙ sym k.1));
    }

made_with-made :
    (b : Boot) (c : AppConfig) (s : Store) (r : Result (Unit {0})) (bear : ProxyBear)
    → (made_with b ((c, s), r)).1 ≡ ok bear
    → bear ≡ made b.ips c (first_stats r)
unfolding made_with
made_with-made b c s r bear h = elim (Result-cases b.runtime) [
  | inl (u, e) ↦ elim (Result-cases (b.tray c.auto_connect)) [
    | inl (v, f) ↦ ground (arith, e, f)
    | inr (y, f) ↦ absurd (ground (arith, e, f))
  ]
  | inr (x, e) ↦ absurd (ground (arith, e))
]

-- What `main` hands over has been made by `new` and has begun to listen.
pub main-made :
    (t : Toml) (d : Disk) (k : Answers) (b : Boot) (o : Outside) (s : Store) (a : ProxyBear)
    → (main t d k b o s).1 ≡ running a
    → (c : AppConfig) × (stats : ProxyStats) × (a ≡ listen o (made b.ips c stats))
unfolding main new
main-made t d k b o s a h = elim (Result-cases (settings t d b s)) [
  | inr (x, e) ↦ absurd (ground (arith, e))
  | inl (c, e) ↦
      let x = load_secrets t d k c s in
      elim (Result-cases (made_with b x).1) [
        | inr (y, f) ↦ absurd (ground (arith, e, f))
        | inl (bear, f) ↦
            let g : a ≡ listen o bear = ground (arith, e, f) in
            (x.0.0, first_stats x.1, g ∙ ap (listen o) (made_with-made b x.0.0 x.0.1 x.1 bear f))
      ]
]

-- If the application starts, then all is in order after any events, whatever the system answers: at
-- most one proxy task runs and the controller knows whether one does; the figures are read every few
-- seconds exactly while the proxy runs and the window or the menu is open; the log is followed while
-- the window shows its page, and otherwise at most while the window shows the page that asks about a
-- server's key; and the settings in memory are those that the file was last read as or written with.
pub main-IsSound :
    (t : Toml) (d : Disk) (k : Answers) (b : Boot) (o : Outside) (s : Store) (a : ProxyBear)
    (es : List (Outside × Event))
    → (main t d k b o s).1 ≡ running a
    → IsSound (run es a)
main-IsSound t d k b o s a es h =
    let (c, stats, e) = main-made t d k b o s a h in rw e (listened-IsSound o es b.ips c stats)

-- If the application starts and the system can set the icon, then and at each of the events that
-- follow, then after these events the icon in the menu bar is the happy one exactly if the window says
-- that the proxy is connected.
pub main-icon :
    (t : Toml) (d : Disk) (k : Answers) (b : Boot) (o : Outside) (s : Store) (a : ProxyBear)
    (es : List (Outside × Event))
    → (main t d k b o s).1 ≡ running a
    → (o.icon_made ≡ ok tt) × (o.icon_set ≡ ok tt)
    → All CanDraw es
    → ((run es a).icon ≡ happy) ↔ ((general_page o (run es a)).state ≡ connected)
main-icon t d k b o s a es h w ws =
    let (c, stats, e) = main-made t d k b o s a h in
    rw e (listened-icon o (updates []) es (made b.ips c stats) (w, ws))
