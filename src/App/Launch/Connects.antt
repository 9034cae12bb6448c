-- ===== src/App/Launch/Connects.antt =====
-- Whether the application of src/main.rs connects as it starts.
use proxybear.Base.{
  List, if◌then◌else◌, List, ◌≡◌, ◌∙◌, sym, ap, Bool, true, false, [], ◌∷◌, Option, Text, Result,
  ok, err, Result-cases, inl, inr,
}
use proxybear.Net.{IpText}
use proxybear.Config.{AppConfig, RuntimeConfig, runtime_config}
use proxybear.Stats.{ProxyStats}
use proxybear.App.Controller
use proxybear.App.Controller.{is_running, start}
use proxybear.App.Bear.{ProxyBear, Outside, refresh_stats, start_proxy}
use proxybear.App.Controller.Tasks.{spawned}
use proxybear.App.Bear.Background.{Same-refresh}
use proxybear.App.Launch.{made, listen, Boot, main, running}
use proxybear.App.Launch.Sound.{main-made, listen-KeepsSettings}
use proxybear.Config.Keychain.{Answers}
use proxybear.Config.Store.{Toml, Disk, Store}

-- The task that is there at first, if the settings are ready for one.
abbrev pub first_tasks : Result RuntimeConfig → List RuntimeConfig
first_tasks (ok runtime) = runtime ∷ []
first_tasks (err e) = []

start-spawned :
    (home : Option Text) (c : AppConfig) (stats : ProxyStats)
    → spawned (start home c Controller.new stats).2 [] ≡ first_tasks (runtime_config home c)
unfolding start Controller.new is_running
start-spawned home c stats = elim (Result-cases (runtime_config home c)) [
  | inl (r, e) ↦ rw (e, start)
  | inr (x, e) ↦ rw (e, start)
]

start_proxy-tasks :
    (o : Outside) (a : ProxyBear) (c : AppConfig)
    → a.proxy ≡ Controller.new
    → a.tasks ≡ []
    → a.config ≡ c
    → (start_proxy o a).tasks ≡ first_tasks (runtime_config o.home c)
unfolding start_proxy refresh_stats
start_proxy-tasks o a c p t e =
    (Same-refresh 1 o _).tasks ∙ (rw (p, t, e) (start-spawned o.home c a.stats))

branch-tasks :
    (b : Bool) (x y : ProxyBear) {us vs : List RuntimeConfig}
    → x.tasks ≡ us
    → y.tasks ≡ vs
    → (if b then x else y).tasks ≡ (if b then us else vs)
branch-tasks true x y p q = p
branch-tasks false x y p q = q

listened-tasks :
    (o : Outside) (ips : IpText) (c : AppConfig) (stats : ProxyStats)
    → (listen o (made ips c stats)).tasks
      ≡ (if c.auto_connect then first_tasks (runtime_config o.home c) else [])
unfolding listen made refresh_stats
listened-tasks o ips c stats =
    let a = made ips c stats in
    let b = refresh_stats o a in
    let s = Same-refresh 1 o a in
    ap (λ d. (if d.auto_connect then start_proxy o b else b).tasks) s.config
    ∙ branch-tasks c.auto_connect (start_proxy o b) b
        (start_proxy-tasks o b c s.proxy s.tasks s.config) s.tasks

-- If the application starts, then a proxy task runs from the start exactly if the settings say that it
-- connects on its own and a run may start with them; it is one task, and it has these settings.
pub main-tasks :
    (t : Toml) (d : Disk) (k : Answers) (b : Boot) (o : Outside) (s : Store) (a : ProxyBear)
    → (main t d k b o s).1 ≡ running a
    → a.tasks ≡ (if a.config.auto_connect then first_tasks (runtime_config o.home a.config) else [])
unfolding made
main-tasks t d k b o s a h =
    let (c, stats, e) = main-made t d k b o s a h in
    let kept : a.config ≡ c =
      ap (λ x. x.config) e ∙ (listen-KeepsSettings o (made b.ips c stats)).0 in
    ap (λ x. x.tasks) e
    ∙ (listened-tasks o b.ips c stats
        ∙ ap (λ d. if d.auto_connect then first_tasks (runtime_config o.home d) else []) (sym kept))
