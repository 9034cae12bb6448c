-- ===== src/App/Bear/Core.antt =====
-- What src/main.rs does to the controller of src/app/proxy_control.rs and to its tasks, as calls of it.
use proxybear.Base.{List, ◌≡◌, refl, ◌∙◌, Option, Text}
use proxybear.Config.{RuntimeConfig}
use proxybear.Stats.{ProxyStats}
use proxybear.App.Controller.{ProxyController, start, stop}
use proxybear.App.Controller.Tasks
use proxybear.App.Controller.Tasks.{Call, starts, stops, ends, spawned}
use proxybear.App.Bear.{ProxyBear, Outside, refresh_stats, start_proxy, stop_proxy, note_error}
use proxybear.App.Bear.Background.{Same-refresh}

-- The proxy's controller and its tasks, apart from the shared figures.
abbrev pub Core : Type 0
Core = ProxyController × List RuntimeConfig

-- One call of the controller, or the end of a task.
unfoldable pub called : Option Text → ProxyStats → Call → Core → Core
unfolding Tasks.step
called home stats c (p, ts) =
    let s = Tasks.step home (record { controller = p; stats = stats; tasks = ts }) c in
    (s.controller, s.tasks)

-- What such calls can lead to, whatever the figures are at each.
pub data Reaches : Core → Core → Type 0 where
  here : (x : Core) → Reaches x x
  calls :
      (home : Option Text) (stats : ProxyStats) (c : Call) (x y : Core)
      → Reaches (called home stats c x) y
      → Reaches x y

pub Reaches-trans : (x y z : Core) → Reaches x y → Reaches y z → Reaches x z
Reaches-trans x y z (here w) k = k
Reaches-trans x y z (calls home stats c v w h) k = calls home stats c x z (Reaches-trans _ w z h k)

abbrev pub core : ProxyBear → Core
core a = (a.proxy, a.tasks)

-- The form stays, and the controller is only called.
pub record Keeps (a b : ProxyBear) : Type 0 where
  pub form : b.form ≡ a.form
  pub reaches : Reaches (core a) (core b)

-- Nothing else matters.
pub apart_from :
    {a b c : ProxyBear}
    → c.form ≡ b.form
    → c.proxy ≡ b.proxy
    → c.tasks ≡ b.tasks
    → Keeps a b
    → Keeps a c
apart_from e f g h = record { form = e ∙ h.form; reaches = rw (f, g) h.reaches }

pub later : {a b c : ProxyBear} → Keeps a b → Keeps b c → Keeps a c
later h k = record { form = k.form ∙ h.form; reaches = Reaches-trans _ _ _ h.reaches k.reaches }

pub refresh_stats-Keeps : (o : Outside) (a : ProxyBear) → Keeps a (refresh_stats o a)
unfolding refresh_stats
refresh_stats-Keeps o a =
    let same = Same-refresh 1 o a in
    record { form = same.form; reaches = rw (same.proxy, same.tasks) (here (core a)) }

pub start_proxy-Keeps : (o : Outside) (a : ProxyBear) → Keeps a (start_proxy o a)
unfolding start_proxy
start_proxy-Keeps o a =
    let r = start o.home a.config a.proxy a.stats in
    let b : ProxyBear = record a {
      proxy = r.0;
      stats = note_error r.2 r.1;
      tasks = spawned r.2 a.tasks;
    } in
    let moved : Reaches (core a) (core b) =
      calls o.home a.stats (starts a.config) (core a) (core b) (unfold called in here (core b)) in
    later {b = b} (record { form = refl; reaches = moved }) (refresh_stats-Keeps o b)

pub stop_proxy-Keeps : (o : Outside) (a : ProxyBear) → Keeps a (stop_proxy o a)
unfolding stop_proxy
stop_proxy-Keeps o a =
    let r = stop o.receiver_gone a.proxy a.stats in
    let b : ProxyBear = record a { proxy = r.0; stats = r.1 } in
    let moved : Reaches (core a) (core b) =
      calls o.home a.stats (stops o.receiver_gone) (core a) (core b)
        (unfold called in here (core b)) in
    later {b = b} (record { form = refl; reaches = moved }) (refresh_stats-Keeps o b)
