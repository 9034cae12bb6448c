-- ===== src/App/Tray/Shows.antt =====
-- The menu of src/app/presentation.rs shows what the application's state is.
use proxybear.Base.{
  ap, not, if◌then◌else◌, ℕ, ◌≡◌, ◌≢◌, ◌⊎◌, inl, inr, refl, sym, ◌∙◌, Bool, true, false, Bool-cases,
  Option, none, some, List, [], ◌∷◌, ◌++◌, Text, text_eq, text_eq→eq, is_empty,
}
use proxybear.Net.{IpText}
use proxybear.Config.{AppConfig}
use proxybear.Stats.{StatsSnapshot}
use proxybear.App.Tray
use proxybear.App.Tray.{
  TrayMenu, MenuPresenter, new_menu, status_text, stats_summary, config_summary, start_stop_text,
  set_menu_text, set_mark, update_tray, CheckItem, autostart, auto_connect, toggle_mark,
}

-- The state that a menu is to show.
pub record View : Type 0 where
  pub config : AppConfig
  pub stats : StatsSnapshot
  pub running : Bool

-- The menu with every item set.
abbrev pub menu_of : IpText → View → TrayMenu
menu_of ips v = record {
  status = status_text v.stats.last_error v.stats.status;
  stats = stats_summary v.stats;
  config = config_summary ips v.config;
  start_stop = start_stop_text v.running;
  autostart = v.config.autostart;
  auto_connect = v.config.auto_connect;
}

-- What happens to the menu: it is updated for a state, or an item is clicked.
pub data MenuChange : Type 0 where
  updated : View → MenuChange
  clicked : CheckItem → MenuChange

unfoldable pub menu_step : IpText → MenuChange → MenuPresenter × TrayMenu → MenuPresenter × TrayMenu
menu_step ips (updated v) x = update_tray ips v.config v.stats v.running x
menu_step ips (clicked k) (p, t) = (p, toggle_mark k t)

unfoldable pub menu_steps :
    IpText → List MenuChange → MenuPresenter × TrayMenu → MenuPresenter × TrayMenu
menu_steps ips [] x = x
menu_steps ips (a ∷ rest) x = menu_steps ips rest (menu_step ips a x)

-- The state of the last update.
abbrev pub last_of : View → List MenuChange → View
last_of v [] = v
last_of v (updated w ∷ rest) = last_of w rest
last_of v (clicked k ∷ rest) = last_of v rest

-- The setting that an item is about.
abbrev pub setting : CheckItem → View → Bool
setting autostart v = v.config.autostart
setting auto_connect v = v.config.auto_connect

abbrev pub same_item : CheckItem → CheckItem → Bool
same_item autostart autostart = true
same_item auto_connect auto_connect = true
same_item autostart auto_connect = false
same_item auto_connect autostart = false

abbrev pub xor : Bool → Bool → Bool
xor true b = not b
xor false b = b

-- Whether the clicks on an item, since its setting was last seen to change, are odd in number; `odd`
-- says so of those before the list.
unfoldable pub odd_clicks : CheckItem → View → List MenuChange → Bool → Bool
odd_clicks k v [] odd = odd
odd_clicks k v (updated w ∷ rest) odd =
    odd_clicks k w rest (if xor (setting k v) (setting k w) then false else odd)
odd_clicks k v (clicked l ∷ rest) odd = odd_clicks k v rest (xor (same_item k l) odd)

-- What was set last is shown, or nothing was set yet.
abbrev Cached : Text → Text → Type 0
Cached item cached = (item ≡ cached) ⊎ (cached ≡ [])

set_menu_text-shown :
    (item cached next : Text)
    → Cached item cached
    → next ≢ []
    → set_menu_text item cached next ≡ (next, next)
unfolding set_menu_text
set_menu_text-shown item cached next h n = elim (Bool-cases (text_eq next cached)) [
  | inr e ↦ rw (e, set_menu_text) refl
  | inl e ↦
      let same = text_eq→eq next cached e in
      elim h [
        | inl g ↦ rw (e, set_menu_text) (rw (g, sym same) refl)
        | inr g ↦ absurd (n (same ∙ g))
      ]
]

-- What was set last is shown, or it is the mark that is wanted.
abbrev Marked : Bool → Bool → Bool → Type 0
Marked item cached next = (item ≡ cached) ⊎ (item ≡ next)

set_mark-shown :
    (item cached next : Bool) → Marked item cached next → set_mark item cached next ≡ (next, next)
unfolding set_mark
set_mark-shown item true true (inl h) = rw h refl
set_mark-shown item true true (inr h) = rw h refl
set_mark-shown item true false h = refl
set_mark-shown item false true h = refl
set_mark-shown item false false (inl h) = rw h refl
set_mark-shown item false false (inr h) = rw h refl

-- Behind any text.
append-cons : (s : Text) (c : ℕ) (t : Text) → s ++ c ∷ t ≢ []
append-cons [] c t e = cc
append-cons (x ∷ s) c t e = cc

status_nonempty : (e : Option Text) (status : Text) → status_text e status ≢ []
unfolding status_text
status_nonempty none status e = cc
status_nonempty (some x) status e = append-cons x _ _ e

stats_nonempty : (s : StatsSnapshot) → stats_summary s ≢ []
unfolding stats_summary
stats_nonempty s e = cc

config_nonempty : (ips : IpText) (c : AppConfig) → config_summary ips c ≢ []
unfolding config_summary
config_nonempty ips c = elim (Bool-cases (is_empty c.server)) [
  | inl b ↦ rw (b, config_summary) (λ e. cc)
  | inr b ↦ rw (b, config_summary) (append-cons c.username _ _)
]

start_stop_nonempty : (running : Bool) → start_stop_text running ≢ []
start_stop_nonempty true e = cc
start_stop_nonempty false e = cc

-- What a presenter remembers of a menu that it has set.
abbrev remembered : TrayMenu → MenuPresenter
remembered t = record {
  last_status = t.status;
  last_stats = t.stats;
  last_config = t.config;
  last_start_stop = t.start_stop;
  last_autostart = t.autostart;
  last_auto_connect = t.auto_connect;
}

-- What the presenter remembers is shown, as far as it matters for the next view.
record IsTrue (p : MenuPresenter) (t : TrayMenu) (v : View) : Type 0 where
  pub status : Cached t.status p.last_status
  pub stats : Cached t.stats p.last_stats
  pub config : Cached t.config p.last_config
  pub start_stop : Cached t.start_stop p.last_start_stop
  pub autostart : Marked t.autostart p.last_autostart v.config.autostart
  pub auto_connect : Marked t.auto_connect p.last_auto_connect v.config.auto_connect

update_tray-shown :
    (ips : IpText) (v : View) (p : MenuPresenter) (t : TrayMenu)
    → IsTrue p t v
    → update_tray ips v.config v.stats v.running (p, t)
      ≡ (remembered (menu_of ips v), menu_of ips v)
unfolding update_tray
update_tray-shown ips v p t h =
    rw
      (
        set_menu_text-shown t.status p.last_status _ h.status
            (status_nonempty v.stats.last_error v.stats.status),
        set_menu_text-shown t.stats p.last_stats _ h.stats (stats_nonempty v.stats),
        set_menu_text-shown t.config p.last_config _ h.config (config_nonempty ips v.config),
        set_menu_text-shown t.start_stop p.last_start_stop _ h.start_stop
            (start_stop_nonempty v.running),
        set_mark-shown t.autostart p.last_autostart v.config.autostart h.autostart,
        set_mark-shown t.auto_connect p.last_auto_connect v.config.auto_connect h.auto_connect,
      )
      refl

-- The menu with every item set, but for the marks, which may be toggled.
abbrev toggled : IpText → View → Bool → Bool → TrayMenu
toggled ips v m n = record (menu_of ips v) {
  autostart = xor v.config.autostart m;
  auto_connect = xor v.config.auto_connect n;
}

set_mark-xor :
    (old new odd : Bool)
    → set_mark (xor old odd) old new ≡ (xor new (if xor old new then false else odd), new)
unfolding set_mark
set_mark-xor true true odd = refl
set_mark-xor true false odd = refl
set_mark-xor false true odd = refl
set_mark-xor false false odd = refl

update_tray-toggled :
    (ips : IpText) (v w : View) (m n : Bool)
    → update_tray ips w.config w.stats w.running (remembered (menu_of ips v), toggled ips v m n) ≡ (
      remembered (menu_of ips w),
      toggled ips w
          (if xor v.config.autostart w.config.autostart then false else m)
          (if xor v.config.auto_connect w.config.auto_connect then false else n),
    )
unfolding update_tray
update_tray-toggled ips v w m n =
    rw
      (
        set_menu_text-shown _ _ _ (inl refl) (status_nonempty w.stats.last_error w.stats.status),
        set_menu_text-shown _ _ _ (inl refl) (stats_nonempty w.stats),
        set_menu_text-shown _ _ _ (inl refl) (config_nonempty ips w.config),
        set_menu_text-shown _ _ _ (inl refl) (start_stop_nonempty w.running),
        set_mark-xor v.config.autostart w.config.autostart m,
        set_mark-xor v.config.auto_connect w.config.auto_connect n,
      )
      refl

xor-not : (a m : Bool) → not (xor a m) ≡ xor a (not m)
xor-not true m = refl
xor-not false m = refl

menu_steps-toggled :
    (ips : IpText) (rest : List MenuChange) (v : View) (m n : Bool)
    → (menu_steps ips rest (remembered (menu_of ips v), toggled ips v m n)).1
      ≡ toggled ips
          (last_of v rest)
          (odd_clicks autostart v rest m)
          (odd_clicks auto_connect v rest n)
unfolding menu_steps menu_step odd_clicks toggle_mark
menu_steps-toggled ips [] v m n = refl
menu_steps-toggled ips (updated w ∷ rest) v m n =
    rw (update_tray-toggled ips v w m n, menu_steps) (menu_steps-toggled ips rest w _ _)
menu_steps-toggled ips (clicked autostart ∷ rest) v m n =
    rw (xor-not v.config.autostart m, menu_steps) (menu_steps-toggled ips rest v (not m) n)
menu_steps-toggled ips (clicked auto_connect ∷ rest) v m n =
    rw (xor-not v.config.auto_connect n, menu_steps) (menu_steps-toggled ips rest v m (not n))

xor-false : (b : Bool) → xor b false ≡ b
xor-false true = refl
xor-false false = refl

-- If the marks of the new menu are those of the settings when it is first updated, then after any
-- updates and any clicks that toggle marks, every text is the one for the state of the last update,
-- although only what has changed is set; and a mark shows its setting in that state, or the opposite if
-- it was clicked an odd number of times since an update last found the setting changed.
pub menu_steps-menu_of :
    (ips : IpText) (v : View) (rest : List MenuChange) (enabled connects : Bool)
    → v.config.autostart ≡ enabled
    → v.config.auto_connect ≡ connects
    → let last = last_of v rest in
      (menu_steps ips (updated v ∷ rest) (Tray.default, new_menu enabled connects)).1
      ≡ record (menu_of ips last) {
        autostart = xor last.config.autostart (odd_clicks autostart v rest false);
        auto_connect = xor last.config.auto_connect (odd_clicks auto_connect v rest false);
      }
unfolding new_menu menu_steps menu_step
menu_steps-menu_of ips v rest enabled connects e f =
    let start : (toggled ips v false false) ≡ menu_of ips v =
      rw (xor-false v.config.autostart, xor-false v.config.auto_connect) refl in
    let first = update_tray-shown ips v Tray.default (new_menu enabled connects) (record {
      status = inr refl;
      stats = inr refl;
      config = inr refl;
      start_stop = inr refl;
      autostart = inr (sym e);
      auto_connect = inr (sym f);
    }) in
    ap (λ x. (menu_steps ips rest x).1) first
    ∙ (ap (λ t. (menu_steps ips rest (remembered (menu_of ips v), t)).1) (sym start)
        ∙ menu_steps-toggled ips rest v false false)
