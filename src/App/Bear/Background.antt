-- ===== src/App/Bear/Background.antt =====
-- What `refresh_stats` of src/main.rs leaves alone, and which background tasks run after any events.
use proxybear.Base.{
  ◌⊎◌, ap, ℕ, zero, suc, ◌≡◌, ◌&&◌, refl, sym, ◌∙◌, true, false, inl, inr, arith, Bool-cases,
}
use proxybear.Stats.{snapshot}
use proxybear.Stats.Snapshots.{snapshot_eq, snapshot_eq→eq}
use proxybear.Settings.Form.{connection, logs}
use proxybear.App.Icon.{set_icon_state-drawn}
use proxybear.App.Bear.{
  SettingsTab, ok, Bool, is_some, clean, is_running, icon_state, general, ProxyBear, Outside,
  wants_log, wants_stats, sync_refresh_tasks, update_icon_for, shown, host_key_prompted, refresh,
  refresh_stats,
}

-- What a refresh never touches.
pub record Same (a b : ProxyBear) : Type 0 where
  pub config : b.config ≡ a.config
  pub stored : b.stored ≡ a.stored
  pub stats : b.stats ≡ a.stats
  pub proxy : b.proxy ≡ a.proxy
  pub tasks : b.tasks ≡ a.tasks
  pub form : b.form ≡ a.form

Same-refl : (a : ProxyBear) → Same a a
Same-refl a = record {
  config = refl;
  stored = refl;
  stats = refl;
  proxy = refl;
  tasks = refl;
  form = refl;
}

pub Same-shown : (o : Outside) (a : ProxyBear) → Same a (shown o a)
unfolding shown sync_refresh_tasks update_icon_for
Same-shown o a = record {
  config = refl;
  stored = refl;
  stats = refl;
  proxy = refl;
  tasks = refl;
  form = refl;
}

-- `refresh` shows the state, brings the window to the front, or opens it after another refresh.
refresh_cases {ℓ} :
    (P : ProxyBear → Type ℓ) (n : ℕ) (o : Outside) (a : ProxyBear)
    → let b : ProxyBear = record (shown o a) { active_tab = general } in
      let c = refresh n o (record b { settings_window = false }) in
      P (shown o a)
      → (host_key_prompted a ≡ true → P b)
      → P (record c { opening = suc c.opening })
      → P (refresh (suc n) o a)
unfolding refresh
refresh_cases P n o a h k l = elim (Bool-cases (host_key_prompted a)) [
  | inr e ↦ rw (e, refresh) h
  | inl e ↦ elim (Bool-cases ((shown o a).settings_window && o.window_alive)) [
    | inl f ↦ rw (e, refresh) (rw (f, refresh) (k e))
    | inr f ↦ rw (e, refresh) (rw (f, refresh) l)
  ]
]

stats_snapshot-shown : (o : Outside) (a : ProxyBear) → (shown o a).stats_snapshot ≡ snapshot a.stats
unfolding shown sync_refresh_tasks update_icon_for
stats_snapshot-shown o a = elim (Bool-cases (snapshot_eq (snapshot a.stats) a.stats_snapshot)) [
  | inl e ↦ rw e (sym (snapshot_eq→eq _ _ e))
  | inr e ↦ rw e
]

abbrev pub is_general : SettingsTab → Bool
is_general general = true
is_general connection = false
is_general logs = false

-- The window was brought to the front since a server's key is asked about. The log goes on being
-- followed then, although the page of the log is not shown any more.
abbrev pub was_asked : ProxyBear → Bool
was_asked a =
    a.settings_window && (is_general a.active_tab && is_some a.stats_snapshot.host_key_prompt)

-- The system can set the icon, or `Fails`.
abbrev pub Draws : Type 0 → Outside → Type 0
Draws Fails o = ((o.icon_made ≡ ok tt) × (o.icon_set ≡ ok tt)) ⊎ Fails

-- The background tasks fit the state: the figures are read exactly while they can be seen and change,
-- and the log is followed while it is seen, and only then or while a key is asked about in front of it.
-- The icon is that of the figures that are shown, or `Fails`.
pub record IsRefreshed (Fails : Type 0) (a : ProxyBear) : Type 0 where
  pub stats_task : a.stats_task ≡ wants_stats a
  pub log_task : wants_log a ≡ true → a.log_task ≡ true
  pub log_only : a.log_task ≡ true → (wants_log a ≡ true) ⊎ (was_asked a ≡ true)
  pub icon : (a.icon ≡ icon_state (is_running a.proxy) (clean a.stats_snapshot)) ⊎ Fails

module _ (Fails : Type 0) where
  shown-icon :
      (o : Outside) (a : ProxyBear)
      → Draws Fails o
      → ((shown o a).icon ≡ icon_state (is_running a.proxy) (clean (snapshot a.stats))) ⊎ Fails
  unfolding shown sync_refresh_tasks update_icon_for
  shown-icon o a (inr x) = inr x
  shown-icon o a (inl (m, n)) = inl (set_icon_state-drawn o.icon_made o.icon_set _ a.icon m n)

  shown-IsRefreshed : (o : Outside) (a : ProxyBear) → Draws Fails o → IsRefreshed Fails (shown o a)
  unfolding shown sync_refresh_tasks update_icon_for wants_stats
  shown-IsRefreshed o a w = record {
    stats_task = ground arith;
    log_task = ground arith;
    log_only = ground arith;
    icon = elim (shown-icon o a w) [
      | inl e ↦
          inl (
            e
            ∙ ap (λ s. icon_state (is_running a.proxy) (clean s)) (sym (stats_snapshot-shown o a)))
      | inr x ↦ inr x
    ];
  }

  front-IsRefreshed :
      (a : ProxyBear)
      → is_some a.stats_snapshot.host_key_prompt ≡ true
      → IsRefreshed Fails a
      → IsRefreshed Fails (record a { active_tab = general })
  unfolding wants_stats
  front-IsRefreshed a p h = record {
    stats_task = h.stats_task;
    log_task = ground arith;
    log_only = ground (arith, h.log_only);
    icon = h.icon;
  }

  -- What makes the window come to the front is shown.
  prompted-shown :
      (o : Outside) (a : ProxyBear)
      → host_key_prompted a ≡ true
      → is_some (shown o a).stats_snapshot.host_key_prompt ≡ true
  unfolding host_key_prompted
  prompted-shown o a e = rw (stats_snapshot-shown o a) (ground arith)

  pub refresh-IsRefreshed :
      (n : ℕ) (o : Outside) (a : ProxyBear) → Draws Fails o → IsRefreshed Fails (refresh n o a)
  unfolding refresh wants_stats
  refresh-IsRefreshed zero o a w = shown-IsRefreshed o a w
  refresh-IsRefreshed (suc n) o a w =
      refresh_cases (IsRefreshed Fails) n o a (shown-IsRefreshed o a w)
        (λ e. front-IsRefreshed (shown o a) (prompted-shown o a e) (shown-IsRefreshed o a w))
        (let h = refresh-IsRefreshed n o _ w in
          record {
            stats_task = h.stats_task;
            log_task = h.log_task;
            log_only = h.log_only;
            icon = h.icon;
          })

Same-trans : (a b c : ProxyBear) → Same a b → Same b c → Same a c
Same-trans a b c h k = record {
  config = k.config ∙ h.config;
  stored = k.stored ∙ h.stored;
  stats = k.stats ∙ h.stats;
  proxy = k.proxy ∙ h.proxy;
  tasks = k.tasks ∙ h.tasks;
  form = k.form ∙ h.form;
}

pub Same-refresh : (n : ℕ) (o : Outside) (a : ProxyBear) → Same a (refresh n o a)
unfolding refresh
Same-refresh zero o a = Same-shown o a
Same-refresh (suc n) o a =
    let b : ProxyBear = record (shown o a) { active_tab = general } in
    let h = Same-shown o a in
    refresh_cases (Same a) n o a h
      (λ e. record {
        config = h.config;
        stored = h.stored;
        stats = h.stats;
        proxy = h.proxy;
        tasks = h.tasks;
        form = h.form;
      })
      (let k =
          Same-trans a _ _
            (record {
              config = h.config;
              stored = h.stored;
              stats = h.stats;
              proxy = h.proxy;
              tasks = h.tasks;
              form = h.form;
            })
            (Same-refresh n o (record b { settings_window = false })) in
        record {
          config = k.config;
          stored = k.stored;
          stats = k.stats;
          proxy = k.proxy;
          tasks = k.tasks;
          form = k.form;
        })

-- After `shown` no prompt is new, so that a second refresh opens nothing.
host_key_prompted-shown :
    (a b : ProxyBear)
    → b.stats ≡ a.stats
    → b.stats_snapshot ≡ snapshot a.stats
    → host_key_prompted b ≡ false
unfolding host_key_prompted snapshot
host_key_prompted-shown a b h k = rw h (rw k (ground arith))

refresh-shown :
    (n : ℕ) (o : Outside) (a : ProxyBear) → host_key_prompted a ≡ false → refresh n o a ≡ shown o a
unfolding refresh
refresh-shown zero o a h = refl
refresh-shown (suc n) o a h = rw (h, refresh)

-- One nested call is enough: with any larger bound `refresh_stats` does the same.
pub refresh_enough : (n : ℕ) (o : Outside) (a : ProxyBear) → refresh (suc n) o a ≡ refresh_stats o a
unfolding refresh refresh_stats
refresh_enough n o a =
    let b : ProxyBear = record (shown o a) { active_tab = general; settings_window = false } in
    let quiet : host_key_prompted b ≡ false =
      host_key_prompted-shown a b (Same-shown o a).stats (stats_snapshot-shown o a) in
    rw (refresh-shown n o b quiet)
