-- ===== src/App/View/InSync.antt =====
-- What the inputs of src/settings/view.rs hold after any events.
use proxybear.Base.{
  ◌≡◌, refl, sym, ◌∙◌, ap, inl, inr, none, true, false, Bool-cases, Text, text_eq, text_eq→eq, List,
  [], ◌∷◌,
}
use proxybear.Settings.Form.{SettingsForm}
use proxybear.App.Bear.{ProxyBear, Outside, refresh_stats}
use proxybear.App.Bear.Background.{Same-refresh}
use proxybear.App.Bear.Handlers
use proxybear.App.Bear.Handlers.{
  SettingsField, handle_field, field, choose_key, revert, tab, log_level, auth_method, autostart,
  auto_connect, save, save_and_start, start, stop, forget_host_key, trust_host_key, reject_host_key,
  open_log, reveal_log, reveal_config, check_for_updates, clear_log,
}
use proxybear.App.Bear.Events.{
  Event, step, field_event, menu_event, ended, opened, closing, updates,
}
use proxybear.App.View.{
  Input, server, username, port, pool_size, key_path, key_password, ssh_password, local_ip,
  local_port, SettingsView, new, sync_input, sync_inputs, field_of, edit, syncs, on_field,
  ViewEvent, types, clicks, happens, view_step, view_steps,
}
use proxybear.App.Bear.Core.{start_proxy-Keeps, stop_proxy-Keeps}
use proxybear.App.Bear.Meanwhile.{handle_menu-Keeps, task_ended-Keeps}
use proxybear.App.Bear.Kept.{
  set_autostart-Keeps, set_auto_connect-Keeps, set_log_level-Keeps, save_field-Keeps, forget-Keeps,
  trust-Keeps, reject-Keeps, select_tab-Keeps, show_result-Keeps,
}

-- The controls that are clicked: all but the text inputs.
abbrev pub IsControl : SettingsField → Type 0
IsControl (Handlers.server v) = ⊥
IsControl (Handlers.username v) = ⊥
IsControl (Handlers.port v) = ⊥
IsControl (Handlers.pool_size v) = ⊥
IsControl (Handlers.key_path v) = ⊥
IsControl (Handlers.key_password v) = ⊥
IsControl (Handlers.ssh_password v) = ⊥
IsControl (Handlers.local_ip v) = ⊥
IsControl (Handlers.local_port v) = ⊥
IsControl _ = Unit {0}

-- While the window is open: the menu, the end of a task, and the figures.
abbrev pub IsMeanwhile : Event → Type 0
IsMeanwhile (field_event f) = ⊥
IsMeanwhile (menu_event m) = Unit {0}
IsMeanwhile (ended e) = Unit {0}
IsMeanwhile (opened r) = ⊥
IsMeanwhile (closing n) = ⊥
IsMeanwhile (updates us) = Unit {0}

abbrev pub IsLegal : ViewEvent → Type 0
IsLegal (types i t) = Unit {0}
IsLegal (clicks f) = IsControl f
IsLegal (happens e) = IsMeanwhile e

abbrev pub AreLegal : List (Outside × ViewEvent) → Type 0
AreLegal [] = Unit {0}
AreLegal ((o, e) ∷ es) = IsLegal e × AreLegal es

sync_input-next : (value next : Text) → sync_input value next ≡ next
unfolding sync_input
sync_input-next value next = elim (Bool-cases (text_eq value next)) [
  | inl e ↦ rw (e, sync_input) (text_eq→eq value next e)
  | inr e ↦ rw (e, sync_input) refl
]

sync_inputs-new : (f : SettingsForm) (v : SettingsView) → sync_inputs f v ≡ new f
unfolding sync_inputs new
sync_inputs-new f v =
    rw
      (
        sync_input-next v.server f.server,
        sync_input-next v.username f.username,
        sync_input-next v.port f.port,
        sync_input-next v.pool_size f.pool_size,
        sync_input-next v.key_path f.key_path,
        sync_input-next v.key_password f.key_password,
        sync_input-next v.ssh_password f.ssh_password,
        sync_input-next v.local_ip f.local_ip,
        sync_input-next v.local_port f.local_port,
      )
      refl

edit-new :
    (o : Outside) (i : Input) (t : Text) (a : ProxyBear)
    → edit i t (new a.form) ≡ new (handle_field o (field_of i t) a).form
unfolding edit new field_of handle_field field
edit-new o server t a = refl
edit-new o username t a = refl
edit-new o port t a = refl
edit-new o pool_size t a = refl
edit-new o key_path t a = refl
edit-new o key_password t a = refl
edit-new o ssh_password t a = refl
edit-new o local_ip t a = refl
edit-new o local_port t a = refl

-- The inputs of the form, which a click on a way to sign in leaves alone.
abbrev KeepsTexts : ProxyBear → ProxyBear → Type 0
KeepsTexts a b = new b.form ≡ new a.form

-- A control that does not write the inputs leaves the form's texts alone.
field-KeepsTexts :
    (o : Outside) (f : SettingsField) (a : ProxyBear)
    → IsControl f
    → syncs f ≡ false
    → KeepsTexts a (field o f a)
unfolding field syncs
field-KeepsTexts o (tab t) a c n = ap new (select_tab-Keeps t a).form
field-KeepsTexts o (log_level l) a c n = ap new (set_log_level-Keeps o l a).form
field-KeepsTexts o (auth_method m) a c n = unfold new in refl
field-KeepsTexts o (autostart b) a c n = ap new (set_autostart-Keeps o b a).form
field-KeepsTexts o (auto_connect b) a c n = ap new (set_auto_connect-Keeps o b a).form
field-KeepsTexts o save a c n = ap new (save_field-Keeps o false a).form
field-KeepsTexts o save_and_start a c n = ap new (save_field-Keeps o true a).form
field-KeepsTexts o start a c n = ap new (start_proxy-Keeps o a).form
field-KeepsTexts o stop a c n = ap new (stop_proxy-Keeps o a).form
field-KeepsTexts o forget_host_key a c n = ap new (forget-Keeps o a).form
field-KeepsTexts o trust_host_key a c n = ap new (trust-Keeps o a).form
field-KeepsTexts o reject_host_key a c n = ap new (reject-Keeps o a).form
field-KeepsTexts o open_log a c n = ap new (show_result-Keeps _ _ a).form
field-KeepsTexts o (reveal_log p) a c n = ap new (show_result-Keeps _ _ a).form
field-KeepsTexts o (reveal_config p) a c n = ap new (show_result-Keeps _ _ a).form
field-KeepsTexts o clear_log a c n = ap new (show_result-Keeps _ _ a).form
field-KeepsTexts o check_for_updates a c n = refl
field-KeepsTexts o revert a c n = cc
field-KeepsTexts o choose_key a c n = cc
field-KeepsTexts o (Handlers.server v) a c n = absurd c
field-KeepsTexts o (Handlers.username v) a c n = absurd c
field-KeepsTexts o (Handlers.port v) a c n = absurd c
field-KeepsTexts o (Handlers.pool_size v) a c n = absurd c
field-KeepsTexts o (Handlers.key_path v) a c n = absurd c
field-KeepsTexts o (Handlers.key_password v) a c n = absurd c
field-KeepsTexts o (Handlers.ssh_password v) a c n = absurd c
field-KeepsTexts o (Handlers.local_ip v) a c n = absurd c
field-KeepsTexts o (Handlers.local_port v) a c n = absurd c

meanwhile-form :
    (o : Outside) (e : Event) (a : ProxyBear) → IsMeanwhile e → (step o e a).form ≡ a.form
unfolding step
meanwhile-form o (menu_event m) a h = (handle_menu-Keeps o m a).form
meanwhile-form o (ended e) a h = (task_ended-Keeps o e a).form
meanwhile-form o (updates us) a h = unfold refresh_stats in (Same-refresh 1 o _).form
meanwhile-form o (field_event f) a h = absurd h
meanwhile-form o (opened r) a h = absurd h
meanwhile-form o (closing n) a h = absurd h

-- The inputs hold what the form holds.
abbrev pub InSync : SettingsView × ProxyBear → Type 0
InSync (v, a) = v ≡ new a.form

on_field-InSync :
    (o : Outside) (f : SettingsField) (v : SettingsView) (a : ProxyBear)
    → IsControl f
    → InSync (v, a)
    → InSync (on_field o f (v, a))
unfolding on_field
on_field-InSync o f v a c h = elim (Bool-cases (syncs f)) [
  | inl e ↦ rw (e, on_field) (sync_inputs-new _ v)
  | inr e ↦
      rw (e, on_field)
        (h ∙ sym (unfold handle_field in field-KeepsTexts o f (record a { feedback = none }) c e))
]

pub view_step-InSync :
    (o : Outside) (e : ViewEvent) (v : SettingsView) (a : ProxyBear)
    → IsLegal e
    → InSync (v, a)
    → InSync (view_step o e (v, a))
unfolding view_step
view_step-InSync o (types i t) v a l h = ap (edit i t) h ∙ edit-new o i t a
view_step-InSync o (clicks f) v a l h = on_field-InSync o f v a l h
view_step-InSync o (happens e) v a l h = h ∙ ap new (sym (meanwhile-form o e a l))

-- Whatever the user types and clicks in the settings window, and whatever the menu, the proxy tasks and
-- the figures do meanwhile, the text inputs go on holding the texts of the form.
pub view_steps-InSync :
    (es : List (Outside × ViewEvent)) (v : SettingsView) (a : ProxyBear)
    → AreLegal es
    → InSync (v, a)
    → InSync (view_steps es (v, a))
unfolding view_steps
view_steps-InSync [] v a l h = h
view_steps-InSync ((o, e) ∷ es) v a l h =
    let x = view_step o e (v, a) in
    view_steps-InSync es x.0 x.1 l.1 (view_step-InSync o e v a l.0 h)
