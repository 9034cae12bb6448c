-- ===== src/App/Window/Clicks.antt =====
-- Whatever is done in the settings window of src/settings/view.rs: the user can click on what is shown,
-- and type where it is shown, and nothing else.
use proxybear.Base.{
  zero, suc, subst, inl, inr, refl, Bool-cases, Bool-cases, ◌≡◌, arith, ℕ, Bool, true, false,
  Option, none, some, List, [], ◌∷◌, ◌++◌, Text, Error, All, any, get_elem?, if◌then◌else◌,
}
use proxybear.Stats.Notify.{Update}
use proxybear.App.Bear.{ProxyBear, Outside}
use proxybear.App.Bear.Handlers.{SettingsField, MenuAction}
use proxybear.App.Bear.Events.{menu_event, ended, updates}
use proxybear.App.View.{Input, SettingsView, types, clicks, happens, view_step}
use proxybear.Settings.Form.{SettingsTab, general, connection, logs}
use proxybear.App.View
use proxybear.App.View.InSync.{view_step-InSync, InSync, IsControl}
use proxybear.App.View.Pages.{action}
use proxybear.App.Window.{
  SettingsTab, Control, text_input, masked_input, button, icon_button, choice, switch, nav_item,
  value, filter_button, copy_button, sends, clickable, is_input, rows_controls, groups_controls,
  card_controls, page_controls,
}
use proxybear.App.Window.Pages.{
  sidebar, page_of, Fixed, window_controls, general_view, connection_view, logs_view, overview,
  startup, about, server_group, auth_group, proxy_group, connection_footer, level_group,
  logs_footer,
}

-- What may happen while the window is open.
pub data Act : Type 0 where
  typed : Input → Text → Act
  clicked : ℕ → Act
  chosen : MenuAction → Act
  task_over : Option Error → Act
  updated : List Update → Act

unfoldable pub click :
    Outside → Option SettingsField → SettingsView × ProxyBear → SettingsView × ProxyBear
click o none x = x
click o (some f) x = view_step o (clicks f) x

unfoldable pub window_step :
    Fixed → Outside → Act → SettingsView × ProxyBear → SettingsView × ProxyBear
unfolding click
window_step b o (typed i t) (v, a) =
    if any (is_input i) (window_controls b o a) then view_step o (types i t) (v, a) else (v, a)
window_step b o (clicked n) (v, a) =
    click o (get_elem? (clickable (window_controls b o a)) n) (v, a)
window_step b o (chosen m) x = view_step o (happens (menu_event m)) x
window_step b o (task_over e) x = view_step o (happens (ended e)) x
window_step b o (updated us) x = view_step o (happens (updates us)) x

unfoldable pub window_steps :
    Fixed → List (Outside × Act) → SettingsView × ProxyBear → SettingsView × ProxyBear
window_steps b [] x = x
window_steps b ((o, e) ∷ es) x = window_steps b es (window_step b o e x)

-- No control sends a text of the form by a click.
abbrev Clicks : Control → Type 0
Clicks (text_input i) = Unit {0}
Clicks (masked_input i) = Unit {0}
Clicks (button label field enabled) = IsControl field
Clicks (icon_button tooltip field) = IsControl field
Clicks (choice label field selected) = IsControl field
Clicks (switch field checked) = (b : Bool) → IsControl (field b)
Clicks (nav_item label t active) = Unit {0}
Clicks (value text) = Unit {0}
Clicks (filter_button label filter active) = Unit {0}
Clicks (copy_button tooltip) = Unit {0}

All-append {ℓ κ} :
    {A : Type ℓ} (P : A → Type κ) (xs ys : List A) → All P xs → All P ys → All P (xs ++ ys)
All-append P [] ys h k = k
All-append P (x ∷ xs) ys h k = (h.0, All-append P xs ys h.1 k)

sends-IsControl : (c : Control) → Clicks c → All IsControl (sends c)
unfolding sends
sends-IsControl (text_input i) h = tt
sends-IsControl (masked_input i) h = tt
sends-IsControl (button label field true) h = (h, tt)
sends-IsControl (button label field false) h = tt
sends-IsControl (icon_button tooltip field) h = (h, tt)
sends-IsControl (choice label field selected) h = (h, tt)
sends-IsControl (switch field checked) h = (h _, tt)
sends-IsControl (nav_item label t active) h = (tt, tt)
sends-IsControl (value text) h = tt
sends-IsControl (filter_button label filter active) h = tt
sends-IsControl (copy_button tooltip) h = tt

clickable-IsControl : (cs : List Control) → All Clicks cs → All IsControl (clickable cs)
unfolding clickable
clickable-IsControl [] h = tt
clickable-IsControl (c ∷ cs) h =
    All-append IsControl (sends c) (clickable cs) (sends-IsControl c h.0)
      (clickable-IsControl cs h.1)

action-IsControl : (o : Outside) (a : ProxyBear) → IsControl (action o a)
unfolding action
action-IsControl o a = ground arith

general-Clicks :
    (x : Fixed) (o : Outside) (a : ProxyBear) → All Clicks (page_controls (general_view x o a))
unfolding page_controls general_view overview startup about groups_controls rows_controls
general-Clicks x o a = ground (arith, action-IsControl o a)

connection-Clicks : (o : Outside) (a : ProxyBear) → All Clicks (page_controls (connection_view o a))
unfolding page_controls connection_view server_group auth_group proxy_group connection_footer
    groups_controls rows_controls
connection-Clicks o a = ground arith

logs-Clicks : (x : Fixed) (a : ProxyBear) → All Clicks (page_controls (logs_view x a))
unfolding page_controls logs_view level_group logs_footer groups_controls rows_controls
    card_controls
logs-Clicks x a = ground arith

sidebar-Clicks : (a : ProxyBear) → All Clicks (sidebar a)
unfolding sidebar
sidebar-Clicks a = (tt, (tt, (tt, tt)))

page_of-Clicks :
    (t : SettingsTab) (x : Fixed) (o : Outside) (a : ProxyBear)
    → All Clicks (page_controls (page_of t x o a))
unfolding page_of
page_of-Clicks general x o a = general-Clicks x o a
page_of-Clicks connection x o a = connection-Clicks o a
page_of-Clicks logs x o a = logs-Clicks x a

window-IsControl :
    (x : Fixed) (o : Outside) (a : ProxyBear) → All IsControl (clickable (window_controls x o a))
unfolding window_controls
window-IsControl x o a = clickable-IsControl (window_controls x o a) (
    All-append Clicks (sidebar a) (page_controls (page_of a.active_tab x o a)) (sidebar-Clicks a)
      (page_of-Clicks a.active_tab x o a))

-- The element that is found has the property of all.
found {ℓ κ} :
    {A : Type ℓ} (P : A → Type κ) (xs : List A) (n : ℕ) (x : A)
    → All P xs
    → get_elem? xs n ≡ some x
    → P x
found P [] n x h e = absurd (cc)
found P (y ∷ ys) zero x h e = subst P (cc) h.0
found P (y ∷ ys) (suc n) x h e = found P ys n x h.1 e

click-InSync :
    (o : Outside) (f : Option SettingsField) (v : SettingsView) (a : ProxyBear)
    → ((g : SettingsField) → f ≡ some g → IsControl g)
    → InSync (v, a)
    → InSync (click o f (v, a))
unfolding click
click-InSync o none v a c h = h
click-InSync o (some f) v a c h = view_step-InSync o (clicks f) v a (c f refl) h

window_step-InSync :
    (b : Fixed) (o : Outside) (e : Act) (v : SettingsView) (a : ProxyBear)
    → InSync (v, a)
    → InSync (window_step b o e (v, a))
unfolding window_step
window_step-InSync b o (typed i t) v a h =
    elim (Bool-cases (any (is_input i) (window_controls b o a))) [
      | inl e ↦ rw (e, window_step) (view_step-InSync o (types i t) v a tt h)
      | inr e ↦ rw (e, window_step) h
    ]
window_step-InSync b o (clicked n) v a h =
    let cs = clickable (window_controls b o a) in
    click-InSync o (get_elem? cs n) v a (λ g e. found IsControl cs n g (window-IsControl b o a) e) h
window_step-InSync b o (chosen m) v a h = view_step-InSync o (happens (menu_event m)) v a tt h
window_step-InSync b o (task_over e) v a h = view_step-InSync o (happens (ended e)) v a tt h
window_step-InSync b o (updated us) v a h = view_step-InSync o (happens (updates us)) v a tt h

window_steps-InSync :
    (b : Fixed) (es : List (Outside × Act)) (v : SettingsView) (a : ProxyBear)
    → InSync (v, a)
    → InSync (window_steps b es (v, a))
unfolding window_steps
window_steps-InSync b [] v a h = h
window_steps-InSync b ((o, e) ∷ es) v a h =
    let x = window_step b o e (v, a) in
    window_steps-InSync b es x.0 x.1 (window_step-InSync b o e v a h)

-- Once the window is made, whatever the user types into the inputs that are shown and clicks of the
-- controls that are shown and enabled, and whatever the menu, the proxy tasks and the figures do
-- meanwhile, the text inputs, also those that are not shown, go on holding the texts of the form.
pub window-InSync :
    (b : Fixed) (es : List (Outside × Act)) (a : ProxyBear)
    → InSync (window_steps b es (View.new a.form, a))
window-InSync b es a = window_steps-InSync b es (View.new a.form) a refl
