-- ===== src/App/Tray/Menu.antt =====
-- src/app/tray.rs: the items of the menu, and what a click on one of them does.
use proxybear.Base.{
  Bool, true, false, Option, none, some, List, [], ◌∷◌, ◌++◌, Text, codes, text_eq, All,
  if◌then◌else◌, ◌≡◌, refl,
}
use proxybear.App.Bear.{is_some}
use proxybear.App.Bear.Handlers.{
  MenuAction, start_stop, settings, toggle_autostart, toggle_auto_connect, check_for_updates, quit,
}
use proxybear.App.Tray.{TrayMenu}

-- An entry of the menu: its identifier, its text, whether it can be clicked, and its mark if it has one.
pub data MenuEntry : Type 0 where
  item : Text → Text → Bool → MenuEntry
  check_item : Text → Text → Bool → Bool → MenuEntry
  separator : MenuEntry

-- The part of the menu that only release builds have.
unfoldable pub update_items : Bool → List MenuEntry
update_items true = item (codes "check_updates") (codes "Check for Updates…") true ∷ []
update_items false = []

-- The entries of `TrayMenu::new`, with the texts and marks of a menu.
unfoldable pub entries : Bool → TrayMenu → List MenuEntry
unfolding update_items
entries updates t =
    item (codes "status") t.status false
    ∷ item (codes "stats") t.stats false
    ∷ item (codes "config") t.config false
    ∷ separator
    ∷ item (codes "start_stop") t.start_stop true
    ∷ item (codes "settings") (codes "Settings…") true
    ∷ check_item (codes "autostart") (codes "Launch at Login") true t.autostart
    ∷ check_item (codes "auto_connect") (codes "Auto-Connect") true t.auto_connect
    ∷ separator
    ∷ (update_items updates ++ item (codes "quit") (codes "Quit") true ∷ [])

-- The handler of the menu's events.
unfoldable pub action_of : Text → Option MenuAction
action_of id =
    if text_eq id (codes "start_stop")
    then some start_stop
    else if text_eq id (codes "settings")
    then some settings
    else if text_eq id (codes "autostart")
    then some toggle_autostart
    else if text_eq id (codes "auto_connect")
    then some toggle_auto_connect
    else if text_eq id (codes "check_updates")
    then some check_for_updates
    else if text_eq id (codes "quit")
    then some quit
    else none

-- What a click on an entry sends; an entry that is disabled cannot be clicked.
abbrev pub sends : MenuEntry → Option MenuAction
sends (item id label enabled) = if enabled then action_of id else none
sends (check_item id label enabled mark) = if enabled then action_of id else none
sends separator = none

abbrev pub is_enabled : MenuEntry → Bool
is_enabled (item id label enabled) = enabled
is_enabled (check_item id label enabled mark) = enabled
is_enabled separator = false

-- The actions of the entries, from the top to the bottom.
abbrev pub actions : List MenuEntry → List MenuAction
actions [] = []
actions (m ∷ ms) = elim (sends m) [ none ↦ actions ms | some a ↦ a ∷ actions ms ]

abbrev update_actions : Bool → List MenuAction
update_actions true = check_for_updates ∷ []
update_actions false = []

-- Whatever the menu says, each entry that can be clicked does something, and the entries lead to every
-- action of the menu once; to look for updates only in a release build.
pub entries-actions :
    (updates : Bool) (t : TrayMenu)
    → All (λ m. is_some (sends m) ≡ is_enabled m) (entries updates t)
      × (actions (entries updates t)
          ≡ start_stop
            ∷ settings
            ∷ toggle_autostart
            ∷ toggle_auto_connect
            ∷ (update_actions updates ++ quit ∷ []))
unfolding entries action_of
entries-actions true t = (
  (refl, (refl, (refl, (refl, (refl, (refl, (refl, (refl, (refl, (refl, (refl, tt))))))))))),
  refl,
)
entries-actions false t =
    ((refl, (refl, (refl, (refl, (refl, (refl, (refl, (refl, (refl, (refl, tt)))))))))), refl)
