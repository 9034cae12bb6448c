-- ===== src/App/Window.antt =====
-- What the settings window of src/settings/view.rs is made of: the rows of its pages with their
-- controls, and what a click on each of them does. Colours, sizes and the layout are left out.
pub mod Pages
pub mod Clicks
mod Tests
use proxybear.Base.{
  ℕ, Bool, true, false, not, Option, none, some, List, [], ◌∷◌, ◌++◌, Text, codes, any, get_elem?,
  ◌==◌, if◌then◌else◌, Error,
}
use proxybear.Settings.Form.{SettingsTab, general, connection, logs}
use proxybear.App.Bear.Handlers.{SettingsField, tab}
use proxybear.App.View.{
  Input, server, username, port, pool_size, key_path, key_password, ssh_password, local_ip,
  local_port,
}
use proxybear.App.View.Status.{PromptCard}
use proxybear.Logs.Page.{LineFilter}

-- The controls: a text input, also one that hides its text; a button, which can be disabled; a button
-- with a picture and an explanation; one of several choices, with whether it is the chosen one; a
-- switch; a place of the sidebar; a text; and what only the window is told of.
pub data Control : Type 0 where
  text_input masked_input : Input → Control
  button : Text → SettingsField → Bool → Control
  icon_button : Text → SettingsField → Control
  choice : Text → SettingsField → Bool → Control
  switch : (Bool → SettingsField) → Bool → Control
  nav_item : Text → SettingsTab → Bool → Control
  value : Text → Control
  filter_button : Text → LineFilter → Bool → Control
  copy_button : Text → Control

-- The fields that a click sends to the application.
unfoldable pub sends : Control → List SettingsField
sends (text_input i) = []
sends (masked_input i) = []
sends (button label field enabled) = if enabled then field ∷ [] else []
sends (icon_button tooltip field) = field ∷ []
sends (choice label field selected) = field ∷ []
sends (switch field checked) = field (not checked) ∷ []
sends (nav_item label t active) = tab t ∷ []
sends (value text) = []
sends (filter_button label filter active) = []
sends (copy_button tooltip) = []

unfoldable pub clickable : List Control → List SettingsField
unfolding sends
clickable [] = []
clickable (c ∷ cs) = sends c ++ clickable cs

abbrev input_code : Input → ℕ
input_code server = 0
input_code username = 1
input_code port = 2
input_code pool_size = 3
input_code key_path = 4
input_code key_password = 5
input_code ssh_password = 6
input_code local_ip = 7
input_code local_port = 8

abbrev pub is_input : Input → Control → Bool
is_input i (text_input j) = input_code i == input_code j
is_input i (masked_input j) = input_code i == input_code j
is_input i _ = false

-- A row: its label, the help under it, and its controls.
pub record Row : Type 0 where
  pub label : Text
  pub help : Option Text
  pub controls : List Control

abbrev pub row : Text → List Control → Row
row label controls = record { label = label; help = none; controls = controls }

abbrev pub row_with : Text → Text → List Control → Row
row_with label help controls = record { label = label; help = some help; controls = controls }

pub record Group : Type 0 where
  pub title : Option Text
  pub rows : List Row

-- A page: its header, the card above its groups if there is one, and what stands below them.
pub record Page : Type 0 where
  pub title : Text
  pub description : Text
  pub card : Option PromptCard
  pub groups : List Group
  pub footer : List Control

unfoldable pub card_controls : Option PromptCard → List Control
card_controls none = []
card_controls (some c) =
    button (codes "Don't Trust") c.reject true ∷ button c.trust_label c.trust true ∷ []

unfoldable pub rows_controls : List Row → List Control
rows_controls [] = []
rows_controls (r ∷ rs) = r.controls ++ rows_controls rs

unfoldable pub groups_controls : List Group → List Control
unfolding rows_controls
groups_controls [] = []
groups_controls (g ∷ gs) = rows_controls g.rows ++ groups_controls gs

unfoldable pub page_controls : Page → List Control
unfolding card_controls groups_controls
page_controls p = card_controls p.card ++ (groups_controls p.groups ++ p.footer)
