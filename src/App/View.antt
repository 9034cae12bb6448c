-- ===== src/App/View.antt =====
-- src/settings/view.rs: the text inputs of the settings window, which hold the form's texts a second
-- time, and how the window keeps both the same.
pub mod InSync
pub mod Status
pub mod Pages
pub mod General
pub mod Asked
mod Tests
use proxybear.Base.{Bool, true, false, List, [], ◌∷◌, Text, text_eq, if◌then◌else◌}
use proxybear.Settings.Form.{SettingsForm}
use proxybear.App.Bear.{ProxyBear, Outside}
use proxybear.App.Bear.Handlers
use proxybear.App.Bear.Handlers.{SettingsField, choose_key, revert, handle_field}
use proxybear.App.Bear.Events.{Event, step}

pub data Input : Type 0 where
  server username port pool_size key_path key_password ssh_password local_ip local_port : Input

-- The values of the text inputs.
pub record SettingsView : Type 0 where
  pub server : Text
  pub username : Text
  pub port : Text
  pub pool_size : Text
  pub key_path : Text
  pub key_password : Text
  pub ssh_password : Text
  pub local_ip : Text
  pub local_port : Text

-- `SettingsView::new`: the texts of the form.
unfoldable pub new : SettingsForm → SettingsView
new f = record {
  server = f.server;
  username = f.username;
  port = f.port;
  pool_size = f.pool_size;
  key_path = f.key_path;
  key_password = f.key_password;
  ssh_password = f.ssh_password;
  local_ip = f.local_ip;
  local_port = f.local_port;
}

-- An input is written only if its value is another.
unfoldable pub sync_input : Text → Text → Text
sync_input value next = if text_eq value next then value else next

unfoldable pub sync_inputs : SettingsForm → SettingsView → SettingsView
unfolding sync_input
sync_inputs f v = record {
  server = sync_input v.server f.server;
  username = sync_input v.username f.username;
  port = sync_input v.port f.port;
  pool_size = sync_input v.pool_size f.pool_size;
  key_path = sync_input v.key_path f.key_path;
  key_password = sync_input v.key_password f.key_password;
  ssh_password = sync_input v.ssh_password f.ssh_password;
  local_ip = sync_input v.local_ip f.local_ip;
  local_port = sync_input v.local_port f.local_port;
}

-- The field of an input, and the input with another value.
unfoldable pub field_of : Input → Text → SettingsField
field_of server v = Handlers.server v
field_of username v = Handlers.username v
field_of port v = Handlers.port v
field_of pool_size v = Handlers.pool_size v
field_of key_path v = Handlers.key_path v
field_of key_password v = Handlers.key_password v
field_of ssh_password v = Handlers.ssh_password v
field_of local_ip v = Handlers.local_ip v
field_of local_port v = Handlers.local_port v

unfoldable pub edit : Input → Text → SettingsView → SettingsView
edit server t v = record v { server = t }
edit username t v = record v { username = t }
edit port t v = record v { port = t }
edit pool_size t v = record v { pool_size = t }
edit key_path t v = record v { key_path = t }
edit key_password t v = record v { key_password = t }
edit ssh_password t v = record v { ssh_password = t }
edit local_ip t v = record v { local_ip = t }
edit local_port t v = record v { local_port = t }

-- The clicks after which the inputs are written.
unfoldable pub syncs : SettingsField → Bool
syncs choose_key = true
syncs revert = true
syncs _ = false

-- A click on a control of the window.
unfoldable pub on_field :
    Outside → SettingsField → SettingsView × ProxyBear → SettingsView × ProxyBear
unfolding syncs sync_inputs
on_field o f (v, a) = let b = handle_field o f a in (if syncs f then sync_inputs b.form v else v, b)

-- The user types, clicks, or something else happens to the application.
pub data ViewEvent : Type 0 where
  types : Input → Text → ViewEvent
  clicks : SettingsField → ViewEvent
  happens : Event → ViewEvent

unfoldable pub view_step : Outside → ViewEvent → SettingsView × ProxyBear → SettingsView × ProxyBear
unfolding field_of edit on_field
view_step o (types i t) (v, a) = (edit i t v, handle_field o (field_of i t) a)
view_step o (clicks f) (v, a) = on_field o f (v, a)
view_step o (happens e) (v, a) = (v, step o e a)

unfoldable pub view_steps :
    List (Outside × ViewEvent) → SettingsView × ProxyBear → SettingsView × ProxyBear
view_steps [] x = x
view_steps ((o, e) ∷ es) x = view_steps es (view_step o e x)
