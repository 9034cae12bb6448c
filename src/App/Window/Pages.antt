-- ===== src/App/Window/Pages.antt =====
-- The pages of src/settings/view/, and the sidebar of src/settings/view.rs.
use proxybear.Base.{
  Bool, true, false, not, Option, none, some, List, [], ◌∷◌, ◌++◌, Text, codes, if◌then◌else◌,
}
use proxybear.Base.Decimal.{to_decimal}
use proxybear.Config.{
  key, password, LogLevel, error, warn, info, debug, trace, max_pool_size, validate_ready,
}
use proxybear.Settings.Form.{SettingsTab, general, connection, logs}
use proxybear.App.Controller.{is_running}
use proxybear.App.Bear.{ProxyBear, Outside}
use proxybear.App.Bear.Handlers
use proxybear.App.Bear.Handlers.{
  SettingsField, auto_connect, autostart, save, save_and_start, revert, forget_host_key, choose_key,
  open_log, reveal_log, reveal_config, check_for_updates, clear_log,
}
use proxybear.App.Bear.Events.{has_unsaved_changes}
use proxybear.App.View.{
  server, username, port, pool_size, key_path, key_password, ssh_password, local_ip, local_port,
}
use proxybear.App.View.Status.{label}
use proxybear.App.View.Pages.{connection_page, is_ok}
use proxybear.App.View.General.{general_page}
use proxybear.App.Window.{
  Control, text_input, masked_input, button, icon_button, choice, switch, nav_item, value,
  filter_button, copy_button, Row, row, row_with, Group, Page, page_controls,
}
use proxybear.Logs.Page.{LineFilter, all, warnings, errors}

-- What is fixed when the application is built or made, and where the log's page stands.
pub record Fixed : Type 0 where
  pub version : Text
  pub updates : Bool
  pub config_path : Text
  pub log_path : Text
  pub log_status : Text
  pub log_filter : LineFilter

abbrev exposed_warning : Text
exposed_warning = codes "Other devices can reach this address and use the proxy without a password."

abbrev pub is_tab : SettingsTab → SettingsTab → Bool
is_tab general general = true
is_tab connection connection = true
is_tab logs logs = true
is_tab _ _ = false

unfoldable pub sidebar : ProxyBear → List Control
sidebar a =
    nav_item (codes "General") general (is_tab a.active_tab general)
    ∷ nav_item (codes "Connection") connection (is_tab a.active_tab connection)
    ∷ nav_item (codes "Logs") logs (is_tab a.active_tab logs)
    ∷ []

-- The label of the button beside the status.
unfoldable pub action_label : Outside → ProxyBear → Text
unfolding is_running validate_ready
action_label o a =
    if is_running a.proxy
    then codes "Stop"
    else if is_ok (validate_ready o.home a.config)
    then codes "Start"
    else codes "Set Up…"

abbrev error_rows : Option Text → List Row
error_rows none = []
error_rows (some e) = row e [] ∷ []

unfoldable pub overview : Outside → ProxyBear → Group
unfolding general_page label action_label
overview o a =
    let p = general_page o a in
    record {
      title = none;
      rows =
          row_with (label p.state) p.detail (button (action_label o a) p.action true ∷ [])
          ∷ (error_rows p.error
              ++ record {
                label = codes "SOCKS5 proxy";
                help = if p.exposed then some exposed_warning else none;
                controls = value p.address ∷ [];
              }
                ∷ row (codes "SSH server") (value p.server ∷ [])
                ∷ row (codes "Traffic") (value p.traffic ∷ [])
                ∷ []);
    }

unfoldable pub startup : ProxyBear → Group
startup a = record {
  title = some (codes "Startup");
  rows =
      row_with (codes "Open at login") (codes "Start ProxyBear in the menu bar when you log in.")
        (switch autostart a.config.autostart ∷ [])
      ∷ row_with (codes "Connect on launch") (codes "Start the proxy as soon as ProxyBear opens.")
          (switch auto_connect a.config.auto_connect ∷ [])
      ∷ [];
}

unfoldable pub about : Fixed → Group
about x = record {
  title = none;
  rows =
      row_with (codes "Version")
        (if x.updates
          then codes "ProxyBear also checks for updates on its own."
          else codes "Updates are available in release builds.")
        (value x.version
          ∷ (if x.updates
              then button (codes "Check for Updates…") check_for_updates true ∷ []
              else []))
      ∷ row_with (codes "Settings file") x.config_path
          (button (codes "Show in Finder") (reveal_config x.config_path) true ∷ [])
      ∷ [];
}

unfoldable pub general_view : Fixed → Outside → ProxyBear → Page
unfolding overview startup about
general_view x o a = record {
  title = codes "General";
  description = codes "Proxy status and what happens at startup.";
  card = (general_page o a).prompt;
  groups = overview o a ∷ startup a ∷ about x ∷ [];
  footer = [];
}

unfoldable pub server_group : Outside → ProxyBear → Group
unfolding connection_page
server_group o a =
    let p = connection_page o a in
    record {
      title = some (codes "SSH server");
      rows =
          row (codes "Hostname") (text_input server ∷ [])
          ∷ row (codes "Port") (text_input port ∷ [])
          ∷ row (codes "Username") (text_input username ∷ [])
          ∷ row_with (codes "Host key") p.host_key
              (button (codes "Forget") forget_host_key p.can_forget ∷ [])
          ∷ [];
    }

-- What is asked for, by the chosen method.
unfoldable pub credentials : Bool → List Row
credentials true =
    row (codes "Private key")
      (text_input key_path ∷ icon_button (codes "Choose a key file") choose_key ∷ [])
    ∷ row_with (codes "Passphrase")
        (codes "Leave empty if the key is not encrypted. Stored in your Keychain.")
        (masked_input key_password ∷ [])
    ∷ []
credentials false =
    row_with (codes "Password") (codes "Stored in your Keychain.") (masked_input ssh_password ∷ [])
    ∷ []

unfoldable pub auth_group : Outside → ProxyBear → Group
unfolding connection_page credentials
auth_group o a =
    let is_key = (connection_page o a).uses_key in
    record {
      title = some (codes "Authentication");
      rows =
          row (codes "Sign in with") (
            choice (codes "Private key") (Handlers.auth_method key) is_key
            ∷ choice (codes "Password") (Handlers.auth_method password) (not is_key)
            ∷ [])
          ∷ credentials is_key;
    }

unfoldable pub proxy_group : Outside → ProxyBear → Group
unfolding connection_page
proxy_group o a = record {
  title = some (codes "Local proxy");
  rows =
      row_with (codes "SOCKS5 address")
        (if (connection_page o a).exposed
          then exposed_warning
          else codes "No authentication. Keep it on a loopback address.")
        (text_input local_ip ∷ [])
      ∷ row (codes "SOCKS5 port") (text_input local_port ∷ [])
      ∷ row_with (codes "SSH sessions")
          (codes "Parallel SSH connections, 1 to "
            ++ (to_decimal max_pool_size ++ codes ". New connections use the least busy one."))
          (text_input pool_size ∷ [])
      ∷ [];
}

unfoldable pub connection_footer : Outside → ProxyBear → List Control
unfolding connection_page has_unsaved_changes
connection_footer o a =
    let p = connection_page o a in
    (if has_unsaved_changes o a then button (codes "Revert") revert true ∷ [] else [])
    ++ button (codes "Save") save p.can_save ∷ button p.start_label save_and_start p.can_start ∷ []

unfoldable pub connection_view : Outside → ProxyBear → Page
unfolding server_group auth_group proxy_group connection_footer
connection_view o a = record {
  title = codes "Connection";
  description = codes "The SSH server ProxyBear tunnels through, and the local proxy it serves.";
  card = none;
  groups = server_group o a ∷ auth_group o a ∷ proxy_group o a ∷ [];
  footer = connection_footer o a;
}

abbrev pub is_level : LogLevel → LogLevel → Bool
is_level error error = true
is_level warn warn = true
is_level info info = true
is_level debug debug = true
is_level trace trace = true
is_level _ _ = false

abbrev is_filter : LineFilter → LineFilter → Bool
is_filter all all = true
is_filter warnings warnings = true
is_filter errors errors = true
is_filter _ _ = false

abbrev level_choice : LogLevel → Text → LogLevel → Control
level_choice now name level = choice name (Handlers.log_level level) (is_level now level)

unfoldable pub level_group : ProxyBear → Group
level_group a = record {
  title = none;
  rows =
      row_with (codes "Log level") (codes "Saved automatically.") (
        level_choice a.config.log_level (codes "Error") error
        ∷ level_choice a.config.log_level (codes "Warn") warn
        ∷ level_choice a.config.log_level (codes "Info") info
        ∷ level_choice a.config.log_level (codes "Debug") debug
        ∷ level_choice a.config.log_level (codes "Trace") trace
        ∷ [])
      ∷ [];
}

unfoldable pub logs_footer : Fixed → List Control
logs_footer x =
    filter_button (codes "All") all (is_filter x.log_filter all)
    ∷ filter_button (codes "Warnings") warnings (is_filter x.log_filter warnings)
    ∷ filter_button (codes "Errors") errors (is_filter x.log_filter errors)
    ∷ copy_button (codes "Copy shown lines")
    ∷ icon_button (codes "Open log file") open_log
    ∷ icon_button (codes "Show in Finder") (reveal_log x.log_path)
    ∷ icon_button (codes "Clear log") clear_log
    ∷ []

-- The lines of the log are those of `Logs.Page`.
unfoldable pub logs_view : Fixed → ProxyBear → Page
unfolding level_group logs_footer
logs_view x a = record {
  title = codes "Logs";
  description = x.log_status ++ codes " · newest first";
  card = none;
  groups = level_group a ∷ [];
  footer = logs_footer x;
}

unfoldable pub page_of : SettingsTab → Fixed → Outside → ProxyBear → Page
unfolding general_view connection_view logs_view
page_of general x o a = general_view x o a
page_of connection x o a = connection_view o a
page_of logs x o a = logs_view x a

-- `render`.
unfoldable pub window_controls : Fixed → Outside → ProxyBear → List Control
unfolding sidebar page_of page_controls
window_controls x o a = sidebar a ++ page_controls (page_of a.active_tab x o a)
