-- ===== src/App/View/General.antt =====
-- src/settings/view/general.rs: what the first page shows. The version and the updates are left out.
use proxybear.Base.{Bool, not, Option, Text, codes, ◌++◌, is_empty, if◌then◌else◌}
use mathlib.Core.Option
use proxybear.Base.Decimal.{to_decimal}
use proxybear.Net.{is_loopback}
use proxybear.Config.{AppConfig, validate_ready}
use proxybear.App.Controller.{is_running}
use proxybear.App.Bear.{ProxyBear, Outside}
use proxybear.App.Bear.Handlers.{SettingsField}
use proxybear.App.Tray.{socket_text}
use proxybear.App.View.Status.{ConnectionState, PromptCard, state_of, traffic, host_key_prompt}
use proxybear.App.View.Pages.{action, is_ok}

pub record GeneralPage : Type 0 where
  pub state : ConnectionState
  pub detail : Text
  pub action : SettingsField
  pub error : Option Text
  pub exposed : Bool
  pub address : Text
  pub server : Text
  pub traffic : Text
  pub prompt : Option PromptCard
  pub autostart : Bool
  pub auto_connect : Bool

unfoldable pub server_line : AppConfig → Text
server_line c =
    if is_empty c.server
    then codes "Not set up"
    else c.username ++ (codes "@" ++ (c.server ++ (codes ":" ++ to_decimal c.port)))

unfoldable pub detail : Outside → ProxyBear → Text
unfolding is_running validate_ready
detail o a =
    if is_running a.proxy
    then a.stats_snapshot.status
    else if is_ok (validate_ready o.home a.config)
    then codes "Start the proxy to route traffic through your SSH server."
    else codes "Add your SSH server details to get started."

unfoldable pub general_page : Outside → ProxyBear → GeneralPage
unfolding state_of server_line detail action traffic host_key_prompt socket_text
general_page o a = record {
  state = state_of a.stats_snapshot (is_running a.proxy);
  detail = detail o a;
  action = action o a;
  error = a.stats_snapshot.last_error;
  exposed = not (is_loopback a.config.local_addr.ip);
  address = socket_text o.ips a.config.local_addr.ip a.config.local_addr.port;
  server = server_line a.config;
  traffic = traffic a.stats_snapshot;
  prompt =
      Option.map (λ p. host_key_prompt p (is_running a.proxy)) a.stats_snapshot.host_key_prompt;
  autostart = a.config.autostart;
  auto_connect = a.config.auto_connect;
}
