-- ===== src/App/Tray.antt =====
-- src/app/presentation.rs: the texts and the check marks of the menu that src/app/tray.rs makes.
pub mod Bytes
pub mod Shows
pub mod Menu
mod Tests
use proxybear.Base.{
  ℕ, Bool, true, false, not, ◌&&◌, Option, none, some, List, [], ◌∷◌, ◌++◌, Text, codes, is_empty,
  text_eq, if◌then◌else◌,
}
use proxybear.Base.Decimal.{to_decimal}
use proxybear.Net.{IpAddr, v4, v6, SocketAddr, IpText}
use proxybear.Config.{AppConfig}
use proxybear.Stats.{StatsSnapshot}
use proxybear.App.Tray.Bytes.{format_bytes}

-- The items whose text or mark changes.
pub record TrayMenu : Type 0 where
  pub status : Text
  pub stats : Text
  pub config : Text
  pub start_stop : Text
  pub autostart : Bool
  pub auto_connect : Bool

pub record MenuPresenter : Type 0 where
  pub last_status : Text
  pub last_stats : Text
  pub last_config : Text
  pub last_start_stop : Text
  pub last_autostart : Bool
  pub last_auto_connect : Bool

abbrev pub default : MenuPresenter
default = record {
  last_status = [];
  last_stats = [];
  last_config = [];
  last_start_stop = [];
  last_autostart = false;
  last_auto_connect = false;
}

-- `TrayMenu::new`, where the system tells whether the application starts with the session.
unfoldable pub new_menu : Bool → Bool → TrayMenu
new_menu enabled auto_connect = record {
  status = codes "Status: Stopped";
  stats = codes "up 0 B, down 0 B";
  config = codes "No server configured";
  start_stop = codes "Start Proxy";
  autostart = enabled;
  auto_connect = auto_connect;
}

-- `to_string` of `std::net::SocketAddr`.
unfoldable pub socket_text : IpText → IpAddr → ℕ → Text
socket_text ips (v4 a b c d) port = ips.print (v4 a b c d) ++ (codes ":" ++ to_decimal port)
socket_text ips (v6 octets) port =
    codes "[" ++ (ips.print (v6 octets) ++ (codes "]:" ++ to_decimal port))

unfoldable pub status_text : Option Text → Text → Text
status_text none status = codes "Status: " ++ status
status_text (some e) status = e ++ (codes " | Status: " ++ status)

unfoldable pub stats_summary : StatsSnapshot → Text
stats_summary s =
    codes "up " ++ (format_bytes s.bytes_up ++ (codes ", down " ++ format_bytes s.bytes_down))

unfoldable pub config_summary : IpText → AppConfig → Text
unfolding socket_text
config_summary ips c =
    if is_empty c.server
    then codes "No server configured"
    else c.username
      ++ (codes "@"
          ++ (c.server
              ++ (codes ":"
                  ++ (to_decimal c.port
                      ++ (codes " -> " ++ socket_text ips c.local_addr.ip c.local_addr.port)))))

abbrev pub start_stop_text : Bool → Text
start_stop_text running = if running then codes "Stop Proxy" else codes "Start Proxy"

-- An item's text and the text that was set last: the item is set only if the text is another.
unfoldable pub set_menu_text : Text → Text → Text → Text × Text
set_menu_text item cached next = if text_eq next cached then (item, cached) else (next, next)

-- The same for a check mark.
unfoldable pub set_mark : Bool → Bool → Bool → Bool × Bool
set_mark item true true = (item, true)
set_mark item true false = (false, false)
set_mark item false true = (true, true)
set_mark item false false = (item, false)

unfoldable pub update_tray :
    IpText → AppConfig → StatsSnapshot → Bool → MenuPresenter × TrayMenu → MenuPresenter × TrayMenu
unfolding status_text stats_summary config_summary set_menu_text set_mark
update_tray ips c s running (p, t) =
    let (status, last_status) =
      set_menu_text t.status p.last_status (status_text s.last_error s.status) in
    let (stats, last_stats) = set_menu_text t.stats p.last_stats (stats_summary s) in
    let (config, last_config) = set_menu_text t.config p.last_config (config_summary ips c) in
    let (start_stop, last_start_stop) =
      set_menu_text t.start_stop p.last_start_stop (start_stop_text running) in
    let (autostart, last_autostart) = set_mark t.autostart p.last_autostart c.autostart in
    let (auto_connect, last_auto_connect) =
      set_mark t.auto_connect p.last_auto_connect c.auto_connect in
    (
      record {
        last_status = last_status;
        last_stats = last_stats;
        last_config = last_config;
        last_start_stop = last_start_stop;
        last_autostart = last_autostart;
        last_auto_connect = last_auto_connect;
      },
      record {
        status = status;
        stats = stats;
        config = config;
        start_stop = start_stop;
        autostart = autostart;
        auto_connect = auto_connect;
      },
    )

-- The items with a check mark. The menu's library toggles the mark of such an item by itself when it is
-- clicked, whatever then becomes of the setting.
pub data CheckItem : Type 0 where
  autostart auto_connect : CheckItem

unfoldable pub toggle_mark : CheckItem → TrayMenu → TrayMenu
toggle_mark autostart t = record t { autostart = not t.autostart }
toggle_mark auto_connect t = record t { auto_connect = not t.auto_connect }
