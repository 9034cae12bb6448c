-- ===== src/App/Tray/Tests.antt =====
-- A menu over a start of the proxy, and a number of bytes.
use proxybear.Base.{ℕ, ◌≡◌, ◌⊎◌, ◌<◌, refl, true, false, none, some, [], ◌∷◌, ◌++◌, codes, arith}
use proxybear.Base.Decimal.{to_decimal}
use proxybear.Net.Samples.{tagged}
use proxybear.Config
use proxybear.Config.{AppConfig}
use proxybear.Stats.{StatsSnapshot}
use proxybear.App.Tray
use proxybear.App.Tray.{new_menu, autostart, auto_connect}
use proxybear.App.Tray.Bytes.{format_bytes, Printed, format_bytes-Printed}
use proxybear.App.Tray.Shows.{
  View, menu_of, updated, clicked, menu_steps, odd_clicks, menu_steps-menu_of,
}

abbrev idle : StatsSnapshot
idle = record {
  ssh_connected = false;
  bytes_up = 0;
  bytes_down = 0;
  status = codes "Stopped";
  last_error = none;
  host_key_prompt = none;
}

abbrev before : View
before = record { config = Config.default (codes "bear"); stats = idle; running = false }

abbrev after : View
after = record before {
  stats = record idle { status = codes "Listening"; last_error = some (codes "refused") };
  running = true;
}

-- A click that changes nothing, and one whose setting is stored.
abbrev stored : View
stored = record after { config = record after.config { auto_connect = true } }

menu_steps-menu_of_example :
    (menu_steps tagged
      (updated before ∷ clicked autostart ∷ clicked auto_connect ∷ updated stored ∷ [])
      (Tray.default, new_menu false false)).1
    ≡ record (menu_of tagged stored) { autostart = true }
unfolding Config.default odd_clicks
menu_steps-menu_of_example =
    menu_steps-menu_of tagged before
      (clicked autostart ∷ clicked auto_connect ∷ updated stored ∷ []) false false refl refl

format_bytes-Printed_example :
    ((1500 < 1024) × (format_bytes 1500 ≡ to_decimal 1500 ++ codes " B"))
    ⊎ ((u : ℕ) × (0 < u) × Printed 1500 u)
format_bytes-Printed_example = format_bytes-Printed 1500 (omega arith)
