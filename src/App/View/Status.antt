-- ===== src/App/View/Status.antt =====
-- What the proxy is doing, as src/settings/view.rs shows it beside the pages, and the card of
-- src/settings/view/general.rs that asks about a server's key.
use proxybear.Base.{not, Bool, Option, Text, codes, ◌++◌, if◌then◌else◌, ◌≡◌, ◌↔◌, arith}
use proxybear.Stats.{StatsSnapshot, HostKeyPrompt}
use proxybear.App.Icon.{happy}
use proxybear.App.Bear.{is_some, icon_state, clean}
use proxybear.App.Bear.Handlers.{SettingsField, reject_host_key, trust_host_key}
use proxybear.App.Tray.Bytes.{format_bytes}

pub data ConnectionState : Type 0 where
  stopped connecting connected failed : ConnectionState

-- `ConnectionState::of`.
unfoldable pub state_of : StatsSnapshot → Bool → ConnectionState
state_of s running =
    if is_some s.last_error
    then failed
    else if not running
    then stopped
    else if s.ssh_connected
    then connected
    else connecting

unfoldable pub label : ConnectionState → Text
label stopped = codes "Stopped"
label connecting = codes "Connecting…"
label connected = codes "Connected"
label failed = codes "Error"

-- The names of the toolkit's pictures.
pub data IconName : Type 0 where
  pause loader_circle circle_check triangle_alert : IconName

unfoldable pub icon : ConnectionState → IconName
icon stopped = pause
icon connecting = loader_circle
icon connected = circle_check
icon failed = triangle_alert

-- A colour of the theme.
pub data Tone : Type 0 where
  danger warning success foreground muted : Tone

unfoldable pub color : ConnectionState → Tone
color stopped = muted
color connecting = warning
color connected = success
color failed = danger

unfoldable pub traffic : StatsSnapshot → Text
traffic s = codes "↑ " ++ (format_bytes s.bytes_up ++ (codes "   ↓ " ++ format_bytes s.bytes_down))

-- The card: its texts, the key that was trusted before, the key that is asked about, and what the two
-- buttons do.
pub record PromptCard : Type 0 where
  pub tone : Tone
  pub title : Text
  pub body : Text
  pub trusted_key : Option Text
  pub key_label : Text
  pub fingerprint : Text
  pub trust_label : Text
  pub trust : SettingsField
  pub reject : SettingsField

abbrev changed_body : Text → Text
changed_body server =
    codes "The host key of "
    ++ (server
        ++ (codes
              " differs from the one you trusted. Servers get new keys when they are reinstalled, "
            ++ (codes "but this can also mean someone is intercepting the connection. "
                ++ codes "Only trust the new key if you know why it changed.")))

abbrev first_body : Text → Text
first_body server =
    codes "This is the first connection to "
    ++ (server
        ++ (codes ". Check that the fingerprint matches the server's key, for example with "
            ++ codes "ssh-keygen -lf on the server's /etc/ssh/ssh_host_*_key.pub."))

unfoldable pub host_key_prompt : HostKeyPrompt → Bool → PromptCard
host_key_prompt p running =
    let changed = is_some p.previous in
    record {
      tone = if changed then danger else warning;
      title = if changed then codes "Server identity changed" else codes "Verify server identity";
      body = if changed then changed_body p.server else first_body p.server;
      trusted_key = p.previous;
      key_label = if changed then codes "New key" else codes "Fingerprint";
      fingerprint = p.fingerprint;
      trust_label =
          if changed
          then codes "Trust New Key"
          else if running
          then codes "Trust and Connect"
          else codes "Trust";
      trust = trust_host_key;
      reject = reject_host_key;
    }

-- The icon of the menu bar is the happy one exactly if the window says that the proxy is connected.
pub icon_state-Connected :
    (s : StatsSnapshot) (running : Bool)
    → (icon_state running (clean s) ≡ happy) ↔ (state_of s running ≡ connected)
unfolding icon_state state_of
icon_state-Connected s running = ground arith
