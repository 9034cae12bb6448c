-- ===== src/App/Bear/Handlers.antt =====
-- src/main.rs: the handlers of the menu, of the settings window and of the end of a proxy task. The
-- log file and the updater are seen only by what they answer.
use proxybear.Base.{
  suc, Bool, true, false, not, Option, none, some, ◌++◌, Text, codes, if◌then◌else◌, Result, ok,
  err, chain_text, context, text_eq, ◌>>◌,
}
use proxybear.Base.Decimal.{to_decimal}
use proxybear.Config.{AppConfig, LogLevel, AuthMethod}
use proxybear.Stats.{HostKeyPrompt, snapshot, set_error, set_host_key_prompt}
use proxybear.Settings.Form.{SettingsTab}
use proxybear.App.Controller.{is_running}
use proxybear.App.Bear.{
  ProxyBear, Outside, is_logs, refresh_stats, sync_refresh_tasks, open_settings, start_proxy,
  stop_proxy, save_config_state, save_settings, set_autostart, set_auto_connect, revert_form,
}

pub data MenuAction : Type 0 where
  menu_opened menu_closed start_stop settings toggle_autostart toggle_auto_connect : MenuAction
  check_for_updates quit : MenuAction

pub data SettingsField : Type 0 where
  tab : SettingsTab → SettingsField
  log_level : LogLevel → SettingsField
  server username port pool_size key_path : Text → SettingsField
  auth_method : AuthMethod → SettingsField
  key_password ssh_password local_ip local_port : Text → SettingsField
  autostart auto_connect : Bool → SettingsField
  save save_and_start revert start stop : SettingsField
  forget_host_key trust_host_key reject_host_key : SettingsField
  choose_key open_log : SettingsField
  reveal_log reveal_config : Text → SettingsField
  check_for_updates clear_log : SettingsField

-- Stopping first makes a running proxy pick up new settings; the start waits for the old run.
abbrev pub restart : Outside → ProxyBear → ProxyBear
restart o a = start_proxy o (stop_proxy o a)

abbrev pub set_feedback : Text → ProxyBear → ProxyBear
set_feedback t a = record a { feedback = some t }

abbrev pub show_error : Text → ProxyBear → ProxyBear
show_error t a = record a { stats = set_error t a.stats }

unfoldable pub show_result : Text → Result (Unit {0}) → ProxyBear → ProxyBear
show_result what (ok u) a = a
show_result what (err e) a = show_error (what ++ chain_text e) a

abbrev pub read_log : ProxyBear → ProxyBear
read_log a = record a { log_reads = suc a.log_reads }

-- `SettingsField::LogLevel`; the filter is told only if the file was written.
unfoldable pub set_log_level : Outside → LogLevel → ProxyBear → ProxyBear
set_log_level o level a =
    let (b, r) = save_config_state o (record a.config { log_level = level }) a in
    elim (r >> context (codes "update log level") (o.reload_filter level)) [
      | ok u ↦ b
      | err e ↦ set_feedback (codes "Could not change log level: " ++ chain_text e) b
    ]

unfoldable pub save_field : Outside → Bool → ProxyBear → ProxyBear
save_field o starts a =
    let (b, r) = save_settings o a in
    elim r [
      | err e ↦ refresh_stats o (show_error (chain_text e) b)
      | ok u ↦
          let c = set_feedback (codes "Settings saved.") b in
          refresh_stats o (if starts then restart o c else c)
    ]

unfoldable pub forget : Outside → ProxyBear → ProxyBear
forget o a =
    let (b, r) = save_config_state o (record a.config { host_fingerprint = none }) a in
    elim r [
      | err e ↦ set_feedback (codes "Could not forget host key: " ++ chain_text e) b
      | ok u ↦
          set_feedback
            (if is_running b.proxy
              then codes "Host key forgotten. Restart the proxy to verify the server's current key."
              else codes
                  "Host key forgotten. You will verify the server's key on the next connection.")
            b
    ]

-- `{server}:{port}`.
abbrev pub server_text : AppConfig → Text
server_text c = c.server ++ codes ":" ++ to_decimal c.port

-- The end of `trust_host_key`, by what became of saving the key.
abbrev pub trusted : Outside → ProxyBear × Result (Unit {0}) → ProxyBear
trusted o (a, err e) = show_error (codes "Could not save host key: " ++ chain_text e) a
trusted o (a, ok u) = if is_running a.proxy then restart o a else a

-- `trust_host_key`, for the prompt of the shared figures.
unfoldable pub trust_prompt : Outside → Option HostKeyPrompt → ProxyBear → ProxyBear
trust_prompt o none a = a
trust_prompt o (some prompt) a =
    let b = record a { stats = set_host_key_prompt none a.stats } in
    if not (text_eq prompt.server (server_text b.config))
    then set_feedback (codes "The server settings changed. Connect again to verify.") b
    else trusted o
        (save_config_state o (record b.config { host_fingerprint = some prompt.fingerprint }) b)

unfoldable pub trust : Outside → ProxyBear → ProxyBear
trust o a = trust_prompt o (snapshot a.stats).host_key_prompt a

unfoldable pub reject : Outside → ProxyBear → ProxyBear
reject o a =
    show_error (codes "Stopped because the server's host key was not trusted.")
      (stop_proxy o (record a { stats = set_host_key_prompt none a.stats }))

unfoldable pub choose_key_path : Option Text → ProxyBear → ProxyBear
choose_key_path none a = a
choose_key_path (some path) a = record a { form = record a.form { key_path = path } }

unfoldable pub select_tab : SettingsTab → ProxyBear → ProxyBear
select_tab t a =
    let b = sync_refresh_tasks (record a { active_tab = t }) in if is_logs t then read_log b else b

abbrev finder_error : Text → Text
finder_error path = codes "failed to show " ++ path ++ codes " in Finder: "

unfoldable pub field : Outside → SettingsField → ProxyBear → ProxyBear
field o (tab t) a = select_tab t a
field o (log_level level) a = set_log_level o level a
field o (server v) a = record a { form = record a.form { server = v } }
field o (username v) a = record a { form = record a.form { username = v } }
field o (port v) a = record a { form = record a.form { port = v } }
field o (pool_size v) a = record a { form = record a.form { pool_size = v } }
field o (auth_method v) a = record a { form = record a.form { auth_method = v } }
field o (key_path v) a = record a { form = record a.form { key_path = v } }
field o (key_password v) a = record a { form = record a.form { key_password = v } }
field o (ssh_password v) a = record a { form = record a.form { ssh_password = v } }
field o (local_ip v) a = record a { form = record a.form { local_ip = v } }
field o (local_port v) a = record a { form = record a.form { local_port = v } }
field o (autostart enabled) a = set_autostart o enabled a
field o (auto_connect enabled) a = set_auto_connect o enabled a
field o save a = save_field o false a
field o save_and_start a = save_field o true a
field o revert a = revert_form o a
field o start a = start_proxy o a
field o stop a = stop_proxy o a
field o forget_host_key a = forget o a
field o trust_host_key a = trust o a
field o reject_host_key a = reject o a
field o choose_key a = choose_key_path o.chosen_key a
field o open_log a = show_result (codes "failed to open log file: ") o.open_path a
field o (reveal_log path) a = show_result (finder_error path) o.open_path a
field o (reveal_config path) a = show_result (finder_error path) o.open_path a
field o check_for_updates a = a
field o clear_log a = show_result (codes "failed to clear log: ") o.clear_log a

unfoldable pub handle_field : Outside → SettingsField → ProxyBear → ProxyBear
handle_field o f a = field o f (record a { feedback = none })

unfoldable pub menu : Outside → MenuAction → ProxyBear → ProxyBear
menu o menu_opened a = record a { menu_open = true }
menu o menu_closed a = record a { menu_open = false }
menu o start_stop a = if is_running a.proxy then stop_proxy o a else start_proxy o a
menu o settings a = open_settings o a
menu o toggle_autostart a = set_autostart o (not a.config.autostart) a
menu o toggle_auto_connect a = set_auto_connect o (not a.config.auto_connect) a
menu o check_for_updates a = a
menu o quit a = record (stop_proxy o a) { quit = true }

unfoldable pub handle_menu : Outside → MenuAction → ProxyBear → ProxyBear
handle_menu o action a = refresh_stats o (menu o action a)
