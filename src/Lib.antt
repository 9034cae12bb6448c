-- ===== src/Lib.antt =====
-- ProxyBear: a SOCKS5 proxy over SSH with a tray icon and a settings window.
--
-- The program's parts, and the files that model them:
--
-- * src/app/stats.rs, the figures that the proxy shares with the user interface: Stats.antt. A call of
--   the notifier is counted in `changes`.
-- * src/config/mod.rs, the settings and the configuration of a run: Config.antt; the configuration file:
--   Config/Store.antt, over an interface `Toml` for the file's format; the start with the session:
--   Config/Autostart.antt, over an interface `AutoLaunch` for the library; src/config/keychain.rs, the
--   secrets: Config/Keychain.antt.
-- * src/settings/mod.rs, the form of the settings window: Settings/Form.antt. `apply_to_config` passes
--   the configuration along, so that what it has changed before it fails is seen.
-- * src/app/proxy_control.rs, the start and the stop of the proxy task: App/Controller.antt; the tasks
--   that it spawns: App/Controller/Tasks.antt.
-- * src/proxy/pool.rs, the SSH sessions that the clients share: Proxy/Pool.antt (sessions, slots, leases,
--   statuses), Proxy/Pool/Channel.antt (`acquire`, `open_channel`), Proxy/Supervise.antt (`supervise`),
--   and Proxy/System.antt (all tasks together, as steps that interleave in any order). A shared
--   `Arc<Session>` is the index of a session in the pool's store; a `Lease` is the index of the session
--   it counts on.
-- * src/proxy/socks.rs, the handshake with a client: Proxy/Socks.antt.
-- * src/proxy/tunnel.rs, the copying between a client and its channel: Proxy/Tunnel.antt.
-- * src/proxy/ssh.rs, connecting and authenticating a session: Proxy/Ssh.antt, over what the SSH library
--   answers.
-- * src/proxy/mod.rs, `handle_client`, which joins these: Proxy/Client.antt; `run_proxy`, the accept loop
--   and the end of all tasks: Proxy/Run.antt, over the tasks of Proxy/System.antt.
-- * src/main.rs, the application: App/Bear.antt (its state, and the routines that the handlers share),
--   App/Bear/Handlers.antt (`handle_field`, `handle_menu`, `trust_host_key`), App/Bear/Events.antt (the
--   windows, the end of a task, and all events as steps). What the operating system answers, such as
--   whether a file could be written, is the argument `Outside` of every step.
--   How the application is made, what it does first and what it does last: App/Launch.antt, over what
--   the libraries answer when they are set up. The background task that follows the log, with the
--   notice of src/app/logging.rs that wakes it: Logs/Watch.antt.
-- * src/app/tray.rs, the entries of the menu and their actions: App/Tray/Menu.antt; the icon, which may
--   fail to be set: App/Icon.antt.
-- * src/app/presentation.rs, the texts and marks of the menu of src/app/tray.rs: App/Tray.antt, and
--   App/Tray/Bytes.antt for `format_bytes`.
-- * src/settings/view.rs, the text inputs of the settings window and their exchange with the form:
--   App/View.antt; the state beside the pages and the card that asks about a key: App/View/Status.antt;
--   which buttons src/settings/view/connection.rs enables, and its message: App/View/Pages.antt; what
--   src/settings/view/general.rs shows: App/View/General.antt. The rows and the controls of all pages,
--   with what a click on each of them sends: App/Window.antt and App/Window/Pages.antt.
-- * src/settings/view/logs.rs, the lines that pass the filter and the search, and the rows of the page:
--   Logs/Page.antt.
-- * src/app/logging.rs, the file that the log is written to: Logs/Writer.antt, over a disk whose files
--   outlive their names.
-- * src/settings/log_tail.rs, the lines of the log that the window shows: Logs/Tail.antt, over what the
--   file system answers.
--
-- Base.antt holds what they share: texts as lists of character codes, results with a chain of causes,
-- trimming, decimal numbers and UTF-8. Net.antt holds addresses, whose printing and parsing is the
-- interface `IpText`.
--
-- Numbers are natural numbers; a counter of 64 bits is written with its wrap-around. Loops are recursion
-- on lists, or on a fixed number of attempts. `refresh_stats` and `open_settings` of src/main.rs call each
-- other; the model bounds this by one nested call, and App/Bear/Background.antt compares larger bounds.
-- What a task awaits is an argument: the events of a supervisor, the answers of a server, the changes
-- that other tasks make in the meantime.
--
-- Not modelled: what only calls other libraries: the layout and the colours of the window, how the tray and its
-- icons are made, and the updater. The figures of the notifier's channel and of the menu's are left out:
-- an event comes whenever the other side takes it.
pub mod Base
pub mod Stats
pub mod Net
pub mod Config
pub mod Settings
pub mod App
pub mod Proxy
pub mod Logs
