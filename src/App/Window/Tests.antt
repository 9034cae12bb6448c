-- ===== src/App/Window/Tests.antt =====
-- A window in which the user goes to the connection page, types there, and clicks.
use proxybear.Base.{none, false, List, [], ◌∷◌, codes}
use proxybear.App.Bear.Samples.{willing, bear}
use proxybear.App.Bear.{Outside}
use proxybear.App.View
use proxybear.App.View.{server}
use proxybear.App.View.InSync.{InSync}
use proxybear.App.Bear.Handlers.{start_stop}
use proxybear.App.Window.Pages.{Fixed}
use proxybear.App.Window.Clicks.{
  Act, typed, clicked, chosen, task_over, window_steps, window-InSync,
}
use proxybear.Logs.Page.{all}

abbrev built : Fixed
built = record {
  version = codes "1.0.0";
  updates = false;
  config_path = codes "config.toml";
  log_path = codes "proxybear.log";
  log_status = codes "No log file yet";
  log_filter = all;
}

-- The second place of the sidebar leads to the connection page.
abbrev some_acts : List (Outside × Act)
some_acts =
    (willing, clicked 1)
    ∷ (willing, typed server (codes "other.org"))
    ∷ (willing, chosen start_stop)
    ∷ (willing, clicked 5)
    ∷ (willing, task_over none)
    ∷ []

window-InSync_example : InSync (window_steps built some_acts (View.new bear.form, bear))
window-InSync_example = window-InSync built some_acts bear
