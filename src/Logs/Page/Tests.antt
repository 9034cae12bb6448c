-- ===== src/Logs/Page/Tests.antt =====
-- Lines of the log that the page shows, for src/settings/view/logs.rs.
use proxybear.Base.{◌≡◌, ◌↔◌, ◌≤◌, refl, true, codes, Text}
use proxybear.Base.Trim.{is_whitespace}
use proxybear.Base.Search.{StandsIn}
use proxybear.Config.{info}
use proxybear.Logs.Page.{LogView, warnings, is_visible, query}
use proxybear.Logs.Page.Shown.{log_line, verbosity, limit, is_visible-log_line}

-- The letters of the samples are in lower case, but for those of the levels.
abbrev lower : Text → Text
lower s = s

abbrev searching : LogView
searching = record { log_query = codes " bear"; log_filter = warnings }

is_visible-log_line_example :
    (is_visible lower searching (log_line (codes "12:00") 1 info (codes "bear: up")) ≡ true) ↔ (
      (verbosity info ≤ limit warnings)
      × StandsIn
          (query lower searching)
          (lower (log_line (codes "12:00") 1 info (codes "bear: up"))))
unfolding is_whitespace
is_visible-log_line_example =
    is_visible-log_line lower searching (codes "12:00") 1 info (codes "bear: up")
      (refl, (refl, (refl, (refl, (refl, tt)))))
