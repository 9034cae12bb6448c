-- ===== src/Logs/Page.antt =====
-- src/settings/view/logs.rs: which lines of the log the window shows, and what it says of them.
-- `str::to_lowercase`, which goes by tables of Unicode, is the argument `lower`.
pub mod Shown
pub mod Newest
mod Tests
use proxybear.Base.{
  ℕ, zero, suc, ◌+◌, Bool, true, false, not, ◌&&◌, ◌||◌, Option, none, some, List, [], ◌∷◌, ◌++◌,
  Text, codes, length, filter, any, get_elem?, text_eq, is_empty, join, if◌then◌else◌,
}
use proxybear.Base.Decimal.{to_decimal}
use proxybear.Base.Trim.{trim}
use proxybear.Base.Search.{split_whitespace, contains}
use proxybear.Config.{LogLevel, error, warn, info, debug, trace}
use proxybear.Logs.Tail.{LogTail}
use proxybear.App.Bear.{ProxyBear}
use proxybear.App.View.Status.{Tone, danger, warning}

pub data LineFilter : Type 0 where
  all warnings errors : LineFilter

-- The level column of a line, `<timestamp> <LEVEL> <target>: ...`.
unfoldable pub line_level : Text → Option Text
line_level line = get_elem? (split_whitespace line) 1

unfoldable pub less_severe : LineFilter → List Text
less_severe all = []
less_severe warnings = codes "INFO" ∷ codes "DEBUG" ∷ codes "TRACE" ∷ []
less_severe errors = codes "WARN" ∷ codes "INFO" ∷ codes "DEBUG" ∷ codes "TRACE" ∷ []

abbrev pub is_none_or : Option Text → (Text → Bool) → Bool
is_none_or none p = true
is_none_or (some a) p = p a

unfoldable pub shows : LineFilter → Text → Bool
unfolding line_level less_severe
shows f line = is_none_or (line_level line) (λ level. not (any (text_eq level) (less_severe f)))

-- What the user has chosen on the page, which only the window keeps.
pub record LogView : Type 0 where
  pub log_query : Text
  pub log_filter : LineFilter

abbrev pub default_view : LogView
default_view = record { log_query = []; log_filter = all }

unfoldable pub query : (Text → Text) → LogView → Text
query lower v = lower (trim v.log_query)

unfoldable pub is_visible : (Text → Text) → LogView → Text → Bool
unfolding shows query
is_visible lower v line =
    shows v.log_filter line && (is_empty (query lower v) || contains (lower line) (query lower v))

-- Oldest first.
unfoldable pub visible_log_lines : (Text → Text) → LogView → LogTail → List Text
unfolding is_visible
visible_log_lines lower v t = filter (is_visible lower v) t.lines

-- The text for the clipboard, and the application with its message.
unfoldable pub copy_log_lines : (Text → Text) → LogView → LogTail → ProxyBear → Text × ProxyBear
unfolding visible_log_lines
copy_log_lines lower v t a =
    let lines = visible_log_lines lower v t in
    (
      join (codes "\n") lines,
      record a {
        feedback = some (codes "Copied " ++ (to_decimal (length lines) ++ codes " lines."));
      },
    )

-- The colour of a line by its level.
unfoldable pub line_tone : Option Text → Option Tone
line_tone none = none
line_tone (some level) =
    if text_eq level (codes "ERROR")
    then some danger
    else if text_eq level (codes "WARN")
    then some warning
    else none

pub record LogRow : Type 0 where
  pub entry : ℕ
  pub text : Text
  pub tone : Option Tone

-- `lines.into_iter().enumerate().rev()`, the rows behind those that are given.
unfoldable pub rows_from : ℕ → List Text → List LogRow → List LogRow
unfolding line_tone line_level
rows_from n [] behind = behind
rows_from n (line ∷ lines) behind =
    rows_from (suc n) lines
      (record { entry = n; text = line; tone = line_tone (line_level line) } ∷ behind)

pub record LogPage : Type 0 where
  pub header : Text
  pub level : LogLevel
  pub filter : LineFilter
  pub feedback : Option Text
  pub error : Option Text
  pub empty : Option Text
  pub rows : List LogRow

abbrev or_else : Option Text → Option Text → Option Text
or_else none next = next
or_else (some x) next = some x

unfoldable pub log_page : (Text → Text) → LogView → LogTail → ProxyBear → LogPage
unfolding visible_log_lines rows_from
log_page lower v t a =
    let lines = visible_log_lines lower v t in
    record {
      header = t.status ++ codes " · newest first";
      level = a.config.log_level;
      filter = v.log_filter;
      feedback = a.feedback;
      error = or_else t.error a.stats_snapshot.last_error;
      empty =
          if is_empty lines
          then some (
              if is_empty t.lines
              then codes "No log entries yet at the selected level."
              else codes "No entries match.")
          else none;
      rows = rows_from 0 lines [];
    }
