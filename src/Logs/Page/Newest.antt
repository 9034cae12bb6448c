-- ===== src/Logs/Page/Newest.antt =====
-- The order in which the page of src/settings/view/logs.rs shows the lines of the log.
use mathlib.Core.List.{reverse, reverse-cons}
use proxybear.Base.{
  ℕ, suc, ◌≡◌, ◌∙◌, refl, ap, List, [], ◌∷◌, ◌++◌, Text, filter, map, append_assoc, append-nil, sym,
}
use proxybear.App.Bear.{ProxyBear}
use proxybear.Logs.Tail.{new}
use proxybear.Logs.Tail.Window.{last_lines}
use proxybear.Logs.Tail.Follow.{Change, AreLegal, follow, after, lines_of, follow-last_lines}
use proxybear.Logs.Page.{
  LogView, LogRow, is_visible, visible_log_lines, rows_from, log_page, line_tone, line_level,
}

texts : List LogRow → List Text
texts rows = map (λ (r : LogRow). r.text) rows

rows_from-texts :
    (n : ℕ) (ls : List Text) (behind : List LogRow)
    → texts (rows_from n ls behind) ≡ reverse ls ++ texts behind
unfolding rows_from texts
rows_from-texts n [] behind = refl
rows_from-texts n (l ∷ ls) behind =
    rows_from-texts (suc n) ls
      (record { entry = n; text = l; tone = line_tone (line_level l) } ∷ behind)
    ∙ sym (
        ap (λ z. z ++ texts behind) (reverse-cons l ls)
        ∙ append_assoc (reverse ls) (l ∷ []) (texts behind))

-- Where the window has the last lines of the file, as `follow-last_lines` says, the page shows those of
-- them that pass the filter and the search, the newest first.
pub log_page-reverse :
    (lower : Text → Text) (v : LogView) (a : ProxyBear) (cs : List Change)
    → AreLegal [] cs
    → map (λ (r : LogRow). r.text) (log_page lower v (follow cs [] new) a).rows
      ≡ reverse (filter (is_visible lower v) (last_lines (lines_of (after cs []))))
unfolding log_page visible_log_lines texts
log_page-reverse lower v a cs l =
    rows_from-texts 0 (filter (is_visible lower v) (follow cs [] new).lines) []
    ∙ (append-nil (reverse (filter (is_visible lower v) (follow cs [] new).lines))
        ∙ ap (λ ls. reverse (filter (is_visible lower v) ls)) (follow-last_lines cs l).0)
