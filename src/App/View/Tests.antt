-- ===== src/App/View/Tests.antt =====
-- What the pages show and offer, for src/settings/view/.
use proxybear.Base.{◌≡◌, ◌↔◌, true, ok, refl, some, none, codes}
use proxybear.App.Bear.{save_config_state, ProxyBear, save_settings}
use proxybear.App.Bear.Samples.{willing, bear}
use proxybear.App.Bear.Handlers.{start}
use proxybear.App.Controller.{is_running}
use proxybear.App.View.Pages.{connection_page, action, can_start-action}
use proxybear.Stats.{HostKeyPrompt}
use proxybear.Base.Trim.{trim, trim_start, trim_end, is_whitespace}
use proxybear.Net.Samples
use proxybear.Settings.Form.{
  apply_to_config, parse_port, parse_pool_size, in_pool_range, parse_local_addr, from_config,
}
use proxybear.Config
use proxybear.Base.Decimal.{to_decimal, digits, parse_uint, parse_digits}
use proxybear.App.Bear.Handlers.{handle_field}
use proxybear.App.View.Status.{host_key_prompt}
use proxybear.App.View.General.{general_page}
use proxybear.App.View.Asked.{trust-shown, exposed-saved}

-- The form of a first start, with a key chosen.
abbrev complete : ProxyBear
complete = record bear { form = record bear.form { key_path = codes "~/.ssh/id" } }

can_start-action_example : ((connection_page willing complete).can_start ≡ true) ↔ (
    ((save_settings willing complete).1 ≡ ok tt)
    × (action willing (save_settings willing complete).0 ≡ start))
unfolding is_running
can_start-action_example = can_start-action willing complete ((λ c. refl), (λ c d. refl)) refl

-- The page still shows the card of one key when the figures already ask about another.
abbrev shown_prompt : HostKeyPrompt
shown_prompt = record {
  server = codes "example.org:22";
  fingerprint = codes "SHA256:old";
  previous = none;
}

abbrev live_prompt : HostKeyPrompt
live_prompt = record shown_prompt { fingerprint = codes "SHA256:new" }

abbrev outrun : ProxyBear
outrun = record bear {
  stats = record bear.stats { host_key_prompt = some live_prompt };
  stats_snapshot = record bear.stats_snapshot { host_key_prompt = some shown_prompt };
}

trust-shown_example :
    let card = host_key_prompt shown_prompt (is_running outrun.proxy) in
    ((general_page willing outrun).prompt ≡ some card)
    × (((handle_field willing card.trust outrun).config.host_fingerprint ≡ some card.fingerprint)
        ↔ (live_prompt.fingerprint ≡ shown_prompt.fingerprint))
unfolding to_decimal digits Config.default
trust-shown_example = trust-shown willing outrun shown_prompt live_prompt refl refl refl refl

complete_saved : (save_settings willing complete).1 ≡ ok tt
unfolding save_settings save_config_state apply_to_config parse_port parse_pool_size in_pool_range
    parse_local_addr from_config Samples.print Samples.parse trim trim_start trim_end is_whitespace
    to_decimal digits parse_uint parse_digits Config.default
complete_saved = refl

exposed-saved_example :
    (general_page willing (save_settings willing complete).0).exposed
    ≡ (connection_page willing complete).exposed
exposed-saved_example = exposed-saved willing complete complete_saved
