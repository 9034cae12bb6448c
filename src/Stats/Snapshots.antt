-- ===== src/Stats/Snapshots.antt =====
-- The derived `==` on the snapshots of src/app/stats.rs.
use proxybear.Base.{
  ◌≡◌, refl, Bool, true, false, ◌&&◌, arith, text_eq, text_eq_iff, option_text_eq,
  option_text_eq_iff, ◌==◌,
}
use proxybear.Stats.{StatsSnapshot, option_prompt_eq}
use proxybear.Stats.Notify.{option_prompt_eq_iff}

abbrev pub bool_eq : Bool → Bool → Bool
bool_eq true true = true
bool_eq true false = false
bool_eq false true = false
bool_eq false false = true

unfoldable pub snapshot_eq : StatsSnapshot → StatsSnapshot → Bool
snapshot_eq s t =
    bool_eq s.ssh_connected t.ssh_connected
    && (s.bytes_up == t.bytes_up)
    && (s.bytes_down == t.bytes_down)
    && text_eq s.status t.status
    && option_text_eq s.last_error t.last_error
    && option_prompt_eq s.host_key_prompt t.host_key_prompt

bool_eq→eq : (a b : Bool) → bool_eq a b ≡ true → a ≡ b
bool_eq→eq true true h = refl
bool_eq→eq true false h = cc
bool_eq→eq false true h = cc
bool_eq→eq false false h = refl

pub snapshot_eq→eq : (s t : StatsSnapshot) → snapshot_eq s t ≡ true → s ≡ t
unfolding snapshot_eq
snapshot_eq→eq s t = grind (
  arith,
  bool_eq→eq s.ssh_connected t.ssh_connected,
  text_eq_iff s.status t.status,
  option_text_eq_iff s.last_error t.last_error,
  option_prompt_eq_iff s.host_key_prompt t.host_key_prompt,
)
