-- ===== src/App/Icon.antt =====
-- src/app/tray.rs and src/app/icons.rs: the icon in the menu bar.
use proxybear.Base.{Bool, true, false, ◌≡◌, ◌↔◌, refl, arith, if◌then◌else◌, Result, ok, err, ◌>>◌}

pub data TrayIconState : Type 0 where
  happy unhappy : TrayIconState

abbrev pub state_eq : TrayIconState → TrayIconState → Bool
state_eq happy happy = true
state_eq happy unhappy = false
state_eq unhappy happy = false
state_eq unhappy unhappy = true

-- Whether the picture could be made, and whether it could be set; where not, the icon stays. The state
-- that is remembered is the one that the icon shows.
unfoldable pub set_icon_state :
    Result (Unit {0})
    → Result (Unit {0})
    → TrayIconState
    → TrayIconState
    → TrayIconState × Result (Unit {0})
set_icon_state made set state icon =
    if state_eq icon state
    then (icon, ok tt)
    else elim (made >> set) [ ok u ↦ (state, ok tt) | err e ↦ (icon, err e) ]

state_eq_iff : (s t : TrayIconState) → (state_eq s t ≡ true) ↔ (s ≡ t)
state_eq_iff happy happy = ((λ e. refl), (λ e. refl))
state_eq_iff happy unhappy = ((λ e. cc), (λ e. cc))
state_eq_iff unhappy happy = ((λ e. cc), (λ e. cc))
state_eq_iff unhappy unhappy = ((λ e. refl), (λ e. refl))

-- An update succeeds exactly if the icon then shows the new state.
pub set_icon_state-Shows :
    (made set : Result (Unit {0})) (state icon : TrayIconState)
    → let (icon', r) = set_icon_state made set state icon in (r ≡ ok tt) ↔ (icon' ≡ state)
unfolding set_icon_state
set_icon_state-Shows made set state icon = ground (arith, state_eq_iff icon state)

pub set_icon_state-drawn :
    (made set : Result (Unit {0})) (state icon : TrayIconState)
    → made ≡ ok tt
    → set ≡ ok tt
    → (set_icon_state made set state icon).0 ≡ state
unfolding set_icon_state
set_icon_state-drawn made set state icon m n = ground (arith, state_eq_iff icon state)
