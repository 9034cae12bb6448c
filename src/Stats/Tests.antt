-- ===== src/Stats/Tests.antt =====
-- Updates of the shared figures.
use proxybear.Base.{arith, ◌≡◌, [], ◌∷◌}
use proxybear.Stats.{default}
use proxybear.Stats.Notify.{connected, up, down, apply_all, apply_all-bytes}

apply_all-bytes_example : (apply_all (up 7 ∷ connected ∷ down 5 ∷ up 4 ∷ []) default).bytes_up ≡ 11
unfolding default
apply_all-bytes_example =
    (apply_all-bytes (up 7 ∷ connected ∷ down 5 ∷ up 4 ∷ []) default (omega arith, omega arith)).0
