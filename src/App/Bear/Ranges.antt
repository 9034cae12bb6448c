-- ===== src/App/Bear/Ranges.antt =====
-- The numbers in the settings of src/main.rs stay within their types.
use proxybear.Base.{ℕ, ◌≤◌, sym, subst, List, [], ◌∷◌, inl, inr, arith}
use proxybear.Base.Decimal.{u16_max}
use proxybear.Config.{AppConfig, max_pool_size}
use proxybear.App.Bear.{ProxyBear, Outside}
use proxybear.App.Bear.Events.{Event, step, run}
use proxybear.App.Bear.Writes.{Within, KeepsRanges}
use proxybear.App.Bear.Trust.{step-Writes}

-- Both ports have 16 bits, and there is room for the sessions in a pool.
pub record Fits (c : AppConfig) : Type 0 where
  pub port : c.port ≤ u16_max
  pub local_port : c.local_addr.port ≤ u16_max
  pub pool_size : c.pool_size ≤ max_pool_size

Within-le : (least most old new : ℕ) → Within least most old new → old ≤ most → new ≤ most
Within-le least most old new (inl e) h = omega (arith, e)
Within-le least most old new (inr k) h = k.1

KeepsRanges-Fits : (c d : AppConfig) → KeepsRanges c d → Fits c → Fits d
KeepsRanges-Fits c d k h = record {
  port = Within-le _ _ _ _ k.0 h.port;
  local_port = Within-le _ _ _ _ k.1 h.local_port;
  pool_size = Within-le _ _ _ _ k.2 h.pool_size;
}

step-Fits : (o : Outside) (e : Event) (a : ProxyBear) → Fits a.config → Fits (step o e a).config
step-Fits o e a h = elim (step-Writes o e a) [
  | inl k ↦ subst Fits (sym k.0) h
  | inr w ↦ KeepsRanges-Fits a.config _ w.3 h
]

-- Any events, whatever the system answers and the user types, preserve that the numbers in the settings
-- fit: both ports into 16 bits, and the number of sessions into a pool.
pub run-Fits :
    (es : List (Outside × Event)) (a : ProxyBear) → Fits a.config → Fits (run es a).config
unfolding run
run-Fits [] a h = h
run-Fits ((o, e) ∷ es) a h = run-Fits es (step o e a) (step-Fits o e a h)
