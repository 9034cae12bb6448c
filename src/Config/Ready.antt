-- ===== src/Config/Ready.antt =====
-- Which settings a run may start with: `runtime_config` of src/config/mod.rs.
use proxybear.Base.{◌≤◌, ◌≡◌, ◌≢◌, ◌↔◌, Option, [], Text, ok, arith}
use proxybear.Base.Trim.{trim}
use proxybear.Config.{key, AppConfig, ready_config, runtime_config, max_pool_size}

-- What a run needs of its settings.
pub record IsReady (c : AppConfig) : Type 0 where
  pub server : trim c.server ≢ []
  pub username : trim c.username ≢ []
  pub key_path : c.auth_method ≡ key → trim c.key_path ≢ []
  pub lower : 1 ≤ c.pool_size
  pub upper : c.pool_size ≤ max_pool_size

-- The checks pass exactly on the settings that a run needs.
pub runtime_config-ok :
    (home : Option Text) (c : AppConfig)
    → (runtime_config home c ≡ ok (ready_config home c)) ↔ IsReady c
unfolding runtime_config
runtime_config-ok home c = ground arith
