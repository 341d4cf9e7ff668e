-- ===== src/Pool/Config.antt =====
-- `Config` of pool/pool.go. Durations are in nanoseconds.
use revdial.Common.{ℕ, ◌*◌, ℤ, pos, ltb_ℤ, leb_ℤ, is_zero, Result, ok, err, if◌then◌else◌}

pub record Config : Type 0 where
  pub min_connections : ℤ
  pub max_connections : ℤ
  pub scale_up_threshold : ℤ
  pub scale_down_threshold : ℤ
  pub latency_threshold : ℤ
  pub scale_cooldown : ℤ
  pub monitor_interval : ℤ

abbrev millisecond : ℕ
millisecond = 1000000

abbrev second : ℕ
second = 1000 * millisecond

abbrev pub default_config : Config
default_config = record {
  min_connections = pos 1;
  max_connections = pos 10;
  scale_up_threshold = pos 800;
  scale_down_threshold = pos 200;
  latency_threshold = pos (100 * millisecond);
  scale_cooldown = pos (30 * second);
  monitor_interval = pos (10 * second);
}

-- The errors of the pool and of its connections.
pub data PoolError : Type 0 where
  thresholds_crossed at_capacity not_in_pool no_connections : PoolError
  already_at_maximum no_factory factory_failed already_at_minimum nothing_to_remove : PoolError
  connection_closed stream_failed close_failed : PoolError

abbrev pub at_least : ℤ → ℤ → ℤ
at_least low z = if ltb_ℤ z low then low else z

abbrev pub or_default : ℤ → ℤ → ℤ
or_default d z = if is_zero z then d else z

-- What is in force before the thresholds are compared.
unfoldable pub with_limits : Config → Config
with_limits c =
    let least : ℤ = at_least (pos 1) c.min_connections in
    record c {
      min_connections = least;
      max_connections = at_least least c.max_connections;
      scale_up_threshold = or_default (pos 800) c.scale_up_threshold;
      scale_down_threshold = or_default (pos 200) c.scale_down_threshold;
    }

unfoldable pub with_intervals : Config → Config
with_intervals c = record c {
  scale_cooldown = or_default (pos (30 * second)) c.scale_cooldown;
  monitor_interval = or_default (pos (10 * second)) c.monitor_interval;
}

-- `Validate` fills the configuration in, and keeps what it filled in where it fails.
unfoldable pub validate : Config → Result PoolError (Unit {0}) × Config
unfolding with_limits with_intervals
validate c =
    let limited : Config = with_limits c in
    if leb_ℤ limited.scale_up_threshold limited.scale_down_threshold
    then (err thresholds_crossed, limited)
    else (ok tt, with_intervals limited)
