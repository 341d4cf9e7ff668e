-- ===== src/Pool/Scaler.antt =====
-- pool/scaler.go. The clock is monotonic and counts nanoseconds, so that `time.Since` is a difference.
use revdial.Common.{ℕ, ◌-◌, ℤ, pos, ltb_ℤ, is_zero, ◌/ℤ◌, Bool, ◌&&◌, ◌||◌, if◌then◌else◌}
use revdial.Pool.Config.{Config}
use revdial.Pool.Metrics.{Metrics, connection_count, active_streams, avg_latency}

pub data ScaleAction : Type 0 where
  scale_none scale_up scale_down : ScaleAction

pub record AutoScaler : Type 0 where
  pub config : Config
  pub last_scale_time : ℕ

abbrev pub new_auto_scaler : Config → ℕ → AutoScaler
new_auto_scaler c now = record { config = c; last_scale_time = now }

abbrev pub cooling : ℕ → AutoScaler → Bool
cooling now s = ltb_ℤ (pos (now - s.last_scale_time)) s.config.scale_cooldown

abbrev pub avg_streams_per_conn : Metrics → ℤ
avg_streams_per_conn m = active_streams m /ℤ connection_count m

abbrev pub overloaded : Config → Metrics → Bool
overloaded c m =
    ltb_ℤ (connection_count m) c.max_connections
    && (ltb_ℤ c.scale_up_threshold (avg_streams_per_conn m)
        || (ltb_ℤ (pos 0) c.latency_threshold && ltb_ℤ c.latency_threshold (avg_latency m)))

abbrev pub underused : Config → Metrics → Bool
underused c m =
    ltb_ℤ c.min_connections (connection_count m)
    && (ltb_ℤ (avg_streams_per_conn m) c.scale_down_threshold
        && (is_zero c.latency_threshold || ltb_ℤ (avg_latency m) (c.latency_threshold /ℤ pos 2)))

unfoldable pub evaluate : ℕ → Metrics → AutoScaler → ScaleAction
evaluate now m s =
    if cooling now s
    then scale_none
    else (if is_zero (connection_count m)
        then (if ltb_ℤ (pos 0) s.config.min_connections then scale_up else scale_none)
        else (if overloaded s.config m
            then scale_up
            else (if underused s.config m then scale_down else scale_none)))

abbrev pub record_scale : ℕ → AutoScaler → AutoScaler
record_scale now s = record s { last_scale_time = now }
